-- ===== src/Views.antt =====
-- apps/app/src/views.rs and routes.rs: the pages of the app, over the client of the server. Texts,
-- classes and layout are left out.
pub mod Reached
pub mod Redirect
use Prim.Native.String
use rust_v.Prelude.{
  ℕ, suc, ◌+◌, String, Bool, true, false, Option, none, some, List, [], ◌∷◌, ◌++◌, Result, ok, err,
  ◌≡◌,
}
use rust_v.Events.{Uuid}
use rust_v.ApiTypes.{PostView, SessionView, CreatePostRequest}
use rust_v.Client.{ClientError, Wire, Request, Exchange, get_session, create_post, sign_in}

pub data Route : Type 0 where
  dashboard : Route
  posts : Route
  post_detail : (id : Uuid) → Route
  login : Route

-- The key of the link that is current.
unfoldable pub current_key : Route → String
current_key dashboard = "dashboard"
current_key posts = "posts"
current_key (post_detail id) = "posts"
current_key login = "login"

-- What the navigator is told.
pub data Navigation : Type 0 where
  stays : Navigation
  replaces : (route : Route) → Navigation

abbrev signed_in_or_login : Option SessionView → Navigation
signed_in_or_login none = replaces login
signed_in_or_login (some session) = stays

-- The effect of `Shell`, on what its resource holds: nothing yet, or the client's result.
unfoldable pub shell_effect :
    Option SessionView
    → Option (Result ClientError (Option SessionView))
    → Option SessionView × Navigation
shell_effect session none = (session, stays)
shell_effect session (some (err e)) = (session, stays)
shell_effect session (some (ok result)) = (result, signed_in_or_login result)

-- The signals of `Posts`; the requests that are on their way; and how often the list was asked for.
pub record PostsPage : Type 0 where
  pub title : String
  pub content : String
  pub submit_error : Option ClientError
  pub submitting : Bool
  pub in_flight : List CreatePostRequest
  pub listed : Option (Result ClientError (List PostView))
  pub restarts : ℕ

abbrev pub opened : PostsPage
opened = record {
  title = "";
  content = "";
  submit_error = none;
  submitting = false;
  in_flight = [];
  listed = none;
  restarts = 0;
}

-- `create`, up to its `await`.
unfoldable pub submit : PostsPage → PostsPage
submit page = record page {
  submitting = true;
  submit_error = none;
  in_flight = record { title = page.title; content = page.content } ∷ page.in_flight;
}

-- `create`, behind its `await`, of one of the requests.
unfoldable pub created : Result ClientError PostView → PostsPage → PostsPage
created (ok view) page = record page {
  title = "";
  content = "";
  restarts = page.restarts + 1;
  submitting = false;
}
created (err e) page = record page { submit_error = some e; submitting = false }

-- What the page shows under its form.
pub data Listing : Type 0 where
  skeleton : (lines : ℕ) → Listing
  banner : (error : ClientError) → (retry : Bool) → Listing
  empty_state : Listing
  cards : (views : List PostView) → Listing

unfoldable pub listing : Option (Result ClientError (List PostView)) → Listing
listing none = skeleton 4
listing (some (err e)) = banner e true
listing (some (ok [])) = empty_state
listing (some (ok (view ∷ views))) = cards (view ∷ views)

-- `PostDetail`
pub data Detail : Type 0 where
  loading : (lines : ℕ) → Detail
  failed : (error : ClientError) → Detail
  body : (view : PostView) → Detail

unfoldable pub post_detail_view : Option (Result ClientError PostView) → Detail
post_detail_view none = loading 5
post_detail_view (some (err e)) = failed e
post_detail_view (some (ok view)) = body view

-- The signals of `Login`, and the pair that is on its way.
pub record LoginPage : Type 0 where
  pub email : String
  pub password : String
  pub error : Option ClientError
  pub submitting : Bool
  pub in_flight : Option (String × String)

-- `submit` of `Login`, up to its `await`.
unfoldable pub submit_login : LoginPage → LoginPage
submit_login page = record page {
  submitting = true;
  error = none;
  in_flight = some (page.email, page.password);
}

-- `submit` of `Login`, behind its `await`.
unfoldable pub signed_in : Result ClientError (Unit {0}) → LoginPage → LoginPage × Navigation
signed_in (ok done) page =
    (record page { password = ""; submitting = false; in_flight = none }, replaces dashboard)
signed_in (err e) page =
    (record page { error = some e; submitting = false; in_flight = none }, stays)

-- What may happen on the page of posts. The form's handler looks at no signal, so that whether it is
-- called is the browser's decision, a parameter; any request that is on its way may be answered, by
-- the client; typing, a list that arrives and a retry may happen at any time. A restarted resource
-- keeps its value or forgets it.
pub data PostsStep (wire : Wire) (base : String) (submits : PostsPage → Type 0)
    : PostsPage → PostsPage → Type 0 where
  typed_title :
      (page : PostsPage) (text : String)
      → PostsStep wire base submits page (record page { title = text })
  typed_content :
      (page : PostsPage) (text : String)
      → PostsStep wire base submits page (record page { content = text })
  submitted :
      (page : PostsPage) (next : PostsPage)
      → submits page
      → next ≡ submit page
      → PostsStep wire base submits page next
  answered :
      (page : PostsPage) (before after : List CreatePostRequest) (req : CreatePostRequest)
      (fetch : Request → Exchange) (next : PostsPage)
      → page.in_flight ≡ before ++ req ∷ after
      → next
        ≡ created (create_post wire base fetch req) (record page { in_flight = before ++ after })
      → PostsStep wire base submits page next
  list_arrived :
      (page : PostsPage) (result : Result ClientError (List PostView))
      → PostsStep wire base submits page (record page { listed = some result })
  list_forgotten :
      (page : PostsPage) → PostsStep wire base submits page (record page { listed = none })
  retried :
      (page : PostsPage)
      → PostsStep wire base submits page (record page { restarts = page.restarts + 1 })

-- The pages that a visit can lead to.
pub data Reaches (wire : Wire) (base : String) (submits : PostsPage → Type 0)
    : PostsPage → Type 0 where
  visited : Reaches wire base submits opened
  stepped :
      (page next : PostsPage)
      → Reaches wire base submits page
      → PostsStep wire base submits page next
      → Reaches wire base submits next
