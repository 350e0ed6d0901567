-- ===== src/Domain/Post/Commands.antt =====
-- crates/rv2-domain/src/post.rs: the events that the commands produce, and their errors.
use rust_v.Prelude.{ℕ, String, ◌≡◌, ◌≢◌, ◌⊎◌, inl, inr, refl, Option, none, some, ok, err, false}
use rust_v.Prelude.Text.{trim}
use rust_v.Events.{Uuid, DateTime, post_created, post_edited}
use rust_v.ApiTypes.{CreatePostRequest, UpdatePostRequest}
use rust_v.Domain.{ValidationError, must_change_a_field}
use rust_v.Domain.Bounded.{Fits, Misfit, non_empty_bounded-cases}
use rust_v.Domain.Post.{title_max, content_max, create, check_optional, edit, changes_nothing}

-- What `create` does with a request: the event with the trimmed texts, or the first field's error.
abbrev pub CreateOutcome : Uuid → Uuid → DateTime → CreatePostRequest → Type 0
CreateOutcome id author_id now req =
    (Fits title_max req.title
      × Fits content_max req.content
      × (create id author_id now req
          ≡ ok (post_created id author_id (trim req.title) (trim req.content) now)))
    ⊎ ((e : ValidationError) × (Misfit "title" title_max req.title e
          ⊎ (Fits title_max req.title × Misfit "content" content_max req.content e))
        × (create id author_id now req ≡ err e))

-- `create` succeeds when the title and the content fit, and its event then carries the trimmed
-- texts, the ids and the time that it was given. It fails over the title when that does not fit,
-- and over the content when the title fits and the content does not.
pub create_outcome :
    (id author_id : Uuid) (now : DateTime) (req : CreatePostRequest)
    → CreateOutcome id author_id now req
unfolding create
create_outcome id author_id now req = elim (non_empty_bounded-cases "title" req.title title_max) [
  | inr (e, m, h) ↦ inr (e, inl m, rw h)
  | inl (f, h) ↦ elim (non_empty_bounded-cases "content" req.content content_max) [
    | inr (e, m, k) ↦ inr (e, inr (f, m), rw (h, k))
    | inl (g, k) ↦ inl (f, g, rw (h, k))
  ]
]

abbrev pub FitsOption : ℕ → Option String → Type 0
FitsOption max none = Unit
FitsOption max (some s) = Fits max s

abbrev pub MisfitOption : String → ℕ → Option String → ValidationError → Type 0
MisfitOption name max none e = ⊥
MisfitOption name max (some s) e = Misfit name max s e

abbrev pub trim_option : Option String → Option String
trim_option none = none
trim_option (some s) = some (trim s)

pub check_optional-cases :
    (name : String) (max : ℕ) (o : Option String)
    → (FitsOption max o × (check_optional name max o ≡ ok (trim_option o)))
      ⊎ ((e : ValidationError) × MisfitOption name max o e × (check_optional name max o ≡ err e))
unfolding check_optional
check_optional-cases name max none = inl (tt, refl)
check_optional-cases name max (some s) = elim (non_empty_bounded-cases name s max) [
  | inl (f, h) ↦ inl (f, rw h)
  | inr (e, m, h) ↦ inr (e, m, rw h)
]

-- What `edit` does with a patch.
abbrev pub EditOutcome : Uuid → DateTime → UpdatePostRequest → Type 0
EditOutcome id now req =
    ((req.title ≡ none)
      × (req.content ≡ none)
      × (edit id now req ≡ err (record { field = "body"; reason = must_change_a_field })))
    ⊎ (((req.title ≢ none) ⊎ (req.content ≢ none))
        × (FitsOption title_max req.title × FitsOption content_max req.content)
        × (edit id now req
            ≡ ok (post_edited id now (trim_option req.title) (trim_option req.content))))
    ⊎ ((e : ValidationError) × (MisfitOption "title" title_max req.title e
          ⊎ (FitsOption title_max req.title × MisfitOption "content" content_max req.content e))
        × (edit id now req ≡ err e))

abbrev patch : Option String → Option String → UpdatePostRequest
patch title content = record { title = title; content = content }

edit_some :
    (id : Uuid) (now : DateTime) (req : UpdatePostRequest)
    → changes_nothing req.title req.content ≡ false
    → ((req.title ≢ none) ⊎ (req.content ≢ none))
    → EditOutcome id now req
unfolding edit
edit_some id now req c ne = elim (check_optional-cases "title" title_max req.title) [
  | inr (e, m, h) ↦ inr (inr (e, inl m, rw (c, h)))
  | inl (f, h) ↦ elim (check_optional-cases "content" content_max req.content) [
    | inr (e, m, k) ↦ inr (inr (e, inr (f, m), rw (c, h, k)))
    | inl (g, k) ↦ inr (inl (ne, (f, g), rw (c, h, k)))
  ]
]

edit_parts :
    (id : Uuid) (now : DateTime) (title content : Option String)
    → EditOutcome id now (patch title content)
unfolding edit
edit_parts id now none none = inl (refl, refl, refl)
edit_parts id now (some t) content = edit_some id now (patch (some t) content) refl (inl (λ e. cc))
edit_parts id now none (some c) = edit_some id now (patch none (some c)) refl (inr (λ e. cc))

-- `edit` refuses a patch that names no field. Otherwise it succeeds when each named field fits, with
-- the trimmed texts and with an absent field left absent; else it fails over the title if that does
-- not fit, and over the content if only that does not.
pub edit_outcome : (id : Uuid) (now : DateTime) (req : UpdatePostRequest) → EditOutcome id now req
edit_outcome id now req = edit_parts id now req.title req.content
