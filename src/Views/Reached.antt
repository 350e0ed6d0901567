-- ===== src/Views/Reached.antt =====
-- The states of the page of posts.
use rust_v.Prelude.{String, ◌≡◌, refl, false, ◌⊎◌, none, length, if◌then◌else◌}
use rust_v.Client.{Wire}
use rust_v.Views.{PostsPage, opened, submit, submitted, Reaches, visited, stepped}

-- One request is on its way while the button is disabled and none else, and no error is shown then.
pub record IsCoherent (page : PostsPage) : Type 0 where
  pub busy : length page.in_flight ≡ (if page.submitting then 1 else 0)
  pub quiet : (page.submitting ≡ false) ⊎ (page.submit_error ≡ none)

-- The guard is the browser's alone: where it submits a form at any time, two requests can be on their
-- way at once.
twice_sent :
    (wire : Wire) (base : String)
    → (page : PostsPage) × Reaches wire base (λ page. Unit) page × (length page.in_flight ≡ 2)
unfolding submit
twice_sent wire base = (
  submit (submit opened),
  stepped (submit opened) (submit (submit opened))
      (stepped opened (submit opened) visited (submitted opened (submit opened) tt refl))
      (submitted (submit opened) (submit (submit opened)) tt refl),
  refl,
)
