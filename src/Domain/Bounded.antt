-- ===== src/Domain/Bounded.antt =====
-- crates/rv2-domain/src/lib.rs: what `non_empty_bounded` accepts, and what it says otherwise.
use Prim.Native.String
use text.Mathlib.TextLemmas.{length-cons}
use rust_v.Prelude.{ℕ, ◌≤◌, ◌<◌, String, ◌≡◌, ◌↔◌, ◌⊎◌, inl, inr, ok, err, arith, Result-cases}
use rust_v.Prelude.Text.{trim}
use rust_v.Prelude.Text.Trim.{trim_idem}
use rust_v.Domain.{ValidationError, must_not_be_empty, must_be_at_most, bounded, non_empty_bounded}

-- A value fits when its trimmed text is not empty and has at most `max` characters.
abbrev pub Fits : ℕ → String → Type 0
Fits max value = (0 < String.count (trim value)) × (String.count (trim value) ≤ max)

-- The error for a value that does not fit.
abbrev pub Misfit : String → ℕ → String → ValidationError → Type 0
Misfit name max value e =
    (e.field ≡ name)
    × (((String.count (trim value) ≡ 0) × (e.reason ≡ must_not_be_empty))
        ⊎ ((max < String.count (trim value))
            × (e.reason ≡ must_be_at_most max (String.count (trim value)))))

bounded-ok :
    (name : String) (max : ℕ) (t u : String)
    → (bounded name max t ≡ ok u) ↔ ((u ≡ t) × ((0 < String.count t) × (String.count t ≤ max)))
unfolding bounded
bounded-ok name max String.[] u = (λ h. cc, λ h. absurd (omega arith))
bounded-ok name max (String.◌∷◌ c s) u =
    (λ h. ground (arith, length-cons c s), λ h. ground (arith, length-cons c s))

bounded-err :
    (name : String) (max : ℕ) (t : String) (e : ValidationError)
    → bounded name max t ≡ err e
    → (e.field ≡ name)
      × (((String.count t ≡ 0) × (e.reason ≡ must_not_be_empty))
          ⊎ ((max < String.count t) × (e.reason ≡ must_be_at_most max (String.count t))))
unfolding bounded
bounded-err name max String.[] e h = ground arith
bounded-err name max (String.◌∷◌ c s) e h = ground (arith, length-cons c s)

-- `non_empty_bounded` returns a text exactly when it is the trimmed value and that fits; it fails
-- with an error that names the field only for a value that does not fit, and says how.
non_empty_bounded_correct :
    (name value : String) (max : ℕ)
    → ((t : String)
        → (non_empty_bounded name value max ≡ ok t) ↔ ((t ≡ trim value) × Fits max value))
      × ((e : ValidationError) → non_empty_bounded name value max ≡ err e → Misfit name max value e)
unfolding non_empty_bounded
non_empty_bounded_correct name value max =
    (λ t. bounded-ok name max (trim value) t, λ e h. bounded-err name max (trim value) e h)

-- A value that was accepted is accepted again as it stands.
non_empty_bounded_idem :
    (name value : String) (max : ℕ) {t : String}
    → non_empty_bounded name value max ≡ ok t
    → non_empty_bounded name t max ≡ ok t
unfolding non_empty_bounded
non_empty_bounded_idem name value max {t} h =
    let p = (bounded-ok name max (trim value) t).0 h in
    rw p.0 (rw trim_idem (rw (← p.0) (rw (← p.0) at h)))

-- The two outcomes, which exclude one another.
pub non_empty_bounded-cases :
    (name value : String) (max : ℕ)
    → (Fits max value × (non_empty_bounded name value max ≡ ok (trim value)))
      ⊎ ((e : ValidationError) × Misfit name max value e
          × (non_empty_bounded name value max ≡ err e))
non_empty_bounded-cases name value max =
    let (accepts, rejects) = non_empty_bounded_correct name value max in
    elim (Result-cases (non_empty_bounded name value max)) [
      | inl (t, h) ↦ let (e, fits) = (accepts t).0 h in inl (fits, rw (← e) h)
      | inr (e, h) ↦ inr (e, rejects e h, h)
    ]

pub Fits-Misfit :
    (name value : String) (max : ℕ) (e : ValidationError)
    → Fits max value
    → Misfit name max value e
    → ⊥
Fits-Misfit name value max e f m = ground arith
