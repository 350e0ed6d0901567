-- ===== src/Xtask/Html/Loops.antt =====
-- tooling/xtask/src/discovery.rs: the loop over the elements of a page ends, and what it returns does
-- not depend on the fuel.
use Prim.Native.String
use rust_v.Prelude.{ℕ, zero, suc, ◌<◌, String, ◌≡◌, refl, Option, none, some, arith}
use rust_v.Prelude.Text.Search.{break_at, break_at-le}
use rust_v.Xtask.Html.{
  Element, closing, replaced, replace_loop, exact_element, replace_exact_scripts,
}

-- What stands behind an element is shorter than the text.
unfoldable pub Shrinks : (String → Option (String × Element)) → Type 0
Shrinks find_element =
    (s before inner rest : String)
    → find_element s ≡ some (before, some (inner, rest))
    → String.count rest < String.count s

module _ {ℓ} {A : Type ℓ} (find_element : String → Option (String × Element))
    (replacement : String → A → String × A) where
  pub next_round :
      (f g : String → A → String × A) (s : String) (a : A) (o : Option (String × Element))
      → ((before inner rest : String) (b : A)
          → o ≡ some (before, some (inner, rest))
          → f rest b ≡ g rest b)
      → replaced find_element replacement f s a o ≡ replaced find_element replacement g s a o
  next_round f g s a none same = refl
  next_round f g s a (some (before, none)) same = refl
  next_round f g s a (some (before, some (inner, rest))) same =
      rw (same before inner rest (replacement inner a).1 refl) refl

  pub replace_loop-fuel :
      (shrinks : Shrinks find_element) (n m : ℕ) (s : String) (a : A)
      → String.count s < n
      → String.count s < m
      → replace_loop find_element replacement n s a ≡ replace_loop find_element replacement m s a
  unfolding replace_loop Shrinks
  replace_loop-fuel shrinks zero m s a h k = absurd (omega (arith, h))
  replace_loop-fuel shrinks (suc n) zero s a h k = absurd (omega (arith, k))
  replace_loop-fuel shrinks (suc n) (suc m) s a h k =
      next_round (replace_loop find_element replacement n) (replace_loop find_element replacement m)
        s a (find_element s)
        (λ before inner rest b e.
          replace_loop-fuel shrinks n m rest b (omega (arith, shrinks s before inner rest e))
            (omega (arith, shrinks s before inner rest e)))

closing-some :
    (o : Option (String × String)) (before inner rest : String)
    → closing o ≡ some (before, some (inner, rest))
    → (body : String) × (o ≡ some (before, body)) × (break_at "</script>" body ≡ some (inner, rest))
closing-some none before inner rest h = absurd (ground arith)
closing-some (some (x, body)) before inner rest h = (body, ground arith, ground arith)

exact_element-Shrinks : (opening : String) → Shrinks (exact_element opening)
unfolding Shrinks
exact_element-Shrinks opening s before inner rest h =
    let (body, e, k) = closing-some (break_at opening s) before inner rest h in
    let tag : String.count "</script>" ≡ 9 = refl in
    omega
      (arith, tag, break_at-le opening s before body e, break_at-le "</script>" body inner rest k)

-- The loop over the elements that `opening` begins has fuel enough for every text: it does what the
-- loop of the source does, which has no bound. It stops where no element is left or one is not
-- closed, else it goes on with the whole loop behind the element.
pub replace_exact_scripts_terminates {ℓ} :
    {A : Type ℓ} (opening html : String) (replacement : String → A → String × A) (a : A)
    → replace_exact_scripts opening replacement html a
      ≡ replaced
          (exact_element opening)
          replacement
          (replace_exact_scripts opening replacement)
          html
          a
          (exact_element opening html)
unfolding replace_exact_scripts replace_loop Shrinks
replace_exact_scripts_terminates opening html replacement a =
    next_round (exact_element opening) replacement
      (replace_loop (exact_element opening) replacement (String.count html))
      (replace_exact_scripts opening replacement) html a (exact_element opening html)
      (λ before inner rest b e.
        let shorter = exact_element-Shrinks opening html before inner rest e in
        replace_loop-fuel (exact_element opening) replacement (exact_element-Shrinks opening)
          (String.count html) (suc (String.count rest)) rest b shorter (omega arith))
