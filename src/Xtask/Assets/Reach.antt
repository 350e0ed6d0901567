-- ===== src/Xtask/Assets/Reach.antt =====
-- tooling/xtask/src/discovery.rs: the assets that stay are those that the pages reach.
use mathlib.Core.List.{Memᴰ}
use mathlib.Core.List.Memᴰ
use rust_v.Prelude.{
  ℕ, zero, suc, ◌<◌, ◌≡◌, refl, sym, ap, ◌∙◌, true, not, ◌||◌, ◌↔◌, inl, inr, List, [], ◌∷◌, ◌++◌,
  any, filter, length, arith, Bool-cases,
}
use rust_v.Prelude.Members.{
  mem-filter, mem-of_filter, any-of_mem, mem-of_any, length-filter, length-filter_lt, List-cases,
}
use rust_v.Prelude.Text.{str_eq, str_eq_iff, str_eq_refl}
use rust_v.Xtask.Assets.{
  Asset, mentions, reached, is_fresh, contents_of, fresh, reach_loop, prune_unreferenced_assets,
}

-- The bytes of a page, or of an asset that is reached, hold the asset's name.
pub data Reaches (pages : List (List ℕ)) (candidates : List Asset) : Asset → Type 0 where
  from_page :
      {c : Asset} (page : List ℕ)
      → Memᴰ page pages
      → mentions c page ≡ true
      → Reaches pages candidates c
  from_asset :
      {c : Asset} (a : Asset)
      → Memᴰ a candidates
      → Reaches pages candidates a
      → mentions c a.contents ≡ true
      → Reaches pages candidates c

reached-append :
    (xs ys : List Asset) (c : Asset) → reached (xs ++ ys) c ≡ (reached xs c || reached ys c)
reached-append [] ys c = refl
reached-append (x ∷ xs) ys c = rw (reached-append xs ys c) (ground arith)

mem-contents_of : (a : Asset) (xs : List Asset) → Memᴰ a xs → Memᴰ a.contents (contents_of xs)
mem-contents_of a [] m = absurd (Memᴰ.not-nil m)
mem-contents_of a (x ∷ xs) m = elim (Memᴰ.cases_cons m) [
  | inl e ↦ Memᴰ.head (ap (λ (b : Asset). b.contents) e)
  | inr n ↦ Memᴰ.tail (mem-contents_of a xs n)
]

mem-of_contents_of :
    (s : List ℕ) (xs : List Asset)
    → Memᴰ s (contents_of xs)
    → (a : Asset) × Memᴰ a xs × (s ≡ a.contents)
mem-of_contents_of s [] m = absurd (Memᴰ.not-nil m)
mem-of_contents_of s (x ∷ xs) m = elim (Memᴰ.cases_cons m) [
  | inl e ↦ (x, Memᴰ.head refl, e)
  | inr n ↦ let (a, k, e) = mem-of_contents_of s xs n in (a, Memᴰ.tail k, e)
]

-- Only the name of an asset decides whether it is reached, and whether it is fresh.
is_fresh-name :
    (r : List Asset) (s : List (List ℕ)) (a b : Asset)
    → a.name ≡ b.name
    → is_fresh r s a ≡ is_fresh r s b
is_fresh-name r s a b e = rw e refl

module _ (pages : List (List ℕ)) (candidates : List Asset) where
  -- What each round of the loop keeps.
  record Invariant (r : List Asset) (s : List (List ℕ)) : Type 0 where
    sound : (a : Asset) → Memᴰ a r → Memᴰ a candidates × Reaches pages candidates a
    known :
        (source : List ℕ)
        → Memᴰ source s
        → (c : Asset) → mentions c source ≡ true
        → Reaches pages candidates c
    pages_in : (page : List ℕ) → Memᴰ page pages → Memᴰ page s
    contents_in : (a : Asset) → Memᴰ a candidates → reached r a ≡ true → Memᴰ a.contents s

  record Settled (r : List Asset) : Type 0 where
    sources : List (List ℕ)
    invariant : Invariant r sources
    settled : fresh candidates r sources ≡ []

  abbrev pending : List Asset → ℕ
  pending r = length (filter (λ c. not (reached r c)) candidates)

  start : Invariant [] pages
  start = record {
    sound = λ a m. absurd (Memᴰ.not-nil m);
    known = λ source m c h. from_page source m h;
    pages_in = λ page m. m;
    contents_in = λ a m h. absurd (ground arith);
  }

  module _ (r : List Asset) (s : List (List ℕ)) (inv : Invariant r s) (added : List Asset)
      (e : fresh candidates r s ≡ added) where
    added-fresh : (a : Asset) → Memᴰ a added → Memᴰ a candidates × (is_fresh r s a ≡ true)
    added-fresh a m = mem-filter (is_fresh r s) a candidates (rw e m)

    added-Reaches : (a : Asset) → Memᴰ a added → Memᴰ a candidates × Reaches pages candidates a
    added-Reaches a m =
        let (k, f) = added-fresh a m in
        let named : any (mentions a) s ≡ true = ground arith in
        let (source, n, h) = mem-of_any (mentions a) s named in (k, inv.known source n a h)

    next_round : Invariant (added ++ r) (s ++ contents_of added)
    next_round = record {
      sound = λ a m. elim (Memᴰ.append_cases added m) [
        | inl k ↦ added-Reaches a k
        | inr k ↦ inv.sound a k
      ];
      known = λ source m c h. elim (Memᴰ.append_cases s m) [
        | inl k ↦ inv.known source k c h
        | inr k ↦
            let (a, n, same) = mem-of_contents_of source added k in
            let (cand, reaches) = added-Reaches a n in from_asset a cand reaches (rw same at h)
      ];
      pages_in = λ page m. Memᴰ.append_left (contents_of added) (inv.pages_in page m);
      contents_in = λ a m h. elim (Bool-cases (reached r a)) [
        | inl old ↦ Memᴰ.append_left (contents_of added) (inv.contents_in a m old)
        | inr unreached ↦
            let new : reached added a ≡ true =
              sym (rw (reached-append added r a, unreached) (ground arith)) ∙ h in
            let (d, n, same) = mem-of_any (λ (b : Asset). str_eq b.name a.name) added new in
            let (k, f) = added-fresh d n in
            let name : a.name ≡ d.name = sym ((str_eq_iff d.name a.name).0 same) in
            let twin =
              mem-of_filter (is_fresh r s) a candidates m (is_fresh-name r s a d name ∙ f) in
            Memᴰ.append_right s (mem-contents_of a added (rw e at twin))
      ];
    }

  -- A round that adds an asset leaves fewer that are not reached.
  pending_lt :
      (r : List Asset) (s : List (List ℕ)) (a : Asset) (added : List Asset)
      → fresh candidates r s ≡ a ∷ added
      → pending ((a ∷ added) ++ r) < pending r
  pending_lt r s a added e =
      let (k, f) = mem-filter (is_fresh r s) a candidates (rw e (Memᴰ.head refl)) in
      length-filter_lt (λ c. not (reached ((a ∷ added) ++ r) c)) (λ c. not (reached r c))
        (λ c h. ground (arith, reached-append (a ∷ added) r c)) a candidates k
        (rw (str_eq_refl a.name) refl) (ground arith)

  loop_ends :
      (fuel : ℕ) (r : List Asset) (s : List (List ℕ))
      → pending r < fuel
      → Invariant r s
      → Settled (reach_loop candidates fuel r s)
  unfolding reach_loop
  loop_ends zero r s h inv = absurd (omega (arith, h))
  loop_ends (suc fuel) r s h inv = elim (List-cases (fresh candidates r s)) [
    | inl e ↦ rw e (record { sources = s; invariant = inv; settled = e })
    | inr (a, added, e) ↦ rw e (
        loop_ends fuel ((a ∷ added) ++ r) (s ++ contents_of (a ∷ added))
          (omega (arith, pending_lt r s a added e)) (next_round r s inv (a ∷ added) e))
  ]

  -- Where a round adds nothing, everything that the pages reach is reached.
  reached_of_source :
      (r : List Asset) (o : Settled r) (c : Asset)
      → Memᴰ c candidates
      → (source : List ℕ) → Memᴰ source o.sources
      → mentions c source ≡ true
      → reached r c ≡ true
  reached_of_source r o c m source n h = elim (Bool-cases (reached r c)) [
    | inl k ↦ k
    | inr k ↦
        let named = any-of_mem (mentions c) source o.sources n h in
        let f : is_fresh r o.sources c ≡ true = rw (k, named) refl in
        absurd
          (Memᴰ.not-nil (rw o.settled at (mem-of_filter (is_fresh r o.sources) c candidates m f)))
  ]

  Reaches-reached :
      (r : List Asset) (o : Settled r) (c : Asset)
      → Memᴰ c candidates
      → Reaches pages candidates c
      → reached r c ≡ true
  Reaches-reached r o c m (from_page page n h) =
      reached_of_source r o c m page (o.invariant.pages_in page n) h
  Reaches-reached r o c m (from_asset a n w h) =
      reached_of_source r o c m a.contents (o.invariant.contents_in a n (Reaches-reached r o a n w))
        h

  reached-Reaches :
      (r : List Asset) (o : Settled r) (c : Asset) → reached r c ≡ true → Reaches pages candidates c
  reached-Reaches r o c h =
      let (d, m, same) = mem-of_any (λ (b : Asset). str_eq b.name c.name) r h in
      renamed d c ((str_eq_iff d.name c.name).0 same) (o.invariant.sound d m).1
    where
      renamed :
          (d c : Asset) → d.name ≡ c.name → Reaches pages candidates d → Reaches pages candidates c
      renamed d c e (from_page page n k) = from_page page n (rw e at k)
      renamed d c e (from_asset a n w k) = from_asset a n w (rw e at k)

-- An asset stays exactly when it is a file below `assets` that the pages reach: its name stands in a
-- page, or in an asset that they reach, through any number of files, cycles included. The loop's fuel
-- is enough for every set of files.
pub prune_unreferenced_assets_correct :
    (candidates : List Asset) (pages : List (List ℕ)) (c : Asset)
    → Memᴰ c (prune_unreferenced_assets candidates pages)
      ↔ (Memᴰ c candidates × Reaches pages candidates c)
unfolding prune_unreferenced_assets
prune_unreferenced_assets_correct candidates pages c =
    let r = reach_loop candidates (suc (length candidates)) [] pages in
    let o =
      loop_ends pages candidates (suc (length candidates)) [] pages
        (omega (arith, length-filter (λ (a : Asset). not (reached [] a)) candidates))
        (start pages candidates) in
    (
      λ m.
          let (k, h) = mem-filter (reached r) c candidates m in
          (k, reached-Reaches pages candidates r o c h),
      λ (k, w).
          mem-of_filter (reached r) c candidates k (Reaches-reached pages candidates r o c k w),
    )
