-- ===== src/Api/Listing/Pages.antt =====
-- apps/api/src/presentation/handlers/posts.rs: the pages of the list.
use mathlib.Core.List.{Perm}
use mathlib.Core.List.Perm
use rust_v.Prelude.{
  ◌+◌, ◌≤◌, ◌<◌, ◌≡◌, ◌⊎◌, inl, inr, true, false, Bool-cases, List, [], ◌∷◌, ◌++◌, arith, take,
  drop, length, take-append, drop-drop, length-take, All,
}
use rust_v.ApiTypes.{PostView, ListPostsQuery, resolved_limit, resolved_offset, max_limit}
use rust_v.ApiTypes.Page.{resolved_limit_bounds}
use rust_v.Api.Listing.{comes_first, insert_sorted, sort_posts, page}

-- Newest first, and among posts of one time by ascending id.
abbrev pub InOrder : PostView → PostView → Type 0
InOrder a b = (b.created_at < a.created_at) ⊎ ((b.created_at ≡ a.created_at) × (a.id ≤ b.id))

abbrev pub IsSorted : List PostView → Type 0
IsSorted [] = Unit
IsSorted (a ∷ zs) = All (InOrder a) zs × IsSorted zs

comes_first-InOrder : (a b : PostView) → comes_first a b ≡ true → InOrder a b
unfolding comes_first
comes_first-InOrder a b h = ground arith

comes_first-total : (a b : PostView) → comes_first a b ≡ false → InOrder b a
unfolding comes_first
comes_first-total a b h = ground arith

InOrder-trans : (a b c : PostView) → InOrder a b → InOrder b c → InOrder a c
InOrder-trans a b c p q = ground arith

All-InOrder :
    (a b : PostView) (cs : List PostView) → InOrder a b → All (InOrder b) cs → All (InOrder a) cs
All-InOrder a b [] p h = tt
All-InOrder a b (c ∷ cs) p (q, h) = (InOrder-trans a b c p q, All-InOrder a b cs p h)

All-insert_sorted :
    (b a : PostView) (zs : List PostView)
    → InOrder b a
    → All (InOrder b) zs
    → All (InOrder b) (insert_sorted a zs)
unfolding insert_sorted
All-insert_sorted b a [] p h = (p, tt)
All-insert_sorted b a (c ∷ cs) p (q, h) = elim (Bool-cases (comes_first a c)) [
  | inl first ↦ rw first (p, (q, h))
  | inr later ↦ rw later (q, All-insert_sorted b a cs p h)
]

insert_sorted-IsSorted :
    (a : PostView) (zs : List PostView) → IsSorted zs → IsSorted (insert_sorted a zs)
unfolding insert_sorted
insert_sorted-IsSorted a [] h = (tt, tt)
insert_sorted-IsSorted a (b ∷ bs) (all, h) = elim (Bool-cases (comes_first a b)) [
  | inl first ↦
      let p = comes_first-InOrder a b first in rw first ((p, All-InOrder a b bs p all), (all, h))
  | inr later ↦
      rw later
        (All-insert_sorted b a bs (comes_first-total a b later) all, insert_sorted-IsSorted a bs h)
]

insert_sorted-perm : (a : PostView) (zs : List PostView) → Perm (insert_sorted a zs) (a ∷ zs)
unfolding insert_sorted
insert_sorted-perm a [] = Perm.refl (a ∷ [])
insert_sorted-perm a (b ∷ bs) = elim (Bool-cases (comes_first a b)) [
  | inl first ↦ rw first (Perm.refl (a ∷ b ∷ bs))
  | inr later ↦ rw later (Perm.trans (Perm.cons b (insert_sorted-perm a bs)) (Perm.swap a b bs))
]

-- The posts that are paged are all the posts, newest first and then by id.
sort_posts_correct :
    (posts : List PostView) → IsSorted (sort_posts posts) × Perm (sort_posts posts) posts
unfolding sort_posts
sort_posts_correct [] = (tt, Perm.refl [])
sort_posts_correct (a ∷ zs) =
    let (sorted, same) = sort_posts_correct zs in
    (
      insert_sorted-IsSorted a (sort_posts zs) sorted,
      Perm.trans (insert_sorted-perm a (sort_posts zs)) (Perm.cons a same),
    )

-- A page has no more posts than its limit and than the maximum, and the page that starts where it
-- ends goes on without a gap and without an overlap: together they are one run of the sorted posts.
page_tiles :
    (posts : List PostView) (q r : ListPostsQuery)
    → resolved_offset r ≡ resolved_offset q + resolved_limit q
    → (length (page q posts) ≤ resolved_limit q)
      × (resolved_limit q ≤ max_limit)
      × (page q posts ++ page r posts
          ≡ take
              (resolved_limit q + resolved_limit r)
              (drop (resolved_offset q) (sort_posts posts)))
unfolding page
page_tiles posts q r h = (
  length-take (resolved_limit q) (drop (resolved_offset q) (sort_posts posts)),
  (resolved_limit_bounds q).1,
  rw (h, ← drop-drop (resolved_offset q) (resolved_limit q) (sort_posts posts))
      (take-append (resolved_limit q) (resolved_limit r)
        (drop (resolved_offset q) (sort_posts posts))),
)
