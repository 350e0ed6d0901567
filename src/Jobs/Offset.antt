-- ===== src/Jobs/Offset.antt =====
-- crates/rv2-jobs/src/lib.rs: the bounds of a job's start offset.
use native.Mathlib.Nat.{mod-lt, mod-le, mod-eq_of_lt}
use rust_v.Prelude.{ℕ, ◌≤◌, ◌<◌, ◌%◌, max, ◌≡◌, refl, List, [], ◌∷◌, arith}
use rust_v.Jobs.{u64_mod, fnv_offset_basis, fnv_round, fnv_loop, fnv_hash, start_offset}

fnv_round_bound : (hash byte : ℕ) → fnv_round hash byte < u64_mod
unfolding fnv_round
fnv_round_bound hash byte = omega arith

fnv_loop_bound : (hash : ℕ) (bytes : List ℕ) → hash < u64_mod → fnv_loop hash bytes < u64_mod
unfolding fnv_loop
fnv_loop_bound hash [] h = h
fnv_loop_bound hash (byte ∷ bytes) h =
    fnv_loop_bound (fnv_round hash byte) bytes (fnv_round_bound hash byte)

fnv_hash_bound : (bytes : List ℕ) → fnv_hash bytes < u64_mod
unfolding fnv_hash
fnv_hash_bound bytes = fnv_loop_bound fnv_offset_basis bytes (omega arith)

-- The offset of a job whose period is at least a millisecond lies inside the period, and the cast to
-- 64 bits loses nothing: the offset is the hash of the name modulo the period.
start_offset_bounds :
    (name : List ℕ) (period_millis : ℕ)
    → 1 ≤ period_millis
    → (start_offset name period_millis < period_millis)
      × (start_offset name period_millis ≡ fnv_hash name % period_millis)
unfolding start_offset
start_offset_bounds name period_millis h =
    let whole : max period_millis 1 ≡ period_millis = omega arith in
    let inside : fnv_hash name % period_millis < period_millis = mod-lt (fnv_hash name) h in
    let small : fnv_hash name % period_millis < u64_mod =
      omega (arith, mod-le (fnv_hash name) period_millis, fnv_hash_bound name) in
    let kept : (fnv_hash name % period_millis) % u64_mod ≡ fnv_hash name % period_millis =
      mod-eq_of_lt small in
    rw (whole, kept) (inside, refl)
