-- ===== src/Jobs.antt =====
-- crates/rv2-jobs/src/lib.rs: the offset at which a periodic job starts.
pub mod Offset
pub mod Scheduler
use Prim.Native.Nat.{bit_xor}
use rust_v.Prelude.{ℕ, ◌*◌, ◌%◌, ◌^◌, max, List, [], ◌∷◌}

abbrev u64_mod : ℕ
u64_mod = 0x1_0000_0000_0000_0000

abbrev fnv_offset_basis : ℕ
fnv_offset_basis = 0xcbf2_9ce4_8422_2325

abbrev fnv_prime : ℕ
fnv_prime = 0x0000_0100_0000_01b3

-- One round: `hash ^= byte; hash = hash.wrapping_mul(prime)`.
unfoldable pub fnv_round : ℕ → ℕ → ℕ
fnv_round hash byte = (bit_xor hash byte * fnv_prime) % u64_mod

fnv_loop : ℕ → List ℕ → ℕ
fnv_loop hash [] = hash
fnv_loop hash (byte ∷ bytes) = fnv_loop (fnv_round hash byte) bytes

-- FNV-1a over the bytes of the name.
unfoldable pub fnv_hash : List ℕ → ℕ
unfolding fnv_loop fnv_round
fnv_hash bytes = fnv_loop fnv_offset_basis bytes

-- `(u128::from(hash) % millis) as u64`, in milliseconds; the period is given in whole milliseconds.
unfoldable pub start_offset : List ℕ → ℕ → ℕ
start_offset name period_millis = (fnv_hash name % max period_millis 1) % u64_mod
