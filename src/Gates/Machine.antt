-- ===== src/Gates/Machine.antt =====
-- What the development commands use of the machine that they run on: processes, files and the
-- environment, as operations on a world `W`; and commands as functions from world to world.
use rust_v.Prelude.{
  ℕ, String, ◌≡◌, refl, ap, Bool, true, false, Option, none, some, List, Result, ok, err, arith,
}
use rust_v.Gates.Isa.Sources.{Entries, IsaFailure}

-- What a command stops with. `io` is any error of the standard library.
pub data Failure : Type 0 where
  io : Failure
  command_failed : (program : String) → (args : List String) → Failure
  hue_named : (offenders : List String) → Failure
  predecessor_named : (offenders : List String) → Failure
  stale : (sheets : List String) → Failure
  kit_bypassed : IsaFailure → Failure
  reaches_server : (app : String) → (server_crate : String) → Failure
  no_root : Failure
  no_input : (app : String) → Failure
  tailwind_failed : (app : String) → Failure
  too_few_bytes : (app : String) → (bytes : ℕ) → Failure
  no_platform : (os : String) → (arch : String) → Failure
  no_download : (url : String) → Failure
  no_core : (url : String) → Failure
  core_failed : Failure

-- A `std::process::Command`: the program, its arguments, the directory and the variables set.
pub record Call : Type 0 where
  pub program : String
  pub args : List String
  pub dir : Option String
  pub vars : List (String × String)

-- `std::process::Output`, the text as `from_utf8_lossy` gives it.
pub record Output : Type 0 where
  pub success : Bool
  pub stdout : String

-- `status` and `output` give `none` where the process cannot be started. A file is known by the text
-- of its path, its bytes are missing where it cannot be read.
pub record Machine (W : Type 0) : Type 0 where
  pub status : Call → W → W × Option Bool
  pub output : Call → W → W × Option Output
  pub exists : W → String → Bool
  pub create_dir_all : String → W → W × Bool
  pub set_mode : String → W → W × Bool
  pub read : W → String → Option (List ℕ)
  pub size : W → String → Option ℕ
  pub apps : W → Option Entries
  pub var : W → String → Option String
  pub set_var : String → String → W → W

-- A command that may fail, and leaves the world changed also then.
abbrev pub Command : Type 0 → Type 0 → Type 0
Command W A = W → W × Result Failure A

module _ {W : Type 0} where
  unfoldable pub then_run :
      {A B : Type 0} → (A → Command W B) → W × Result Failure A → W × Result Failure B
  then_run f (w, ok a) = f a w
  then_run f (w, err e) = (w, err e)

  infixl 5 ◌>>=◌
  abbrev pub ◌>>=◌ : {A B : Type 0} → Command W A → (A → Command W B) → Command W B
  ◌>>=◌ m f w = then_run f (m w)

  abbrev pub pure : {A : Type 0} → A → Command W A
  pure a w = (w, ok a)

  abbrev pub fail : {A : Type 0} → Failure → Command W A
  fail e w = (w, err e)

  -- `if !b { return Err(e) }`
  unfoldable pub guard : Bool → Failure → Command W (Unit {0})
  guard true e w = (w, ok tt)
  guard false e w = (w, err e)

  -- The `?` operator on a value that is there already.
  abbrev pub lift : {A : Type 0} → Result Failure A → Command W A
  lift r w = (w, r)

  -- An `io::Result` of a process: the world, and the value where there is one.
  abbrev pub or_io : {A : Type 0} → W × Option A → W × Result Failure A
  or_io (w, some a) = (w, ok a)
  or_io (w, none) = (w, err io)

  abbrev pub unit_or_io : W × Bool → W × Result Failure (Unit {0})
  unit_or_io (w, true) = (w, ok tt)
  unit_or_io (w, false) = (w, err io)

  -- What succeeded succeeded in both parts, the second in the world that the first left.
  pub then_run-ok :
      {A B : Type 0} (r : W × Result Failure A) {f : A → Command W B} {w' : W} {b : B}
      → then_run f r ≡ (w', ok b)
      → (w : W) × (a : A) × (r ≡ (w, ok a)) × (f a w ≡ (w', ok b))
  unfolding then_run
  then_run-ok (w, ok a) h = (w, a, refl, h)
  then_run-ok (w, err e) h = absurd (ground arith)

  pub then_run-of :
      {A B : Type 0} (f : A → Command W B) {r : W × Result Failure A} {w : W} {a : A}
      → r ≡ (w, ok a)
      → then_run f r ≡ f a w
  unfolding then_run
  then_run-of f h = ap (λ r. then_run f r) h

  pub or_io-ok :
      {A : Type 0} (r : W × Option A) {w : W} {a : A} → or_io r ≡ (w, ok a) → r ≡ (w, some a)
  or_io-ok (w, some a) h = ground arith
  or_io-ok (w, none) h = absurd (ground arith)

  pub pure-ok :
      {A : Type 0} {w w' : W} {a b : A}
      → ◌≡◌ {A = W × Result Failure A} (w, ok a) (w', ok b)
      → (w ≡ w') × (a ≡ b)
  pure-ok h = ground arith

  pub or_io-of :
      {A : Type 0} {r : W × Option A} {w : W} {a : A} → r ≡ (w, some a) → or_io r ≡ (w, ok a)
  or_io-of h = ap (λ r. or_io r) h

  -- A guard lets the command go on in the same world.
  pub guard-ok :
      (b : Bool) (e : Failure) {w w' : W} → guard b e w ≡ (w', ok tt) → (b ≡ true) × (w ≡ w')
  unfolding guard
  guard-ok true e h = (refl, (pure-ok h).0)
  guard-ok false e h = absurd (ground arith)

  pub guard-of : {b : Bool} (e : Failure) (w : W) → b ≡ true → guard b e w ≡ (w, ok tt)
  unfolding guard
  guard-of e w h = rw h refl
