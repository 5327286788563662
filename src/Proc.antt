-- ===== src/Proc.antt =====
-- How a C function runs: on the state of the system, to a value, to undefined behaviour, or past the
-- fuel of a loop. A body may return early; `run` makes it a procedure.
pub mod Partial
pub mod Stays
pub mod Keeps
pub mod Fine
use nickdb.Base.{Bool, true, false, Option, none, some}

pub data Outcome (W A : Type 0) : Type 0 where
  ret : A → W → Outcome W A
  fault : Outcome W A
  diverges : Outcome W A

abbrev pub Proc : Type 0 → Type 0 → Type 0
Proc W A = W → Outcome W A

-- A statement of a body goes on to the next one, returns `R` from the function, or faults.
pub data Flow (W R A : Type 0) : Type 0 where
  next : A → W → Flow W R A
  leave : R → W → Flow W R A
  crash : Flow W R A
  loops : Flow W R A

abbrev pub Body : Type 0 → Type 0 → Type 0 → Type 0
Body W R A = W → Flow W R A

module _ {W : Type 0} where
  abbrev pub pure : {R A : Type 0} → A → Body W R A
  pure = next

  abbrev pub and_then : {R A B : Type 0} → Flow W R A → (A → Body W R B) → Flow W R B
  and_then (next a w) k = k a w
  and_then (leave r w) k = leave r w
  and_then crash k = crash
  and_then loops k = loops

  infixl 5 ◌>>=◌ ◌>>◌
  abbrev pub ◌>>=◌ : {R A B : Type 0} → Body W R A → (A → Body W R B) → Body W R B
  ◌>>=◌ m k w = and_then (m w) k

  abbrev pub ◌>>◌ : {R A B : Type 0} → Body W R A → Body W R B → Body W R B
  m >> k = m >>= λ _. k

  -- `if (c) return r;`
  abbrev pub return_if : {R : Type 0} → Bool → R → Body W R (Unit {0})
  return_if true r = leave r
  return_if false r = next tt

  -- What is undefined unless the test holds, as an access to an array is.
  abbrev pub require : {R : Type 0} → Bool → Body W R (Unit {0})
  require true w = next tt w
  require false w = crash

  -- An access through a pointer that leads nowhere is undefined.
  abbrev pub deref : {R A : Type 0} → Option A → Body W R A
  deref none w = crash
  deref (some a) w = next a w

  -- a system call
  abbrev pub sys : {R A : Type 0} → (W → A × W) → Body W R A
  sys f w = next (f w).0 (f w).1

  abbrev pub outcome : {R : Type 0} → Flow W R R → Outcome W R
  outcome (next r w) = ret r w
  outcome (leave r w) = ret r w
  outcome crash = fault
  outcome loops = diverges

  abbrev pub run : {R : Type 0} → Body W R R → Proc W R
  run m w = outcome (m w)

  -- a call of another function of the program
  abbrev pub returned : {R A : Type 0} → Outcome W A → Flow W R A
  returned (ret a w) = next a w
  returned fault = crash
  returned diverges = loops

  abbrev pub invoke : {R A : Type 0} → Proc W A → Body W R A
  invoke f w = returned (f w)

-- Every run that ends does so with a value and a state of which `P` holds.
abbrev pub Returns : {W A : Type 0} → (A → W → Type 0) → Outcome W A → Type 0
Returns P (ret a w) = P a w
Returns P fault = ⊥
Returns P diverges = ⊥
