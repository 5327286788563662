-- ===== src/Proc/Fine.antt =====
-- What a run does that does not fault: a rule for each way in which a body is put together.
use nickdb.Base.{Bool, true, false, ◌≢◌}
use nickdb.Proc.{
  Outcome, ret, fault, diverges, Body, Flow, and_then, return_if, returned, outcome, Returns,
}
use nickdb.Proc.Partial.{IfReturns}

-- The run does not fault, and if it returns, then in `P`.
abbrev pub Fine : {W A : Type 0} → (A → Type 0) → Outcome W A → Type 0
Fine P (ret a w) = P a
Fine P fault = ⊥
Fine P diverges = Unit

pub Fine-IfReturns : {W A : Type 0} (P : A → Type 0) (o : Outcome W A) → Fine P o → IfReturns P o
Fine-IfReturns P (ret a w) h = h
Fine-IfReturns P fault h = tt
Fine-IfReturns P diverges h = tt

module _ {W A B : Type 0} (P : B → Type 0) where
  -- a call that returns, and then the rest
  pub Fine-Returns :
      (Q : A → W → Type 0) (o : Outcome W A) (k : A → Body W B B)
      → Returns Q o
      → ((a : A) (w : W) → Fine P (outcome (k a w)))
      → Fine P (outcome (and_then (returned o) k))
  Fine-Returns Q (ret a w) k h rest = rest a w
  Fine-Returns Q fault k h rest = h
  Fine-Returns Q diverges k h rest = tt

  -- a call, and then a value
  pub Fine-called :
      (Q : A → Type 0) (o : Outcome W A) (k : A → B)
      → Fine Q o
      → ((a : A) → Q a → P (k a))
      → Fine P (outcome (and_then (returned o) λ a w. Flow.next (k a) w))
  Fine-called Q (ret a w) k h rest = rest a h
  Fine-called Q fault k h rest = h
  Fine-called Q diverges k h rest = h

pub Fine-guarded :
    {W R : Type 0} (P : R → Type 0) (b : Bool) (r : R) (w : W) (k : Unit {0} → Body W R R)
    → P r
    → Fine P (outcome (k tt w))
    → Fine P (outcome (and_then (return_if b r w) k))
Fine-guarded P true r w k h rest = h
Fine-guarded P false r w k h rest = rest

pub Fine-outcome :
    {W A : Type 0} (P : A → Type 0) (o : Outcome W A) → Fine P o → Fine P (outcome (returned o))
Fine-outcome P (ret a w) h = h
Fine-outcome P fault h = h
Fine-outcome P diverges h = h

pub Fine-fault : {W A : Type 0} (P : A → Type 0) (o : Outcome W A) → Fine P o → o ≢ fault
Fine-fault P (ret a w) h e = cc
Fine-fault P fault h e = h
Fine-fault P diverges h e = cc
