-- ===== src/Proc/Partial.antt =====
-- What a run may return, where it may also be undefined or run out of fuel: a rule for each way in
-- which a body is put together.
use nickdb.Base.{Bool, true, false, ◌≡◌, refl, subst, Option, none, some}
use nickdb.Proc.{
  Outcome, ret, fault, diverges, Flow, next, leave, crash, loops, Body, and_then, return_if,
  require, deref, outcome, returned,
}

abbrev pub IfReturns : {W A : Type 0} → (A → Type 0) → Outcome W A → Type 0
IfReturns P (ret a w) = P a
IfReturns P fault = Unit
IfReturns P diverges = Unit

abbrev pub Leads : {W R A : Type 0} → (R → Type 0) → (A → Type 0) → Flow W R A → Type 0
Leads P Q (next a w) = Q a
Leads P Q (leave r w) = P r
Leads P Q crash = Unit
Leads P Q loops = Unit

pub IfReturns-ret :
    {W A : Type 0} (P : A → Type 0) (o : Outcome W A) {a : A} {w : W}
    → IfReturns P o
    → o ≡ ret a w
    → P a
IfReturns-ret P (ret b v) h e = subst (IfReturns P) e h
IfReturns-ret P fault h e = cc
IfReturns-ret P diverges h e = cc

module _ {W R : Type 0} (P : R → Type 0) where
  pub seq :
      {A B : Type 0} (Q : A → Type 0) (Q' : B → Type 0) (m : Flow W R A) (k : A → Body W R B)
      → Leads P Q m
      → ((a : A) (w : W) → Q a → Leads P Q' (k a w))
      → Leads P Q' (and_then m k)
  seq Q Q' (next a w) k h rest = rest a w h
  seq Q Q' (leave r w) k h rest = h
  seq Q Q' crash k h rest = tt
  seq Q Q' loops k h rest = tt

  pub guard :
      {A : Type 0} (Q : A → Type 0) (b : Bool) (r : R) (w : W) (k : Unit {0} → Body W R A)
      → P r
      → (b ≡ false → Leads P Q (k tt w))
      → Leads P Q (and_then (return_if b r w) k)
  guard Q true r w k h rest = h
  guard Q false r w k h rest = rest refl

  -- The same, where what is returned early needs the test.
  pub guard_if :
      {A : Type 0} (Q : A → Type 0) (b : Bool) (r : R) (w : W) (k : Unit {0} → Body W R A)
      → (b ≡ true → P r)
      → (b ≡ false → Leads P Q (k tt w))
      → Leads P Q (and_then (return_if b r w) k)
  guard_if Q true r w k h rest = h refl
  guard_if Q false r w k h rest = rest refl

  pub required :
      {A : Type 0} (Q : A → Type 0) (b : Bool) (w : W) (k : Unit {0} → Body W R A)
      → (b ≡ true → Leads P Q (k tt w))
      → Leads P Q (and_then (require b w) k)
  required Q true w k rest = rest refl
  required Q false w k rest = tt

  pub dereferenced :
      {A B : Type 0} (Q : B → Type 0) (o : Option A) (w : W) (k : A → Body W R B)
      → ((a : A) → o ≡ some a → Leads P Q (k a w))
      → Leads P Q (and_then (deref o w) k)
  dereferenced Q none w k rest = tt
  dereferenced Q (some a) w k rest = rest a refl

  -- a call about which nothing is known
  pub call :
      {A B : Type 0} (Q : B → Type 0) (o : Outcome W A) (k : A → Body W R B)
      → ((a : A) (w : W) → Leads P Q (k a w))
      → Leads P Q (and_then (returned {R = R} o) k)
  call Q (ret a w) k rest = rest a w
  call Q fault k rest = tt
  call Q diverges k rest = tt

  -- a call about whose value something is known
  pub called :
      {A B : Type 0} (P' : A → Type 0) (Q : B → Type 0) (o : Outcome W A) (k : A → Body W R B)
      → IfReturns P' o
      → ((a : A) (w : W) → P' a → Leads P Q (k a w))
      → Leads P Q (and_then (returned {R = R} o) k)
  called P' Q (ret a w) k h rest = rest a w h
  called P' Q fault k h rest = tt
  called P' Q diverges k h rest = tt

  pub outcome-IfReturns : (m : Flow W R R) → Leads P P m → IfReturns P (outcome m)
  outcome-IfReturns (next r w) h = h
  outcome-IfReturns (leave r w) h = h
  outcome-IfReturns crash h = tt
  outcome-IfReturns loops h = tt

  -- a call at the end
  pub last_call : (o : Outcome W R) → IfReturns P o → Leads P P (returned {R = R} o)
  last_call (ret a w) h = h
  last_call fault h = tt
  last_call diverges h = tt
