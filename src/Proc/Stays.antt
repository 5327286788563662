-- ===== src/Proc/Stays.antt =====
-- A rule for each way in which a body or a call is put together, for what it may return.
use nickdb.Base.{Bool, true, false, if◌then◌else◌}
use nickdb.Proc.{
  Outcome, ret, fault, diverges, Flow, next, leave, crash, loops, Body, and_then, return_if,
  outcome, returned, Returns,
}

-- The body does not crash, what it returns early is in `P`, and what it goes on with is in `Q`.
abbrev pub Stays : {W R A : Type 0} → (R → Type 0) → (A → Type 0) → Flow W R A → Type 0
Stays P Q (next a w) = Q a
Stays P Q (leave r w) = P r
Stays P Q crash = ⊥
Stays P Q loops = ⊥

module _ {W R : Type 0} (P : R → Type 0) where
  pub seq :
      {A B : Type 0} (Q : A → Type 0) (Q' : B → Type 0) (m : Flow W R A) (k : A → Body W R B)
      → Stays P Q m
      → ((a : A) (w : W) → Q a → Stays P Q' (k a w))
      → Stays P Q' (and_then m k)
  seq Q Q' (next a w) k h rest = rest a w h
  seq Q Q' (leave r w) k h rest = h
  seq Q Q' crash k h rest = h
  seq Q Q' loops k h rest = h

  pub guard : (b : Bool) (r : R) (w : W) → P r → Stays {W = W} P (λ _. Unit {0}) (return_if b r w)
  guard true r w h = h
  guard false r w h = tt

  pub branch :
      {A : Type 0} (Q : A → Type 0) (b : Bool) (x y : Body W R A) (w : W)
      → Stays P Q (x w)
      → Stays P Q (y w)
      → Stays P Q ((if b then x else y) w)
  branch Q true x y w hx hy = hx
  branch Q false x y w hx hy = hy

  pub outcome-Returns : (m : Flow W R R) → Stays P P m → Returns (λ r _. P r) (outcome m)
  outcome-Returns (next r w) h = h
  outcome-Returns (leave r w) h = h
  outcome-Returns crash h = h
  outcome-Returns loops h = h

-- A call that returns, with what is known of the value and the state.
module _ {W R : Type 0} (P : R → W → Type 0) where
  pub after_call :
      {A : Type 0} (Q : A → W → Type 0) (o : Outcome W A) (k : A → Body W R R)
      → Returns Q o
      → ((a : A) (w : W) → Q a w → Returns P (outcome (k a w)))
      → Returns P (outcome (and_then (returned o) k))
  after_call Q (ret a w) k h rest = rest a w h
  after_call Q fault k h rest = h
  after_call Q diverges k h rest = h

  pub last_call :
      (Q : R → W → Type 0) (o : Outcome W R)
      → Returns Q o
      → ((r : R) (w : W) → Q r w → P r w)
      → Returns P (outcome (returned {R = R} o))
  last_call Q (ret r w) h rest = rest r w h
  last_call Q fault h rest = h
  last_call Q diverges h rest = h
