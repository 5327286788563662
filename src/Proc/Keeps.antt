-- ===== src/Proc/Keeps.antt =====
-- What every run keeps that ends: a rule for each way in which a body is put together.
use nickdb.Base.{Bool, true, false, Option, none, some, if◌then◌else◌, ◌≡◌, subst}
use nickdb.Proc.{
  Outcome, ret, fault, diverges, Flow, next, leave, crash, loops, Body, and_then, return_if,
  require, deref, outcome, returned,
}

-- If the run ends, the state that it leaves is in `I`.
abbrev pub Keeps : {W A : Type 0} → (W → Type 0) → Outcome W A → Type 0
Keeps I (ret a w) = I w
Keeps I fault = Unit
Keeps I diverges = Unit

abbrev pub Leaves : {W R A : Type 0} → (W → Type 0) → Flow W R A → Type 0
Leaves I (next a w) = I w
Leaves I (leave r w) = I w
Leaves I crash = Unit
Leaves I loops = Unit

pub Keeps-ret :
    {W A : Type 0} (I : W → Type 0) (o : Outcome W A) {a : A} {w : W}
    → Keeps I o
    → o ≡ ret a w
    → I w
Keeps-ret I (ret b v) h e = subst (Keeps I) e h
Keeps-ret I fault h e = cc
Keeps-ret I diverges h e = cc

module _ {W R : Type 0} (I : W → Type 0) where
  pub seq :
      {A B : Type 0} (m : Flow W R A) (k : A → Body W R B)
      → Leaves I m
      → ((a : A) (w : W) → I w → Leaves I (k a w))
      → Leaves I (and_then m k)
  seq (next a w) k h rest = rest a w h
  seq (leave r w) k h rest = h
  seq crash k h rest = tt
  seq loops k h rest = tt

  pub guard : (b : Bool) (r : R) (w : W) → I w → Leaves I (return_if b r w)
  guard true r w h = h
  guard false r w h = h

  pub branch :
      {A : Type 0} (b : Bool) (x y : Body W R A) (w : W)
      → Leaves I (x w)
      → Leaves I (y w)
      → Leaves I ((if b then x else y) w)
  branch true x y w hx hy = hx
  branch false x y w hx hy = hy

  pub outcome-Keeps : (m : Flow W R R) → Leaves I m → Keeps I (outcome m)
  outcome-Keeps (next r w) h = h
  outcome-Keeps (leave r w) h = h
  outcome-Keeps crash h = tt
  outcome-Keeps loops h = tt

module _ {W : Type 0} (I : W → Type 0) where
  pub required :
      (R : Type 0) (b : Bool) (w : W) → I w → Leaves {A = Unit {0}} I (require {R = R} b w)
  required R true w h = h
  required R false w h = tt

  pub dereferenced :
      (R : Type 0) {A : Type 0} (o : Option A) (w : W) → I w → Leaves I (deref {R = R} o w)
  dereferenced R none w h = tt
  dereferenced R (some a) w h = h

  pub called :
      (R : Type 0) {A : Type 0} (o : Outcome W A) → Keeps I o → Leaves I (returned {R = R} o)
  called R (ret a w) h = h
  called R fault h = tt
  called R diverges h = tt

  pub either :
      {A : Type 0} (b : Bool) (x y : W → Outcome W A) (w : W)
      → Keeps I (x w)
      → Keeps I (y w)
      → Keeps I ((if b then x else y) w)
  either true x y w hx hy = hx
  either false x y w hx hy = hy

-- The same with the rest of the body.
module _ {W R B : Type 0} (I : W → Type 0) where
  pub guarded :
      (b : Bool) (r : R) (w : W) (k : Unit {0} → Body W R B)
      → I w
      → ((v : W) → I v → Leaves I (k tt v))
      → Leaves I (and_then (return_if b r w) k)
  guarded true r w k h rest = h
  guarded false r w k h rest = rest w h

  pub requires :
      (b : Bool) (w : W) (k : Unit {0} → Body W R B)
      → I w
      → ((v : W) → I v → Leaves I (k tt v))
      → Leaves I (and_then (require b w) k)
  requires true w k h rest = rest w h
  requires false w k h rest = tt

  pub derefs :
      {A : Type 0} (o : Option A) (w : W) (k : A → Body W R B)
      → I w
      → ((a : A) (v : W) → I v → Leaves I (k a v))
      → Leaves I (and_then (deref o w) k)
  derefs none w k h rest = tt
  derefs (some a) w k h rest = rest a w h

  pub calls :
      {A : Type 0} (o : Outcome W A) (k : A → Body W R B)
      → Keeps I o
      → ((a : A) (v : W) → I v → Leaves I (k a v))
      → Leaves I (and_then (returned {R = R} o) k)
  calls (ret a w) k h rest = rest a w h
  calls fault k h rest = tt
  calls diverges k h rest = tt
