-- ===== src/Base/Count.antt =====
-- Membership in a list of numbers, and how long a list without repetitions is.
use Prim.Native.Nat.{ℕ, zero, suc, ◌≤◌, ◌<◌}
use mathlib.Core.Path.{◌≡◌, refl, sym, subst}
use mathlib.Core.Logic.{inl, inr}
use mathlib.Core.Bool.{Bool, false, ◌||◌}
use mathlib.Core.List.{List, [], ◌∷◌}
use native.Mathlib.Omega.{arith}
use nickdb.Base.Tests.{◌==◌, if◌then◌else◌, Bool-cases}

abbrev pub length {ℓ} : {A : Type ℓ} → List A → ℕ
length [] = 0
length (x ∷ xs) = suc (length xs)

abbrev pub has : ℕ → List ℕ → Bool
has p [] = false
has p (q ∷ qs) = p == q || has p qs

abbrev pub IsBelow : ℕ → List ℕ → Type 0
IsBelow n [] = Unit
IsBelow n (x ∷ xs) = (x < n) × IsBelow n xs

abbrev pub IsDistinct : List ℕ → Type 0
IsDistinct [] = Unit
IsDistinct (x ∷ xs) = (has x xs ≡ false) × IsDistinct xs

remove : ℕ → List ℕ → List ℕ
remove n [] = []
remove n (x ∷ xs) = let rest = remove n xs in if n == x then rest else x ∷ rest

has-remove : (m n : ℕ) (xs : List ℕ) → has m xs ≡ false → has m (remove n xs) ≡ false
unfolding remove
has-remove m n [] h = refl
has-remove m n (x ∷ xs) h = ground (arith, has-remove m n xs)

remove_absent : (n : ℕ) (xs : List ℕ) → has n xs ≡ false → remove n xs ≡ xs
unfolding remove
remove_absent n [] h = refl
remove_absent n (x ∷ xs) h = ground (arith, remove_absent n xs)

remove-IsDistinct : (n : ℕ) (xs : List ℕ) → IsDistinct xs → IsDistinct (remove n xs)
unfolding remove
remove-IsDistinct n [] h = tt
remove-IsDistinct n (x ∷ xs) (out, h) = elim (Bool-cases (n == x)) [
  | inl e ↦ rw e (remove-IsDistinct n xs h)
  | inr e ↦ rw e (has-remove x n xs out, remove-IsDistinct n xs h)
]

remove-IsBelow : (n : ℕ) (xs : List ℕ) → IsBelow (suc n) xs → IsBelow n (remove n xs)
unfolding remove
remove-IsBelow n [] h = tt
remove-IsBelow n (x ∷ xs) (lt, h) = elim (Bool-cases (n == x)) [
  | inl e ↦ rw e (remove-IsBelow n xs h)
  | inr e ↦ rw e (ground arith, remove-IsBelow n xs h)
]

length-remove : (n : ℕ) (xs : List ℕ) → IsDistinct xs → length xs ≤ suc (length (remove n xs))
unfolding remove
length-remove n [] h = omega arith
length-remove n (x ∷ xs) (out, h) = elim (Bool-cases (n == x)) [
  | inl e ↦
      let same : n ≡ x = ground arith in
      let kept = remove_absent n xs (subst (λ m. has m xs ≡ false) (sym same) out) in
      rw (e, kept) (omega arith)
  | inr e ↦ rw e (omega (arith, length-remove n xs h))
]

-- A list of distinct numbers below `n` has at most `n` elements.
pub length_bound : (n : ℕ) (xs : List ℕ) → IsDistinct xs → IsBelow n xs → length xs ≤ n
length_bound zero [] d b = omega arith
length_bound zero (x ∷ xs) d (lt, b) = omega (arith, lt)
length_bound (suc n) xs d b = omega (
  arith,
  length-remove n xs d,
  length_bound n (remove n xs) (remove-IsDistinct n xs d) (remove-IsBelow n xs b),
)
