-- ===== src/BTree/Keys.antt =====
-- src/lib/datastructures/btree.c: the size of a key.
use nickdb.Base.{
  ℕ, suc, ◌+◌, ◌≡◌, refl, ap, false, Option, none, some, List, [], ◌∷◌, ◌++◌, ◌==◌, if◌then◌else◌,
  arith, has, length, Bool-cases, inl, inr, ℤ, pos,
}
use nickdb.Constants.{err_set}

-- The loop over the bytes that are left of the object to which the key points, with `length` so far.
-- Behind the object it is undefined, `none`.
key_size_loop : List ℕ → ℕ → Option ℕ
key_size_loop [] length = none
key_size_loop (b ∷ bytes) length = if b == 0 then some length else key_size_loop bytes (length + 1)

abbrev as_pos : Option ℕ → Option ℤ
as_pos none = none
as_pos (some n) = some (pos n)

-- A key that is not NULL is given by the bytes from the pointer to the end of the object.
unfoldable pub btree_get_key_sep_size : Option (List ℕ) → Option ℤ
unfolding key_size_loop
btree_get_key_sep_size none = some err_set
btree_get_key_sep_size (some bytes) = as_pos (key_size_loop bytes 0)

-- The bytes begin with a text of `n` bytes that are not NUL, and a NUL.
abbrev pub IsText : List ℕ → ℕ → Type 0
IsText bytes n =
    (text rest : List ℕ) × (bytes ≡ text ++ 0 ∷ rest) × (length text ≡ n) × (has 0 text ≡ false)

key_size_loop-text :
    (text rest : List ℕ) (n : ℕ)
    → has 0 text ≡ false
    → key_size_loop (text ++ 0 ∷ rest) n ≡ some (n + length text)
unfolding key_size_loop
key_size_loop-text [] rest n h = ground arith
key_size_loop-text (b ∷ text) rest n h = ground (arith, key_size_loop-text text rest (n + 1))

key_size_loop-IsText :
    (bytes : List ℕ) (n m : ℕ)
    → key_size_loop bytes n ≡ some m
    → (k : ℕ) × (m ≡ n + k) × IsText bytes k
unfolding key_size_loop
key_size_loop-IsText [] n m h = cc
key_size_loop-IsText (b ∷ bytes) n m h = elim (Bool-cases (b == 0)) [
  | inl e ↦ (
    0,
    ground arith,
    ([], bytes, (let null : b ≡ 0 = ground arith in ap (λ c. c ∷ bytes) null), refl, refl),
  )
  | inr e ↦
      let (k, sum, (text, rest, split, size, out)) =
        key_size_loop-IsText bytes (n + 1) m (rw e at h) in
      (
        suc k,
        omega (arith, sum),
        (b ∷ text, rest, ap (λ l. b ∷ l) split, omega (arith, size), ground (arith, out)),
      )
]

key_size_loop-none :
    (bytes : List ℕ) (n : ℕ)
    → (key_size_loop bytes n ≡ none → has 0 bytes ≡ false)
      × (has 0 bytes ≡ false → key_size_loop bytes n ≡ none)
unfolding key_size_loop
key_size_loop-none [] n = (λ h. refl, λ h. refl)
key_size_loop-none (b ∷ bytes) n =
    let (there, back) = key_size_loop-none bytes (n + 1) in (λ h. ground arith, λ h. ground arith)

as_pos-some : (o : Option ℕ) (n : ℕ) → as_pos o ≡ some (pos n) → o ≡ some n
as_pos-some none n h = cc
as_pos-some (some m) n h = cc

as_pos-none : (o : Option ℕ) → as_pos o ≡ none → o ≡ none
as_pos-none none h = refl
as_pos-none (some m) h = cc

-- btree_get_key_sep_size of a pointer that is not NULL returns n exactly when the object begins with
-- n bytes other than NUL and a NUL, and it reads past the object exactly when it has no NUL.
pub btree_get_key_sep_size-IsText :
    (bytes : List ℕ) (n : ℕ)
    → (btree_get_key_sep_size (some bytes) ≡ some (pos n) → IsText bytes n)
      × (IsText bytes n → btree_get_key_sep_size (some bytes) ≡ some (pos n))
      × (btree_get_key_sep_size (some bytes) ≡ none → has 0 bytes ≡ false)
      × (has 0 bytes ≡ false → btree_get_key_sep_size (some bytes) ≡ none)
unfolding btree_get_key_sep_size
btree_get_key_sep_size-IsText bytes n = (
  λ h.
      let (k, sum, (text, rest, split, size, out)) =
        key_size_loop-IsText bytes 0 n (as_pos-some (key_size_loop bytes 0) n h) in
      (text, rest, split, omega (arith, size, sum), out),
  λ (text, rest, split, size, out).
      let found = key_size_loop-text text rest 0 out in
      let size0 : 0 + length text ≡ n = omega (arith, size) in rw (split, found, size0),
  λ h. (key_size_loop-none bytes 0).0 (as_pos-none (key_size_loop bytes 0) h),
  λ out. rw ((key_size_loop-none bytes 0).1 out),
)
