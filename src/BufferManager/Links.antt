-- ===== src/BufferManager/Links.antt =====
-- The lists that are threaded through `metaframes`: the free list and the write-back list.
use nickdb.Base.{
  ℕ, suc, true, arith, refl, ◌<◌, ◌≤◌, length, has, IsBelow, IsDistinct, length_bound, Bool-cases,
  inl, inr, ◌==◌, ◌≡◌, ◌∙◌, ◌≢◌, sym, ap, subst, some, List, [], ◌∷◌,
}
use nickdb.Constants.{FrameState}
use nickdb.BufferManager.{Manager, slot}
use nickdb.BufferManager.Address.{slot_same, slot-some}
use nickdb.BufferManager.Lists.{Listed}

-- From the pointer `p` the elements `xs` are linked, and the last one leads to NULL.
abbrev pub Links : {T : Type 0} → Manager T → ℕ → List ℕ → Type 0
Links man p [] = p ≡ 0
Links man p (i ∷ xs) =
    (p ≢ 0) × (slot man p ≡ some i) × Links man (man.metaframes i).next_free_or_dirty xs

-- A pointer to an element that leads to itself begins no list.
pub self-not-Links :
    {T : Type 0} (man : Manager T) (p i : ℕ) (xs : List ℕ)
    → slot man p ≡ some i
    → p ≢ 0
    → (man.metaframes i).next_free_or_dirty ≡ p
    → ¬ Links man p xs
self-not-Links man p i [] at ne self h = ne h
self-not-Links man p i (j ∷ xs) at ne self (_, at', rest) =
    let same : j ≡ i = cc (sym at' ∙ at) in
    self-not-Links man p i xs at ne self (
      subst (λ q. Links man q xs) (ap (λ l. (man.metaframes l).next_free_or_dirty) same ∙ self)
        rest)

pub Listed-Links :
    {T : Type 0} (man : Manager T) (s : FrameState) (p : ℕ) (xs : List ℕ)
    → Listed man s p xs
    → Links man p xs
Listed-Links man s p [] h = h
Listed-Links man s p (i ∷ xs) (real, at, state, rest) =
    (real, at, Listed-Links man s (man.metaframes i).next_free_or_dirty xs rest)

-- Managers whose elements have the same links.
pub Links-same :
    {T : Type 0} (man man' : Manager T) (p : ℕ) (xs : List ℕ)
    → man'.metaframes_at ≡ man.metaframes_at
    → man'.frames ≡ man.frames
    → ((l : ℕ) → (man'.metaframes l).next_free_or_dirty ≡ (man.metaframes l).next_free_or_dirty)
    → Links man p xs
    → Links man' p xs
Links-same man man' p [] metas frames same h = h
Links-same man man' p (i ∷ xs) metas frames same (real, at, rest) = (
  real,
  slot_same man man' p metas frames ∙ at,
  subst (λ q. Links man' q xs) (sym (same i))
      (Links-same man man' (man.metaframes i).next_free_or_dirty xs metas frames same rest),
)

module _ {T : Type 0} (man : Manager T) where
  Links-IsBelow : (p : ℕ) (xs : List ℕ) → Links man p xs → IsBelow man.frames xs
  Links-IsBelow p [] h = tt
  Links-IsBelow p (i ∷ xs) (real, at, rest) =
      ((slot-some man p i at).2, Links-IsBelow (man.metaframes i).next_free_or_dirty xs rest)

  -- Lists from one pointer have one length.
  Links-length : (p : ℕ) (xs ys : List ℕ) → Links man p xs → Links man p ys → length xs ≡ length ys
  Links-length p [] [] h k = refl
  Links-length p [] (j ∷ ys) h (real, _, _) = elim (real h) [ ]
  Links-length p (i ∷ xs) [] (real, _, _) k = elim (real k) [ ]
  Links-length p (i ∷ xs) (j ∷ ys) (_, at, rest) (_, at', rest') =
      let same : j ≡ i = cc (sym at' ∙ at) in
      ap (λ n. suc n)
        (Links-length (man.metaframes i).next_free_or_dirty xs ys rest
          (subst (λ l. Links man (man.metaframes l).next_free_or_dirty ys) same rest'))

  -- An element that comes later begins a list that is shorter.
  Links-later :
      (p i : ℕ) (xs : List ℕ)
      → Links man p xs
      → has i xs ≡ true
      → (ys : List ℕ) × (length ys < length xs) × Links man (man.metaframes i).next_free_or_dirty ys
  Links-later p i [] h mem = cc
  Links-later p i (j ∷ xs) (_, _, rest) mem = elim (Bool-cases (i == j)) [
    | inl e ↦
        let same : j ≡ i = ground arith in
        (xs, omega arith, subst (λ l. Links man (man.metaframes l).next_free_or_dirty xs) same rest)
    | inr e ↦
        let (ys, shorter, h) =
          Links-later (man.metaframes j).next_free_or_dirty i xs rest (ground arith) in
        (ys, omega (arith, shorter), h)
  ]

  Links-IsDistinct : (p : ℕ) (xs : List ℕ) → Links man p xs → IsDistinct xs
  Links-IsDistinct p [] h = tt
  Links-IsDistinct p (i ∷ xs) (_, _, rest) = (
    elim (Bool-cases (has i xs)) [
      | inl mem ↦
          let (ys, shorter, h) = Links-later (man.metaframes i).next_free_or_dirty i xs rest mem in
          let same = Links-length (man.metaframes i).next_free_or_dirty xs ys rest h in
          ground (arith, same, shorter)
      | inr out ↦ out
    ],
    Links-IsDistinct (man.metaframes i).next_free_or_dirty xs rest,
  )

  -- No more elements are linked than there are.
  pub Links-length_bound : (p : ℕ) (xs : List ℕ) → Links man p xs → length xs ≤ man.frames
  Links-length_bound p xs h =
      length_bound man.frames xs (Links-IsDistinct p xs h) (Links-IsBelow p xs h)
