-- ===== src/FileIo/Pages/Fifo.antt =====
-- When a page that is free is handed out again.
use mathlib.Core.List.{map}
use nickdb.Base.{
  ℕ, zero, suc, ◌<◌, ◌≡◌, refl, sym, ap, subst, Option, none, some, List, [], ◌∷◌, ◌++◌, length,
  arith, ℤ, pos,
}
use nickdb.Posix.{Posix, File, Documented, Reliable}
use nickdb.Proc.{ret}
use nickdb.FileIo.Pages.Client.{serve, serve-answers}
use nickdb.FileIo.Pages.Pool.{Pool, take, give, Request, allocate, release, answers, AllAllowed}
use nickdb.FileIo.Pages.Refine.{IsPool}

-- The number of allocations among the requests.
abbrev pub allocations : List Request → ℕ
allocations [] = 0
allocations (allocate content ∷ rs) = suc (allocations rs)
allocations (release p ∷ rs) = allocations rs

-- The element with the index `k`, the first one being 0.
abbrev pub nth {ℓ} : {A : Type ℓ} → ℕ → List A → Option A
nth k [] = none
nth zero (x ∷ xs) = some x
nth (suc k) (x ∷ xs) = nth k xs

append_assoc {ℓ} : {A : Type ℓ} (xs ys zs : List A) → xs ++ ys ++ zs ≡ xs ++ (ys ++ zs)
append_assoc [] ys zs = refl
append_assoc (x ∷ xs) ys zs = ap (λ l. x ∷ l) (append_assoc xs ys zs)

-- The page p is handed out by the allocation behind those that take the pages before it.
answers-nth :
    (rs : List Request) (n : ℕ) (before rest : List ℕ) (p : ℕ)
    → length before < allocations rs
    → nth (length before) (map pos (answers rs (record { pages = n; free = before ++ p ∷ rest })))
      ≡ some (pos p)
unfolding answers take give
answers-nth [] n before rest p h = ground arith
answers-nth (allocate content ∷ rs) n [] rest p h = refl
answers-nth (allocate content ∷ rs) n (q ∷ before) rest p h =
    answers-nth rs n before rest p (omega (arith, h))
answers-nth (release q ∷ rs) n before rest p h =
    subst
      (λ l.
        nth (length before) (map pos (answers rs (record { pages = n; free = l }))) ≡ some (pos p))
      (sym (append_assoc before (p ∷ rest) (q ∷ []))) (answers-nth rs n before (rest ++ q ∷ []) p h)

module _ {W : Type 0} ⦃os : Posix W⦄ (doc : Documented os) (rel : Reliable os doc) (fd : ℤ) where
  -- On a disk without I/O errors, a free page with k free pages before it is handed out by the
  -- allocation with the index k, counted from 0, in every sequence of allowed requests that has so
  -- many, whatever pages are released in between.
  pub serve-nth :
      (rs : List Request) (w : W) (f : File) (n : ℕ) (before rest : List ℕ) (p : ℕ)
      → doc.file fd w ≡ some f
      → IsPool f (record { pages = n; free = before ++ p ∷ rest })
      → AllAllowed rs (record { pages = n; free = before ++ p ∷ rest })
      → length before < allocations rs
      → (out : List ℤ) × (w' : W) × (serve fd rs w ≡ ret out w')
        × (nth (length before) out ≡ some (pos p))
  serve-nth rs w f n before rest p opened st allowed enough =
      let s : Pool = record { pages = n; free = before ++ p ∷ rest } in
      let (w1, f1, run, o1, st1) = serve-answers doc rel fd rs w f s opened st allowed in
      (map pos (answers rs s), w1, run, answers-nth rs n before rest p enough)
