-- ===== src/FileIo/Pages/Attempt/Serve.antt =====
-- A client that stops at the first error, on a disk that may have I/O errors.
use mathlib.Core.List.{map}
use nickdb.Base.{
  ◌≡◌, refl, Bool, true, false, not, Bool-cases, inl, inr, some, List, [], ◌∷◌, ◌++◌, ℤ, pos,
}
use nickdb.Constants.{Status, status_ok}
use nickdb.Posix.{Posix, File, Documented}
use nickdb.Proc.{
  ret, Proc, Body, run, pure, invoke, return_if, ◌>>=◌, ◌>>◌, Returns, outcome, and_then,
}
use nickdb.Proc.Stays.{after_call, last_call}
use nickdb.FileIo.Pages.{alloc_page, free_page}
use nickdb.FileIo.Pages.Attempt.Alloc.{Allocated, alloc_page-Allocated}
use nickdb.FileIo.Pages.Attempt.Free.{Freed, free_page-Freed}
use nickdb.FileIo.Pages.Pool.{
  Pool, take, give, Request, allocate, release, answers, after, AllAllowed,
}
use nickdb.FileIo.Pages.Refine.{IsPool}

abbrev succeeded : Status → Bool
succeeded status_ok = true
succeeded _ = false

-- The client of `serve`, but it stops at the first status other than STATUS_OK, and says whether it
-- has come to the end.
unfoldable pub serve_checked :
    {W : Type 0} ⦃os : Posix W⦄ → ℤ → List Request → Proc W (List ℤ × Bool)
serve_checked fd [] = ret ([], true)
serve_checked fd (allocate content ∷ rs) = run do
  (code, index) ← invoke (alloc_page (some content) (some (record { storefd = fd })))
  return_if (not (succeeded code)) ([], false)
  (later, ended) ← invoke (serve_checked fd rs)
  pure (index ∷ later, ended)
serve_checked fd (release p ∷ rs) = run do
  code ← invoke (free_page (some (record { storefd = fd })) (pos p))
  return_if (not (succeeded code)) ([], false)
  invoke (serve_checked fd rs)

succeeded_ok : (s : Status) → not (succeeded s) ≡ false → s ≡ status_ok
succeeded_ok status_ok e = refl
succeeded_ok _ e = cc

-- The return of an error, and what comes after STATUS_OK.
module _ {W R : Type 0} (P : R → W → Type 0) where
  unless_failed :
      (code : Status) (failed : R) (w : W) (k : Unit {0} → Body W R R)
      → P failed w
      → (code ≡ status_ok → Returns P (outcome (k tt w)))
      → Returns P (outcome (and_then (return_if (not (succeeded code)) failed w) k))
  unless_failed code failed w k h rest = elim (Bool-cases (not (succeeded code))) [
    | inl bad ↦ rw bad h
    | inr good ↦ rw good (rest (succeeded_ok code good))
  ]

module _ {W : Type 0} ⦃os : Posix W⦄ (doc : Documented os) (fd : ℤ) where
  -- The numbers are those of the pool up to where the client stops; at the end the file is the pool.
  abbrev pub Progress : List Request → Pool → List ℤ × Bool → W → Type 0
  Progress rs s (out, ended) w =
      ((rest : List ℤ) × (map pos (answers rs s) ≡ out ++ rest))
      × (ended ≡ true
          → (out ≡ map pos (answers rs s))
            × ((f' : File) × (doc.file fd w ≡ some f') × IsPool f' (after rs s)))

  -- On a documented disk that may have I/O errors, a client that makes a sequence of allowed requests
  -- (allocations with data while the store is below 2^51 pages, releases of pages in use) and stops
  -- at the first status other than STATUS_OK ends without undefined behaviour. The page numbers that
  -- it is given are the first of those that the pool gives; if it does not stop early, they are all
  -- of them, and the file ends as a store for the pool at the end.
  pub serve_checked-Progress :
      (rs : List Request) (w : W) (f : File) (s : Pool)
      → doc.file fd w ≡ some f
      → IsPool f s
      → AllAllowed rs s
      → Returns (Progress rs s) (serve_checked fd rs w)
  unfolding serve_checked answers after AllAllowed give
  serve_checked-Progress [] w f s opened st allowed = (([], refl), λ e. (refl, (f, opened, st)))
  serve_checked-Progress (allocate content ∷ rs) w f s opened st (room, allowed) =
      let P = Progress (allocate content ∷ rs) s in
      after_call P (Allocated doc fd content f s)
        (alloc_page (some content) (some (record { storefd = fd })) w) _
        (alloc_page-Allocated doc fd content w f s.pages s.free opened st room)
        λ r w1 promise.
          unless_failed P r.0 ([], false) w1 _ ((_, refl), λ e. cc)
            λ good.
              let (index, (f1, o1, st1, _, _)) = promise good in
              after_call P (Progress rs (take s).1) (serve_checked fd rs w1) _
                (serve_checked-Progress rs w1 f1 (take s).1 o1 st1 allowed)
                λ r2 w2 h. ((h.0.0, cc (index, h.0.1)), λ e. (cc (index, (h.1 e).0), (h.1 e).1))
  serve_checked-Progress (release p ∷ rs) w f s opened st ((h, lt, out), allowed) =
      let P = Progress (release p ∷ rs) s in
      after_call P (Freed doc fd f s.pages s.free p)
        (free_page (some (record { storefd = fd })) (pos p) w) _
        (free_page-Freed doc fd w f s.pages p s.free opened st h lt out)
        λ code w1 promise.
          unless_failed P code ([], false) w1 _ ((_, refl), λ e. cc)
            λ good.
              let (f1, o1, st1, _) = promise good in
              last_call P (Progress rs (give p s)) (serve_checked fd rs w1)
                (serve_checked-Progress rs w1 f1 (give p s) o1 st1 allowed) λ r w2 h. h
