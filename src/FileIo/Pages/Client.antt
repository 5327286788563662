-- ===== src/FileIo/Pages/Client.antt =====
-- Any sequence of requests to alloc_page and free_page against the pool that they implement.
use mathlib.Core.List.{map}
use nickdb.Base.{◌≡◌, refl, some, List, [], ◌∷◌, ℤ, pos}
use nickdb.Posix.{Posix, File, Documented, Reliable}
use nickdb.Proc.{ret, Proc, run, pure, invoke, ◌>>=◌}
use nickdb.FileIo.Pages.{alloc_page, free_page}
use nickdb.FileIo.Pages.Run.{Yields}
use nickdb.FileIo.Pages.Pool.{
  Pool, take, give, Request, allocate, release, answers, after, AllAllowed,
}
use nickdb.FileIo.Pages.Refine.{IsPool, alloc_page-take, free_page-give}

-- A client of the store: it asks for pages with data and releases pages, and collects the numbers
-- that alloc_page stores.
unfoldable pub serve : {W : Type 0} ⦃os : Posix W⦄ → ℤ → List Request → Proc W (List ℤ)
serve fd [] = ret []
serve fd (allocate content ∷ rs) = run do
  (status, index) ← invoke (alloc_page (some content) (some (record { storefd = fd })))
  later ← invoke (serve fd rs)
  pure (index ∷ later)
serve fd (release p ∷ rs) =
    run
      do status ← invoke (free_page (some (record { storefd = fd })) (pos p)); invoke (serve fd rs)

module _ {W : Type 0} ⦃os : Posix W⦄ (doc : Documented os) (rel : Reliable os doc) (fd : ℤ) where
  -- On a disk without I/O errors, a client that makes a sequence of allowed requests
  -- (allocations with data while the store is below 2^51 pages, releases of pages in use) is
  -- given the page numbers that the pool gives, and the file ends as a store for the pool at
  -- the end.
  pub serve-answers :
      (rs : List Request) (w : W) (f : File) (s : Pool)
      → doc.file fd w ≡ some f
      → IsPool f s
      → AllAllowed rs s
      → Yields doc fd (serve fd rs w) (map pos (answers rs s)) (λ f'. IsPool f' (after rs s))
  unfolding serve answers after AllAllowed
  serve-answers [] w f s opened st allowed = (w, f, refl, opened, st)
  serve-answers (allocate content ∷ rs) w f s opened st (room, allowed) =
      let (w1, f1, e1, o1, (st1, live, wr)) =
        alloc_page-take doc rel fd content w f s opened st room in
      let (w2, f2, e2, o2, st2) = serve-answers rs w1 f1 (take s).1 o1 st1 allowed in
      (w2, f2, rw (e1, e2), o2, st2)
  serve-answers (release p ∷ rs) w f s opened st (live, allowed) =
      let (w1, f1, e1, o1, (st1, kept)) = free_page-give doc rel fd w f s p opened st live in
      let (w2, f2, e2, o2, st2) = serve-answers rs w1 f1 (give p s) o1 st1 allowed in
      (w2, f2, rw (e1, e2), o2, st2)
