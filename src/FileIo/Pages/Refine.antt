-- ===== src/FileIo/Pages/Refine.antt =====
-- One call of alloc_page or free_page beside a step of the pool of pages that they stand for.
use nickdb.Base.{ℕ, suc, ◌^◌, ◌<◌, ◌≡◌, refl, some, List, [], ◌∷◌, arith, ℤ, pos}
use nickdb.Word.{Buffer}
use nickdb.Constants.{status_ok}
use nickdb.Posix.{Posix, File, Documented, Reliable}
use nickdb.FileIo.Pages.{alloc_page, free_page}
use nickdb.FileIo.Pages.Run.{Yields}
use nickdb.FileIo.Pages.View.{IsStore}
use nickdb.FileIo.Pages.Written.{Written}
use nickdb.FileIo.Pages.Alloc.{alloc_page-free}
use nickdb.FileIo.Pages.Grow.{alloc_page-grow}
use nickdb.FileIo.Pages.Free.{Kept, free_page-append}
use nickdb.FileIo.Pages.Pool.{Pool, take, give, IsLive}

abbrev pub IsPool : File → Pool → Type 0
IsPool f s = IsStore f s.pages s.free

module _ {W : Type 0} ⦃os : Posix W⦄ (doc : Documented os) (rel : Reliable os doc) (fd : ℤ) where
  alloc_from :
      (content : Buffer) (w : W) (f : File) (n : ℕ) (free : List ℕ)
      → doc.file fd w ≡ some f
      → IsStore f n free
      → suc n < 2 ^ 51
      → let s : Pool = record { pages = n; free = free } in
        Yields doc fd
          (alloc_page (some content) (some (record { storefd = fd })) w)
          (status_ok, pos (take s).0)
          (λ f'.
            IsPool f' (take s).1 × IsLive (take s).1 (take s).0 × Written f f' (take s).0 content)
  unfolding take
  alloc_from content w f n [] opened st room =
      let (w', f', e, o, (st', wr)) = alloc_page-grow doc rel fd content w f n opened st room in
      (w', f', e, o, (st', (st.some_page, omega arith, refl), wr))
  alloc_from content w f n (p ∷ free) opened st room =
      let (w', f', e, o, (st', wr)) = alloc_page-free doc rel fd content w f n p free opened st in
      (w', f', e, o, (st', (st.distinct.0, st.distinct.1, st.distinct.2), wr))

  -- On a disk without I/O errors, and with room for one more page below 2^51, alloc_page with
  -- data returns STATUS_OK and the page that the pool hands out: the one that has been free for
  -- longest, or else a new one. The file then stands for the pool without it, the page is in
  -- use and holds the data, and every other page but the metadata page is as it was.
  pub alloc_page-take :
      (content : Buffer) (w : W) (f : File) (s : Pool)
      → doc.file fd w ≡ some f
      → IsPool f s
      → suc s.pages < 2 ^ 51
      → Yields doc fd
          (alloc_page (some content) (some (record { storefd = fd })) w)
          (status_ok, pos (take s).0)
          (λ f'.
            IsPool f' (take s).1 × IsLive (take s).1 (take s).0 × Written f f' (take s).0 content)
  alloc_page-take content w f s opened st room =
      alloc_from content w f s.pages s.free opened st room

  -- On a disk without I/O errors, free_page of a page in use returns STATUS_OK. The file then
  -- stands for the pool with the page behind the last free one, and every other page in use is
  -- as it was.
  pub free_page-give :
      (w : W) (f : File) (s : Pool) (p : ℕ)
      → doc.file fd w ≡ some f
      → IsPool f s
      → IsLive s p
      → Yields doc fd
          (free_page (some (record { storefd = fd })) (pos p) w)
          status_ok
          (λ f'. IsPool f' (give p s) × Kept f f' p s.free)
  unfolding give
  free_page-give w f s p opened st (h, lt, out) =
      free_page-append doc rel fd w f s.pages p s.free opened st h lt out
