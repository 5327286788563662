-- ===== src/FileIo/AttemptTests.antt =====
-- The page operations on a disk that refuses writes, and the theorems at it.
use nickdb.Base.{ℕ, ◌≡◌, refl, some, [], ◌∷◌, arith, pos}
use nickdb.Word.{zeros, load64}
use nickdb.Constants.{err_set, status_bad_write}
use nickdb.Posix.{File}
use nickdb.Posix.Ram.{ram_fd}
use nickdb.Posix.Brittle.{Brittle, brittle, brittle_documented}
use nickdb.Proc.{ret, Returns}
use nickdb.FileIo.Pages.{alloc_page, free_page, get_page, put_page}
use nickdb.FileIo.Pages.Attempt.Access.{Put, Got, page_calls_ok}
use nickdb.FileIo.Pages.Attempt.Alloc.{Allocated}
use nickdb.FileIo.Pages.Attempt.Free.{Freed}
use nickdb.FileIo.Pages.Attempt.Serve.{Progress, serve_checked, serve_checked-Progress}
use nickdb.FileIo.Pages.Pool.{take, give, AllAllowed}
use nickdb.FileIo.Pages.Torn.{alloc_page-torn}
use nickdb.FileIo.Pages.View.{IsStore, first}
use nickdb.FileIo.Pages.Written.{Written}
use nickdb.FileIo.Tests.{four_pages, four, four_pages-IsStore, backing, letters, session}

-- The store of four pages on a disk that takes `n` more writes.
abbrev four_left : ℕ → Brittle
four_left n = record { content = some four_pages; writes = n }

page_calls_ok_example :
    Returns
      (Allocated brittle_documented ram_fd letters four_pages four)
      (alloc_page (some letters) (some backing) (four_left 1))
    × Returns
        (Freed brittle_documented ram_fd four_pages 4 (1 ∷ 2 ∷ []) 3)
        (free_page (some backing) (pos 3) (four_left 1))
    × Returns
        (Put brittle_documented ram_fd letters four_pages 3)
        (put_page letters (some backing) (pos 3) (four_left 1))
    × Returns
        (Got brittle_documented ram_fd four_pages 3)
        (get_page zeros (some backing) (pos 3) (four_left 1))
page_calls_ok_example =
    page_calls_ok brittle_documented ram_fd letters zeros (four_left 1) four_pages four 3 refl
      four_pages-IsStore (omega arith) (omega arith, omega arith, refl)

serve_checked-Progress_example :
    Returns
      (Progress brittle_documented ram_fd session four)
      (serve_checked ram_fd session (four_left 5))
unfolding AllAllowed take give
serve_checked-Progress_example =
    serve_checked-Progress brittle_documented ram_fd session (four_left 5) four_pages four refl
      four_pages-IsStore
      ((omega arith, omega arith, refl), (omega arith, (omega arith, (omega arith, tt))))

alloc_page-torn_example :
    (file' : File) × (alloc_page (some letters) (some backing) (four_left 1)
      ≡ ret (status_bad_write, err_set) (record { content = some file'; writes = 0 }))
    × Written four_pages file' 1 letters
    × (IsStore file' 4 (1 ∷ 2 ∷ []) → load64 letters 0 ≡ first (2 ∷ []))
    × (load64 letters 0 ≡ first (2 ∷ []) → IsStore file' 4 (1 ∷ 2 ∷ []))
alloc_page-torn_example = alloc_page-torn four_pages letters 4 1 (2 ∷ []) four_pages-IsStore
