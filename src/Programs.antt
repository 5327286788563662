-- ===== src/Programs.antt =====
-- The test programs src/tests/fileiotest.c and src/tests/pageiotest.c, without what they print. What
-- `calloc` returns is a block of zeros.
pub mod Pass
mod Tests
use nickdb.Base.{
  ℕ, zero, suc, Bool, true, false, not, Option, some, List, [], ◌∷◌, ◌==◌, if◌then◌else◌, ℤ, pos,
  negsuc,
}
use nickdb.Word.{Buffer, zeros}
use nickdb.Constants.{page_size, Status, status_ok, status_bad_remove, status_test_err, status_code}
use nickdb.Posix.{Posix}
use nickdb.Proc.{Proc, pure, ◌>>=◌, ◌>>◌, return_if, run, invoke}
use nickdb.FileIo.{Backing, create_new_backing, open_backing, close_backing, remove_backing}
use nickdb.FileIo.Pages.{alloc_page, get_page}
use nickdb.BufferManager.{is_ok}

abbrev pub new_backing : Option Backing
new_backing = some (record { storefd = pos 0 })

-- "testfilename" and "teststore"
abbrev pub testfilename : List ℕ
testfilename =
    b't' ∷ b'e' ∷ b's' ∷ b't' ∷ b'f' ∷ b'i' ∷ b'l' ∷ b'e' ∷ b'n' ∷ b'a' ∷ b'm' ∷ b'e' ∷ []

abbrev pub teststore : List ℕ
teststore = b't' ∷ b'e' ∷ b's' ∷ b't' ∷ b's' ∷ b't' ∷ b'o' ∷ b'r' ∷ b'e' ∷ []

-- 65 in every byte
abbrev pub first_src : Buffer
first_src _ = 65

-- The loop that compares two pages, from byte `i` on, for the `k` bytes left.
unfoldable pub pages_match : ℕ → ℕ → Buffer → Buffer → Bool
pages_match zero i a b = true
pages_match (suc k) i a b = if a i == b i then pages_match k (suc i) a b else false

module _ {W : Type 0} ⦃os : Posix W⦄ where
  unfoldable pub fileiotest : Proc W Status
  fileiotest = run do
    (created, file) ← invoke (create_new_backing testfilename new_backing)
    return_if (not (is_ok created)) status_test_err
    invoke (close_backing file)
    (opened, reopened) ← invoke (open_backing testfilename new_backing)
    return_if (not (is_ok opened)) status_test_err
    invoke (close_backing reopened)
    removed ← invoke (remove_backing testfilename)
    return_if (not (is_ok removed)) status_bad_remove
    pure status_ok

  unfoldable pub pageiotest : Proc W ℤ
  pageiotest = run do
    (storestatus, file) ← invoke (create_new_backing teststore new_backing)
    return_if (not (is_ok storestatus)) (negsuc 0)
    (first_status, first) ← invoke (alloc_page (some first_src) file)
    return_if (not (is_ok first_status)) (negsuc 0)
    (got, first_dest) ← invoke (get_page zeros file (pos 1))
    return_if (not (status_code got == 0)) (negsuc 0)
    return_if (not (pages_match page_size 0 first_src first_dest)) (negsuc 0)
    invoke (close_backing file)
    removed ← invoke (remove_backing teststore)
    return_if (not (status_code removed == 0)) (negsuc 0)
    pure (pos 0)
