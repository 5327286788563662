-- ===== src/FileIo.antt =====
-- src/lib/fileio.c and src/lib/fileio.h: the backing store, its pages and the list of free pages.
-- A pointer that may be NULL is an `Option`, and an output parameter is returned beside the status.
pub mod Create
pub mod Life
pub mod Offset
pub mod Pages
pub mod Reopen
pub mod Tests
pub mod StoreTests
pub mod AttemptTests
use nickdb.Base.{
  ℕ, ◌+◌, true, not, Option, none, some, List, [], ◌∷◌, ◌++◌, ℤ, pos, negsuc, ◌==ℤ◌, scale,
  quotient, if◌then◌else◌,
}
use nickdb.Word.{Buffer, zeros, wrap64, store64}
use nickdb.Constants.{
  page_size, store_ext, Status, status_ok, status_err, status_bad_file, status_bad_open,
  status_bad_close, status_bad_remove, status_bad_write,
}
use nickdb.Posix.{Posix, create_truncate, read_write}
use nickdb.Proc.{Proc, Body, ret, fault, pure, ◌>>=◌, ◌>>◌, return_if, sys, run, invoke}

-- struct backing
pub record Backing : Type 0 where
  pub storefd : ℤ

-- struct freepage is one 64-bit word; struct meta_page has three, at these offsets.
abbrev pub sizeof_freepage : ℕ
sizeof_freepage = 8

abbrev pub size_field : ℕ
size_field = 0

abbrev pub head_field : ℕ
head_field = 8

abbrev pub tail_field : ℕ
tail_field = 16

-- The name of the file: the name of the store, the extension and a NUL byte.
unfoldable pub store_filename : List ℕ → List ℕ
store_filename filename = filename ++ store_ext ++ 0 ∷ []

unfoldable pub index_to_offset : ℤ → ℤ
index_to_offset index = wrap64 (scale index page_size)

unfoldable pub offset_to_index : ℤ → ℤ
offset_to_index offset = if offset ==ℤ pos 0 then pos 0 else quotient offset page_size

-- The metadata page of a new store: one page, and no free one.
abbrev pub first_metadata : Buffer
first_metadata =
    store64 (store64 (store64 zeros size_field (pos 1)) head_field (negsuc 0)) tail_field (negsuc 0)

module _ {W : Type 0} ⦃os : Posix W⦄ where
  unfoldable pub close_backing : Option Backing → Proc W Status
  close_backing none = ret status_err
  close_backing (some store) = run do
    closed ← sys (os.close store.storefd)
    pure (if closed ==ℤ pos 0 then status_ok else status_bad_close)

  -- `pread` of `n` bytes into `dest`, and the return when they are not all there.
  unfoldable pub read_or_return : {R : Type 0} → ℤ → Buffer → ℕ → ℤ → R → Body W R Buffer
  read_or_return fd dest n off failed = do
    (read, filled) ← sys (λ w. let (r, d, w') = os.pread fd dest n off w in ((r, d), w'))
    return_if (not (read ==ℤ pos n)) failed
    pure filled

  -- `pwrite` of `n` bytes of `src`, and the return when they are not all written.
  unfoldable pub write_or_return : {R : Type 0} → ℤ → Buffer → ℕ → ℤ → R → Body W R (Unit {0})
  write_or_return fd src n off failed = do
    written ← sys (os.pwrite fd src n off)
    return_if (not (written ==ℤ pos n)) failed

  -- `close_backing(store)`, whose status is ignored, and the return of the error.
  abbrev pub close_and : Backing → Status → Body W (Status × Option Backing) (Unit {0})
  close_and store failed = do
    invoke (close_backing (some store))
    return_if true (failed, some store)

  unfoldable pub create_new_backing : List ℕ → Option Backing → Proc W (Status × Option Backing)
  unfolding close_backing store_filename index_to_offset
  create_new_backing filename none = λ w. fault
  create_new_backing filename (some store) = run do
    fd ← sys (os.open_file (store_filename filename) create_truncate)
    let opened : Backing = record { storefd = fd }
    if fd ==ℤ negsuc 0 then close_and opened status_bad_file else pure tt
    written ← sys (os.pwrite fd first_metadata page_size (index_to_offset (pos 0)))
    if not (written ==ℤ pos page_size) then close_and opened status_bad_write else pure tt
    pure (status_ok, some opened)

  -- A NULL `store` is written through after the call of `open`.
  unfoldable pub open_backing : List ℕ → Option Backing → Proc W (Status × Option Backing)
  unfolding close_backing store_filename
  open_backing filename none = λ w. fault
  open_backing filename (some store) = run do
    fd ← sys (os.open_file (store_filename filename) read_write)
    let opened : Backing = record { storefd = fd }
    if fd ==ℤ negsuc 0 then close_and opened status_bad_open else pure tt
    pure (status_ok, some opened)

  unfoldable pub remove_backing : List ℕ → Proc W Status
  unfolding store_filename
  remove_backing filename = run do
    removed ← sys (os.remove (store_filename filename))
    return_if (not (removed ==ℤ pos 0)) status_bad_remove
    pure status_ok
