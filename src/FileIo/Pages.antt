-- ===== src/FileIo/Pages.antt =====
-- The operations of src/lib/fileio.c on pages: alloc_page, free_page, get_page and put_page.
pub mod Access
pub mod Alloc
pub mod Pool
pub mod Refine
pub mod Run
pub mod Append
pub mod Blank
pub mod Client
pub mod Fifo
pub mod Errors
pub mod Results
pub mod Free
pub mod Grow
pub mod Link
pub mod View
pub mod Metadata
pub mod Written
pub mod Keep
pub mod Attempt
pub mod Torn
use nickdb.Base.{not, Option, none, some, ◌&&◌, ℤ, pos, negsuc, ◌==ℤ◌, increment, if◌then◌else◌}
use nickdb.Word.{Buffer, zeros, wrap64, load64, store64}
use nickdb.Constants.{
  page_size, err_set, empty_list, Status, status_ok, status_err, status_no_file, status_bad_read,
  status_bad_write, status_bad_seek, status_meta_page, status_code,
}
use nickdb.Posix.{Posix}
use nickdb.Proc.{Proc, Body, ret, pure, ◌>>=◌, ◌>>◌, return_if, sys, run}
use nickdb.FileIo.{
  Backing, sizeof_freepage, size_field, head_field, tail_field, index_to_offset, offset_to_index,
  read_or_return, write_or_return,
}

-- The head moves to the next free page; so does the tail, if the page was the only one.
unfoldable pub pop_head : Buffer → Buffer → Buffer
pop_head metadata nextpage =
    let moved = store64 metadata head_field (load64 nextpage 0) in
    if load64 metadata head_field ==ℤ load64 metadata tail_field
    then store64 moved tail_field (load64 nextpage 0)
    else moved

module _ {W : Type 0} ⦃os : Posix W⦄ where
  -- The branch that takes a page from the free list. With no data the blank page goes to the offset
  -- of the page whose index is `offset`.
  unfoldable pub alloc_free_page :
      Option Buffer → Backing → Buffer → Body W (Status × ℤ) (Status × ℤ)
  alloc_free_page src file metadata = do
    let offset = load64 metadata head_field
    nextpage ← read_or_return file.storefd zeros sizeof_freepage offset (status_bad_read, err_set)
    elim src [
      | some content ↦
          write_or_return file.storefd content page_size offset (status_bad_write, err_set)
      | none ↦
          write_or_return file.storefd zeros page_size (index_to_offset offset)
            (status_bad_write, err_set)
    ]
    write_or_return file.storefd (pop_head metadata nextpage) page_size (index_to_offset (pos 0))
        (status_bad_write, err_set)
    pure (status_ok, offset_to_index offset)

  -- The branch that grows the file by a page. The failed write of the data stores `STATUS_ERR` in
  -- the index.
  unfoldable pub alloc_new_page :
      Option Buffer → Backing → Buffer → Body W (Status × ℤ) (Status × ℤ)
  alloc_new_page src file metadata = do
    let newpage = load64 metadata size_field
    write_or_return file.storefd zeros page_size (index_to_offset newpage)
        (status_bad_write, err_set)
    elim src [
      | some content ↦
          write_or_return file.storefd content page_size (index_to_offset newpage)
            (status_bad_write, pos (status_code status_err))
      | none ↦ pure tt
    ]
    let grown = store64 metadata size_field (wrap64 (increment (load64 metadata size_field)))
    write_or_return file.storefd grown page_size (index_to_offset (pos 0))
        (status_bad_write, err_set)
    pure (status_ok, newpage)

  -- The second part of the result is `*index`.
  unfoldable pub alloc_page : Option Buffer → Option Backing → Proc W (Status × ℤ)
  alloc_page src none = ret (status_no_file, err_set)
  alloc_page src (some file) = run do
    metadata ←
        read_or_return file.storefd zeros page_size (index_to_offset (pos 0))
          (status_bad_read, err_set)
    if not (load64 metadata head_field ==ℤ empty_list)
        then alloc_free_page src file metadata
        else alloc_new_page src file metadata

  -- The first free page is head and tail of the list.
  unfoldable pub free_first_page : Backing → ℤ → Buffer → Body W Status Status
  free_first_page store pageloc metadata = do
    let updated = store64 (store64 metadata head_field pageloc) tail_field pageloc
    write_or_return store.storefd (store64 zeros 0 (negsuc 0)) page_size pageloc status_bad_write
    write_or_return store.storefd updated page_size (index_to_offset (pos 0)) status_bad_write
    pure status_ok

  -- Otherwise the page goes behind the tail.
  unfoldable pub free_next_page : Backing → ℤ → Buffer → Body W Status Status
  free_next_page store pageloc metadata = do
    write_or_return store.storefd (store64 zeros 0 pageloc) page_size (load64 metadata tail_field)
        status_bad_write
    write_or_return store.storefd (store64 zeros 0 (negsuc 0)) page_size pageloc status_bad_write
    write_or_return store.storefd (store64 metadata tail_field pageloc) page_size
        (index_to_offset (pos 0)) status_bad_write
    pure status_ok

  unfoldable pub free_in : Backing → ℤ → Proc W Status
  free_in store pageloc = run do
    metadata ←
        read_or_return store.storefd zeros page_size (index_to_offset (pos 0)) status_bad_read
    if load64 metadata tail_field ==ℤ negsuc 0 && load64 metadata head_field ==ℤ negsuc 0
        then free_first_page store pageloc metadata
        else free_next_page store pageloc metadata

  unfoldable pub free_page : Option Backing → ℤ → Proc W Status
  free_page store index =
      if index_to_offset index ==ℤ pos 0 then ret status_meta_page else elim store [
        | none ↦ ret status_no_file
        | some backing ↦ free_in backing (index_to_offset index)
      ]

  -- The buffer comes back as `pread` left it.
  unfoldable pub get_page : Buffer → Option Backing → ℤ → Proc W (Status × Buffer)
  get_page dest store index =
      if index_to_offset index ==ℤ pos 0 then ret (status_meta_page, dest) else elim store [
        | none ↦ ret (status_no_file, dest)
        | some backing ↦ run do
          sought ← sys (os.lseek backing.storefd (index_to_offset index))
          return_if (sought ==ℤ negsuc 0) (status_bad_seek, dest)
          (read, filled) ← sys (λ w.
              let (r, d, w') = os.pread backing.storefd dest page_size (index_to_offset index) w in
              ((r, d), w'))
          return_if (not (read ==ℤ pos page_size)) (status_bad_read, filled)
          pure (status_ok, filled)
      ]

  unfoldable pub put_page : Buffer → Option Backing → ℤ → Proc W Status
  put_page src store index =
      if index_to_offset index ==ℤ pos 0 then ret status_meta_page else elim store [
        | none ↦ ret status_no_file
        | some backing ↦ run do
          sought ← sys (os.lseek backing.storefd (index_to_offset index))
          return_if (sought ==ℤ negsuc 0) status_bad_seek
          write_or_return backing.storefd src page_size (index_to_offset index) status_bad_write
          pure status_ok
      ]
