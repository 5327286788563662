-- ===== src/FileIo/Pages/Keep.antt =====
-- The page operations keep whatever their system calls keep.
use nickdb.Base.{ℕ, Option, none, some, ℤ, pos, negsuc, not, ◌==ℤ◌, ◌&&◌}
use nickdb.Word.{Buffer, load64}
use nickdb.Constants.{page_size, status_bad_read, status_bad_write, status_bad_seek}
use nickdb.Posix.{Posix}
use nickdb.Proc.{return_if}
use nickdb.Proc.Keeps.{Keeps, Leaves, seq, guard, branch, either, outcome-Keeps}
use nickdb.FileIo.{Backing, read_or_return, write_or_return, index_to_offset}
use nickdb.FileIo.Pages.{
  alloc_page, alloc_free_page, alloc_new_page, free_page, free_in, free_first_page, free_next_page,
  get_page, put_page,
}

-- The reads and seeks of the system keep `I`.
pub record KeptByReads {W : Type 0} (os : Posix W) (I : W → Type 0) : Type 0 where
  pub pread :
      (fd : ℤ) (dest : Buffer) (n : ℕ) (off : ℤ) (w : W) → I w → I (os.pread fd dest n off w).2
  pub lseek : (fd off : ℤ) (w : W) → I w → I (os.lseek fd off w).1

-- So do the writes.
pub record KeptByWrites {W : Type 0} (os : Posix W) (I : W → Type 0) : Type 0 where
  pub pwrite :
      (fd : ℤ) (src : Buffer) (n : ℕ) (off : ℤ) (w : W) → I w → I (os.pwrite fd src n off w).1

module _ {W : Type 0} ⦃os : Posix W⦄ (I : W → Type 0) (reads : KeptByReads os I) where
  read_or_return-Leaves :
      {R : Type 0} (fd : ℤ) (dest : Buffer) (n : ℕ) (off : ℤ) (failed : R) (w : W)
      → I w
      → Leaves I (read_or_return fd dest n off failed w)
  unfolding read_or_return
  read_or_return-Leaves fd dest n off failed w h =
      let w' = (os.pread fd dest n off w).2 in
      let h' : I w' = reads.pread fd dest n off w h in
      seq I (return_if (not ((os.pread fd dest n off w).0 ==ℤ pos n)) failed w') _
        (guard I (not ((os.pread fd dest n off w).0 ==ℤ pos n)) failed w' h') λ u v k. k

  pub get_page-Keeps :
      (dest : Buffer) (store : Option Backing) (index : ℤ) (w : W)
      → I w
      → Keeps I (get_page dest store index w)
  unfolding get_page
  get_page-Keeps dest none index w h = either I (index_to_offset index ==ℤ pos 0) _ _ w h h
  get_page-Keeps dest (some backing) index w h =
      either I (index_to_offset index ==ℤ pos 0) _ _ w h (
        let (sought, w1) = os.lseek backing.storefd (index_to_offset index) w in
        outcome-Keeps I _ (
          seq I (return_if (sought ==ℤ negsuc 0) (status_bad_seek, dest) w1) _
            (guard I (sought ==ℤ negsuc 0) (status_bad_seek, dest) w1
              (reads.lseek backing.storefd (index_to_offset index) w h))
            λ u w2 h2.
              let (read, filled, w3) =
                os.pread backing.storefd dest page_size (index_to_offset index) w2 in
              seq I (return_if (not (read ==ℤ pos page_size)) (status_bad_read, filled) w3) _
                (guard I (not (read ==ℤ pos page_size)) (status_bad_read, filled) w3
                  (reads.pread backing.storefd dest page_size (index_to_offset index) w2 h2))
                λ u v k. k))

  module _ (writes : KeptByWrites os I) where
    write_or_return-Leaves :
        {R : Type 0} (fd : ℤ) (src : Buffer) (n : ℕ) (off : ℤ) (failed : R) (w : W)
        → I w
        → Leaves I (write_or_return fd src n off failed w)
    unfolding write_or_return
    write_or_return-Leaves fd src n off failed w h =
        let (written, w') = os.pwrite fd src n off w in
        guard I (not (written ==ℤ pos n)) failed w' (writes.pwrite fd src n off w h)

    pub put_page-Keeps :
        (src : Buffer) (store : Option Backing) (index : ℤ) (w : W)
        → I w
        → Keeps I (put_page src store index w)
    unfolding put_page
    put_page-Keeps src none index w h = either I (index_to_offset index ==ℤ pos 0) _ _ w h h
    put_page-Keeps src (some backing) index w h =
        let off = index_to_offset index in
        either I (off ==ℤ pos 0) _ _ w h (
          let (sought, w1) = os.lseek backing.storefd off w in
          outcome-Keeps I _ (
            seq I (return_if (sought ==ℤ negsuc 0) status_bad_seek w1) _
              (guard I (sought ==ℤ negsuc 0) status_bad_seek w1
                (reads.lseek backing.storefd off w h))
              λ u w2 h2.
                seq I (write_or_return backing.storefd src page_size off status_bad_write w2) _
                  (write_or_return-Leaves backing.storefd src page_size off status_bad_write w2 h2)
                  λ u w3 h3. h3))

    alloc_free_page-Leaves :
        (src : Option Buffer) (file : Backing) (metadata : Buffer) (w : W)
        → I w
        → Leaves I (alloc_free_page src file metadata w)
    unfolding alloc_free_page
    alloc_free_page-Leaves none file metadata w h =
        seq I _ _ (read_or_return-Leaves file.storefd _ _ _ _ w h) λ next w1 h1.
          seq I _ _ (write_or_return-Leaves file.storefd _ _ _ _ w1 h1)
            λ u w2 h2. seq I _ _ (write_or_return-Leaves file.storefd _ _ _ _ w2 h2) λ u w3 h3. h3
    alloc_free_page-Leaves (some content) file metadata w h =
        seq I _ _ (read_or_return-Leaves file.storefd _ _ _ _ w h) λ next w1 h1.
          seq I _ _ (write_or_return-Leaves file.storefd _ _ _ _ w1 h1)
            λ u w2 h2. seq I _ _ (write_or_return-Leaves file.storefd _ _ _ _ w2 h2) λ u w3 h3. h3

    alloc_new_page-Leaves :
        (src : Option Buffer) (file : Backing) (metadata : Buffer) (w : W)
        → I w
        → Leaves I (alloc_new_page src file metadata w)
    unfolding alloc_new_page
    alloc_new_page-Leaves none file metadata w h =
        seq I _ _ (write_or_return-Leaves file.storefd _ _ _ _ w h)
          λ u w1 h1. seq I _ _ (write_or_return-Leaves file.storefd _ _ _ _ w1 h1) λ u w2 h2. h2
    alloc_new_page-Leaves (some content) file metadata w h =
        seq I _ _ (write_or_return-Leaves file.storefd _ _ _ _ w h) λ u w1 h1.
          seq I _ _ (write_or_return-Leaves file.storefd _ _ _ _ w1 h1)
            λ u w2 h2. seq I _ _ (write_or_return-Leaves file.storefd _ _ _ _ w2 h2) λ u w3 h3. h3

    pub alloc_page-Keeps :
        (src : Option Buffer) (store : Option Backing) (w : W)
        → I w
        → Keeps I (alloc_page src store w)
    unfolding alloc_page
    alloc_page-Keeps src none w h = h
    alloc_page-Keeps src (some file) w h = outcome-Keeps I _ (
        seq I _ _ (read_or_return-Leaves file.storefd _ _ _ _ w h) λ metadata w1 h1.
          branch I (not (load64 metadata 8 ==ℤ negsuc 0)) _ _ w1
            (alloc_free_page-Leaves src file metadata w1 h1)
            (alloc_new_page-Leaves src file metadata w1 h1))

    free_in-Keeps :
        (store : Backing) (pageloc : ℤ) (w : W) → I w → Keeps I (free_in store pageloc w)
    unfolding free_in free_first_page free_next_page
    free_in-Keeps store pageloc w h = outcome-Keeps I _ (
        seq I _ _ (read_or_return-Leaves store.storefd _ _ _ _ w h) λ metadata w1 h1.
          branch I (load64 metadata 16 ==ℤ negsuc 0 && load64 metadata 8 ==ℤ negsuc 0) _ _ w1
            (seq I _ _ (write_or_return-Leaves store.storefd _ _ _ _ w1 h1) λ u w2 h2.
              seq I _ _ (write_or_return-Leaves store.storefd _ _ _ _ w2 h2) λ u w3 h3. h3)
            (seq I _ _ (write_or_return-Leaves store.storefd _ _ _ _ w1 h1) λ u w2 h2.
              seq I _ _ (write_or_return-Leaves store.storefd _ _ _ _ w2 h2) λ u w3 h3.
                seq I _ _ (write_or_return-Leaves store.storefd _ _ _ _ w3 h3) λ u w4 h4. h4))

    pub free_page-Keeps :
        (store : Option Backing) (index : ℤ) (w : W) → I w → Keeps I (free_page store index w)
    unfolding free_page
    free_page-Keeps none index w h = either I (index_to_offset index ==ℤ pos 0) _ _ w h h
    free_page-Keeps (some backing) index w h =
        either I (index_to_offset index ==ℤ pos 0) _ _ w h
          (free_in-Keeps backing (index_to_offset index) w h)
