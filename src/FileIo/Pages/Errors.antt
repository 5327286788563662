-- ===== src/FileIo/Pages/Errors.antt =====
-- What alloc_page returns on any system, whatever its calls return.
use nickdb.Base.{
  true, false, if◌then◌else◌, scale, ℕ, ◌≡◌, refl, not, inl, inr, Option, none, some, Bool-cases, ℤ,
  pos, negsuc, ◌==ℤ◌,
}
use nickdb.Word.{Buffer, FitsI64, zeros, load64}
use nickdb.Constants.{
  page_size, empty_list, Status, status_ok, status_no_file, status_bad_read, status_bad_write,
  status_code,
}
use nickdb.Posix.{Posix}
use nickdb.Proc.{Body, ret, and_then, Returns}
use nickdb.Proc.Stays.{Stays, outcome-Returns}
use nickdb.FileIo.{
  Backing, size_field, head_field, index_to_offset, offset_to_index, read_or_return,
  write_or_return,
}
use nickdb.FileIo.Pages.{alloc_free_page, alloc_new_page, alloc_page}

-- What alloc_page may return for the data `src`, where `metadata` is what it has read: the index of
-- the first free page, or else the number of pages; an error with -1 in the index; or, where the data
-- of a new page cannot be written, `STATUS_BAD_WRITE` with 1 in the index.
pub data AllocResult (src : Option Buffer) (metadata : Buffer) : Status × ℤ → Type 0 where
  reused :
      (load64 metadata head_field ==ℤ empty_list) ≡ false
      → AllocResult src metadata (status_ok, offset_to_index (load64 metadata head_field))
  grown :
      (load64 metadata head_field ==ℤ empty_list) ≡ true
      → AllocResult src metadata (status_ok, load64 metadata size_field)
  bad_read : AllocResult src metadata (status_bad_read, negsuc 0)
  bad_write : AllocResult src metadata (status_bad_write, negsuc 0)
  bad_data_write :
      (content : Buffer)
      → src ≡ some content
      → (load64 metadata head_field ==ℤ empty_list) ≡ true
      → AllocResult src metadata (status_bad_write, pos 1)

module _ {W : Type 0} ⦃os : Posix W⦄ {R A : Type 0} (P : R → Type 0) (Q : A → Type 0) where
  -- The rest need only be known for what `pread` has stored.
  after_read_of :
      (fd : ℤ) (dest : Buffer) (n : ℕ) (off : ℤ) (failed : R) (w : W) (k : Buffer → Body W R A)
      → P failed
      → Stays P Q (k (os.pread fd dest n off w).1 (os.pread fd dest n off w).2)
      → Stays P Q (and_then (read_or_return fd dest n off failed w) k)
  unfolding read_or_return
  after_read_of fd dest n off failed w k h rest =
      elim (Bool-cases (not ((os.pread fd dest n off w).0 ==ℤ pos n))) [
        | inl short ↦ rw short h
        | inr full ↦ rw full rest
      ]

  pub after_read :
      (fd : ℤ) (dest : Buffer) (n : ℕ) (off : ℤ) (failed : R) (w : W) (k : Buffer → Body W R A)
      → P failed
      → ((d : Buffer) (w' : W) → Stays P Q (k d w'))
      → Stays P Q (and_then (read_or_return fd dest n off failed w) k)
  after_read fd dest n off failed w k h rest = after_read_of fd dest n off failed w k h (rest _ _)

  pub after_write :
      (fd : ℤ) (src : Buffer) (n : ℕ) (off : ℤ) (failed : R) (w : W) (k : Unit {0} → Body W R A)
      → P failed
      → ((w' : W) → Stays P Q (k tt w'))
      → Stays P Q (and_then (write_or_return fd src n off failed w) k)
  unfolding write_or_return
  after_write fd src n off failed w k h rest =
      elim (Bool-cases (not ((os.pwrite fd src n off w).0 ==ℤ pos n))) [
        | inl short ↦ rw short h
        | inr full ↦ rw full (rest _)
      ]

-- What the read of the metadata page leaves in the buffer.
abbrev pub read_metadata : {W : Type 0} ⦃os : Posix W⦄ → Backing → W → Buffer
read_metadata ⦃os⦄ file w = (os.pread file.storefd zeros page_size (index_to_offset (pos 0)) w).1

module _ {W : Type 0} ⦃os : Posix W⦄ (file : Backing) (metadata : Buffer) where
  alloc_free_page-Stays :
      (src : Option Buffer) (w : W)
      → (load64 metadata head_field ==ℤ empty_list) ≡ false
      → Stays
          (AllocResult src metadata)
          (AllocResult src metadata)
          (alloc_free_page src file metadata w)
  unfolding alloc_free_page
  alloc_free_page-Stays none w e =
      let P = AllocResult none metadata in
      after_read P P _ _ _ _ _ w _ bad_read λ nextpage w1.
        after_write P P _ _ _ _ _ w1 _ bad_write
          λ w2. after_write P P _ _ _ _ _ w2 _ bad_write λ w3. reused e
  alloc_free_page-Stays (some content) w e =
      let P = AllocResult (some content) metadata in
      after_read P P _ _ _ _ _ w _ bad_read λ nextpage w1.
        after_write P P _ _ _ _ _ w1 _ bad_write
          λ w2. after_write P P _ _ _ _ _ w2 _ bad_write λ w3. reused e

  alloc_new_page-Stays :
      (src : Option Buffer) (w : W)
      → (load64 metadata head_field ==ℤ empty_list) ≡ true
      → Stays
          (AllocResult src metadata)
          (AllocResult src metadata)
          (alloc_new_page src file metadata w)
  unfolding alloc_new_page status_code
  alloc_new_page-Stays none w e =
      let P = AllocResult none metadata in
      after_write P P _ _ _ _ _ w _ bad_write
        λ w1. after_write P P _ _ _ _ _ w1 _ bad_write λ w2. grown e
  alloc_new_page-Stays (some content) w e =
      let P = AllocResult (some content) metadata in
      after_write P P _ _ _ _ _ w _ bad_write λ w1.
        after_write P P _ _ _ _ _ w1 _ (bad_data_write content refl e)
          λ w2. after_write P P _ _ _ _ _ w2 _ bad_write λ w3. grown e

  alloc_page_branch :
      (src : Option Buffer) (w : W)
      → Stays (AllocResult src metadata) (AllocResult src metadata) (
          (if not (load64 metadata head_field ==ℤ empty_list)
              then alloc_free_page src file metadata
              else alloc_new_page src file metadata)
            w)
  alloc_page_branch src w = elim (Bool-cases (load64 metadata head_field ==ℤ empty_list)) [
    | inl e ↦ rw e (alloc_new_page-Stays src w e)
    | inr e ↦ rw e (alloc_free_page-Stays src w e)
  ]

module _ {W : Type 0} ⦃os : Posix W⦄ where
  -- Whatever the system calls return, and where the products of PAGESIZE with the number of pages
  -- and with the head of the free list in the metadata as pread stores it fit 64 bits: alloc_page
  -- with a file ends without undefined behaviour. It returns STATUS_OK with the index of the first
  -- free page if there is one and with the number of pages if not, or STATUS_BAD_READ or
  -- STATUS_BAD_WRITE with -1 in the index, or STATUS_BAD_WRITE with 1 in the index, the last only if
  -- data is given and no page is free. Without a file it returns STATUS_NO_FILE and -1.
  pub alloc_page-AllocResult :
      (src : Option Buffer) (file : Backing) (w : W)
      → FitsI64 (scale (load64 (read_metadata file w) size_field) page_size)
      → FitsI64 (scale (load64 (read_metadata file w) head_field) page_size)
      → (Returns (λ r _. AllocResult src (read_metadata file w) r) (alloc_page src (some file) w))
        × (alloc_page src none w ≡ ret (status_no_file, negsuc 0) w)
  unfolding alloc_page
  alloc_page-AllocResult src file w size_fits head_fits =
      let P = AllocResult src (read_metadata file w) in
      (
        outcome-Returns P _ (
            after_read_of P P _ _ _ _ _ w _ bad_read
              (alloc_page_branch file (read_metadata file w) src _)),
        refl,
      )
