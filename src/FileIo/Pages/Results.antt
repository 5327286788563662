-- ===== src/FileIo/Pages/Results.antt =====
-- What free_page, get_page and put_page return on any system, whatever its calls return.
use nickdb.Base.{
  ◌≡◌, refl, ◌⊎◌, not, true, false, inl, inr, Bool, Option, none, some, Bool-cases, ℤ, pos, negsuc,
  ◌==ℤ◌, ◌&&◌, subst, arith, scale,
}
use nickdb.Word.{Buffer, load64, FitsI64, wrap64_fits}
use nickdb.Constants.{
  page_size, Status, status_ok, status_no_file, status_meta_page, status_bad_seek, status_bad_read,
  status_bad_write,
}
use nickdb.Posix.{Posix}
use nickdb.Proc.{Returns}
use nickdb.Proc.Stays.{seq, guard, branch, outcome-Returns}
use nickdb.FileIo.{Backing, index_to_offset, head_field, tail_field}
use nickdb.FileIo.Pages.{free_in, free_first_page, free_next_page, free_page, get_page, put_page}
use nickdb.FileIo.Pages.Errors.{after_read, after_write}

-- The statuses of a function that is given a page: `at_meta` says whether it is the metadata page, and
-- `io` which errors of system calls it reports.
pub data PageResult (at_meta : Bool) (store : Option Backing) (io : Status → Type 0)
    : Status → Type 0 where
  done : (b : Backing) → at_meta ≡ false → store ≡ some b → PageResult at_meta store io status_ok
  meta_page : at_meta ≡ true → PageResult at_meta store io status_meta_page
  no_file : at_meta ≡ false → store ≡ none → PageResult at_meta store io status_no_file
  failed :
      {s : Status} (b : Backing)
      → at_meta ≡ false
      → store ≡ some b
      → io s
      → PageResult at_meta store io s

abbrev pub OneOf : Status → Status → Status → Type 0
OneOf a b s = (s ≡ a) ⊎ (s ≡ b)

-- Whether the offset of a page is 0, as the functions test.
abbrev is_meta : ℤ → Bool
is_meta index = index_to_offset index ==ℤ pos 0

is_meta-zero : (index : ℤ) → FitsI64 (scale index page_size) → is_meta index ≡ (index ==ℤ pos 0)
unfolding index_to_offset
is_meta-zero (pos n) fits = rw (wrap64_fits (scale (pos n) page_size) fits) (ground arith)
is_meta-zero (negsuc n) fits = rw (wrap64_fits (scale (negsuc n) page_size) fits) refl

-- get_page stores into `dest` only if it reports `STATUS_OK` or `STATUS_BAD_READ`.
abbrev pub Loaded : Bool → Option Backing → Buffer → Status × Buffer → Type 0
Loaded at_meta store dest r =
    PageResult at_meta store (OneOf status_bad_seek status_bad_read) r.0
    × ((r.1 ≡ dest) ⊎ OneOf status_ok status_bad_read r.0)

module _ {W : Type 0} ⦃os : Posix W⦄ where
  free_page-PageResult :
      (store : Option Backing) (index : ℤ) (w : W)
      → Returns
          (λ s _. PageResult (is_meta index) store (OneOf status_bad_read status_bad_write) s)
          (free_page store index w)
  unfolding free_page free_in free_first_page free_next_page
  free_page-PageResult none index w = elim (Bool-cases (is_meta index)) [
    | inl e ↦ rw e (meta_page refl)
    | inr e ↦ rw e (no_file refl refl)
  ]
  free_page-PageResult (some b) index w =
      let P : Status → Type 0 =
        PageResult false (some b) (OneOf status_bad_read status_bad_write) in
      let bad_write : P status_bad_write = failed b refl refl (inr refl) in
      elim (Bool-cases (is_meta index)) [
        | inl e ↦ rw e (meta_page refl)
        | inr e ↦ rw e (
            outcome-Returns P _ (
              after_read P P _ _ _ _ _ w _ (failed b refl refl (inl refl)) λ metadata w1.
                branch P P
                  (load64 metadata tail_field ==ℤ negsuc 0
                    && load64 metadata head_field ==ℤ negsuc 0)
                  (free_first_page b (index_to_offset index) metadata)
                  (free_next_page b (index_to_offset index) metadata) w1
                  (after_write P P _ _ _ _ _ w1 _ bad_write
                    λ w2. after_write P P _ _ _ _ _ w2 _ bad_write λ w3. done b refl refl)
                  (after_write P P _ _ _ _ _ w1 _ bad_write λ w2.
                    after_write P P _ _ _ _ _ w2 _ bad_write
                      λ w3. after_write P P _ _ _ _ _ w3 _ bad_write λ w4. done b refl refl)))
      ]

  pub put_page-PageResult :
      (src : Buffer) (store : Option Backing) (index : ℤ) (w : W)
      → Returns
          (λ s _. PageResult (is_meta index) store (OneOf status_bad_seek status_bad_write) s)
          (put_page src store index w)
  unfolding put_page
  put_page-PageResult src none index w = elim (Bool-cases (is_meta index)) [
    | inl e ↦ rw e (meta_page refl)
    | inr e ↦ rw e (no_file refl refl)
  ]
  put_page-PageResult src (some b) index w =
      let P : Status → Type 0 =
        PageResult false (some b) (OneOf status_bad_seek status_bad_write) in
      elim (Bool-cases (is_meta index)) [
        | inl e ↦ rw e (meta_page refl)
        | inr e ↦ rw e (
            outcome-Returns P _ (
              seq P (λ _. Unit {0}) P _ _
                (guard P ((os.lseek b.storefd (index_to_offset index) w).0 ==ℤ negsuc 0)
                  status_bad_seek (os.lseek b.storefd (index_to_offset index) w).1
                  (failed b refl refl (inl refl)))
                λ u w1 h1.
                  after_write P P _ _ _ _ _ w1 _ (failed b refl refl (inr refl))
                    λ w2. done b refl refl))
      ]

  pub get_page-PageResult :
      (dest : Buffer) (store : Option Backing) (index : ℤ) (w : W)
      → Returns (λ r _. Loaded (is_meta index) store dest r) (get_page dest store index w)
  unfolding get_page
  get_page-PageResult dest none index w = elim (Bool-cases (is_meta index)) [
    | inl e ↦ rw e (meta_page refl, inl refl)
    | inr e ↦ rw e (no_file refl refl, inl refl)
  ]
  get_page-PageResult dest (some b) index w =
      let P : Status × Buffer → Type 0 = Loaded false (some b) dest in
      elim (Bool-cases (is_meta index)) [
        | inl e ↦ rw e (meta_page refl, inl refl)
        | inr e ↦ rw e (
            outcome-Returns P _ (
              seq P (λ _. Unit {0}) P _ _
                (guard P ((os.lseek b.storefd (index_to_offset index) w).0 ==ℤ negsuc 0)
                  (status_bad_seek, dest) (os.lseek b.storefd (index_to_offset index) w).1
                  (failed b refl refl (inl refl), inl refl))
                λ u w1 h1.
                  seq P (λ _. Unit {0}) P _ _
                    (guard P
                      (not (
                        (os.pread b.storefd dest page_size (index_to_offset index) w1).0
                        ==ℤ pos page_size))
                      (
                        status_bad_read,
                        (os.pread b.storefd dest page_size (index_to_offset index) w1).1,
                      )
                      (os.pread b.storefd dest page_size (index_to_offset index) w1).2
                      (failed b refl refl (inr refl), inr (inr refl)))
                    λ v w2 h2. (done b refl refl, inr (inl refl))))
      ]

  -- Whatever the system calls return, for an index whose product with PAGESIZE fits 64 bits,
  -- free_page, get_page and put_page end without undefined behaviour. They report STATUS_OK or an
  -- error of their system calls only if a file is backed and the page is not page 0, the metadata
  -- page; STATUS_META_PAGE only for page 0, whether or not a file is backed; and STATUS_NO_FILE only
  -- if no file is backed and the page is not page 0. The errors are those of reads and writes in
  -- free_page, of lseek and reads in get_page, and of lseek and writes in put_page. get_page leaves
  -- the destination as it is, unless it reports STATUS_OK or STATUS_BAD_READ.
  pub page_calls-Returns :
      (page dest : Buffer) (store : Option Backing) (index : ℤ) (w : W)
      → FitsI64 (scale index page_size)
      → (Returns
          (λ s _. PageResult (index ==ℤ pos 0) store (OneOf status_bad_read status_bad_write) s)
          (free_page store index w))
        × (Returns (λ r _. Loaded (index ==ℤ pos 0) store dest r) (get_page dest store index w))
        × (Returns
            (λ s _. PageResult (index ==ℤ pos 0) store (OneOf status_bad_seek status_bad_write) s)
            (put_page page store index w))
  page_calls-Returns page dest store index w fits =
      subst
        (λ at_meta.
          (Returns (λ s _. PageResult at_meta store (OneOf status_bad_read status_bad_write) s)
            (free_page store index w))
          × (Returns (λ r _. Loaded at_meta store dest r) (get_page dest store index w))
          × (Returns (λ s _. PageResult at_meta store (OneOf status_bad_seek status_bad_write) s)
              (put_page page store index w)))
        (is_meta-zero index fits)
        (
          free_page-PageResult store index w,
          get_page-PageResult dest store index w,
          put_page-PageResult page store index w,
        )
