-- ===== src/FileIo/Pages/Blank.antt =====
-- alloc_page without data. A page that extends the file is blank. A page from the free list is not:
-- the blank page is written to the offset of the page whose index is the offset of the free page.
use native.Mathlib.Nat.{add-zero}
use nickdb.Base.{
  ℕ, suc, ◌+◌, ◌*◌, ◌^◌, ◌<◌, ◌≡◌, ◌∙◌, ◌≢◌, false, none, some, List, [], ◌∷◌, ap, sym, arith, ℤ,
  pos, negsuc,
}
use nickdb.Word.{zeros, overwrite, shift, load64, wrap64_fits}
use nickdb.Word.Fields.{load64_ext, load64-shift}
use nickdb.Constants.{page_size, err_set, Status, status_ok, status_bad_read, status_bad_write}
use nickdb.Posix.{Posix, File, Documented, Reliable, write_at}
use nickdb.FileIo.{sizeof_freepage, size_field, head_field}
use nickdb.FileIo.Pages.{pop_head, alloc_free_page, alloc_new_page, alloc_page}
use nickdb.FileIo.Pages.Run.{index_to_offset-pos, offset_to_index-pos, Yields, read_ok, write_ok}
use nickdb.FileIo.Pages.View.{page, first, has, Free, IsStore}
use nickdb.FileIo.Pages.Metadata.{metadata_field}
use nickdb.FileIo.Pages.Written.{Written, write-Written, metadata-Written}
use nickdb.FileIo.Pages.Alloc.{pop-IsStore}
use nickdb.FileIo.Pages.Grow.{grown, grown-IsStore}

-- The link of a free page is never 0.
first-ne-zero : (n : ℕ) (free : List ℕ) → Free n free → first free ≢ pos 0
first-ne-zero n [] h = λ e. cc
first-ne-zero n (p ∷ free) h = λ e. ground arith

-- A page that still begins with its link is not blank.
link_stays :
    (f f' : File) (n p q : ℕ) (free : List ℕ)
    → IsStore f n (p ∷ free)
    → p ≢ q
    → Written f f' q zeros
    → load64 (page f'.bytes p) 0 ≡ first free
link_stays f f' n p q free st ne wr =
    load64_ext (page f'.bytes p) (page f.bytes p) 0 0
      (λ i h. wr.others p st.distinct.0 ne (0 + i) (omega arith))
    ∙ load64-shift f.bytes (p * page_size) 0
    ∙ ap (load64 f.bytes) (add-zero (p * page_size))
    ∙ st.chain.0

module _ {W : Type 0} ⦃os : Posix W⦄ (doc : Documented os) (rel : Reliable os doc) where
  -- On a disk without I/O errors, alloc_page without data on a store with no free page, and
  -- with room below 2^51 pages, returns STATUS_OK and the next page. The store has one page
  -- more, that page is blank, and every other page but the metadata page is as it was.
  pub alloc_page-grow_blank :
      (fd : ℤ) (w : W) (f : File) (n : ℕ)
      → doc.file fd w ≡ some f
      → IsStore f n []
      → suc n < 2 ^ 51
      → Yields doc fd
          (alloc_page none (some (record { storefd = fd })) w)
          (status_ok, pos n)
          (λ f'. IsStore f' (suc n) [] × Written f f' n zeros)
  unfolding alloc_page alloc_new_page grown
  alloc_page-grow_blank fd w f n opened st room =
      let bad_read : Status × ℤ = (status_bad_read, err_set) in
      let bad_write : Status × ℤ = (status_bad_write, err_set) in
      let metadata = overwrite zeros 0 page_size (shift f.bytes 0) in
      let f1 = write_at f (n * page_size) page_size zeros in
      let (w1, o1, s1) =
        read_ok doc rel fd zeros page_size 0 bad_read w f opened (omega (arith, st.some_page)) in
      let (w2, o2, s2) = write_ok doc rel fd zeros page_size (n * page_size) bad_write w1 f o1 in
      let (w3, o3, s3) = write_ok doc rel fd (grown f n st room) page_size 0 bad_write w2 f1 o2 in
      let head : load64 metadata head_field ≡ negsuc 0 =
        metadata_field f.bytes head_field (omega arith) ∙ st.head in
      let size : load64 metadata size_field ≡ pos n =
        metadata_field f.bytes size_field (omega arith) ∙ st.size in
      (
        w3,
        write_at f1 0 page_size (grown f n st room),
        rw (
          index_to_offset-pos 0 (omega arith),
          s1,
          head,
          size,
          wrap64_fits (pos (suc n)) (omega arith),
          index_to_offset-pos n (omega arith),
          s2,
          s3,
        ),
        o3,
        (
          grown-IsStore f n st room f1 (ground arith),
          metadata-Written f f1 n zeros (write-Written f n zeros) st.some_page (grown f n st room),
        ),
      )

  -- On a disk without I/O errors, alloc_page without data on a store whose first free page is
  -- p, below 2^39, returns STATUS_OK and p. The page whose index is the offset of p is blank
  -- then, every other page but the metadata page is as it was, and page p begins with a word
  -- that is not 0. If the page that was blanked is not among the free ones left, the file is
  -- still a store, with p taken from its list.
  pub alloc_page-not_blank :
      (fd : ℤ) (w : W) (f : File) (n p : ℕ) (free : List ℕ)
      → doc.file fd w ≡ some f
      → IsStore f n (p ∷ free)
      → p < 2 ^ 39
      → Yields doc fd
          (alloc_page none (some (record { storefd = fd })) w)
          (status_ok, pos p)
          (λ f'.
            Written f f' (p * page_size) zeros
            × (load64 (page f'.bytes p) 0 ≢ pos 0)
            × (has (p * page_size) free ≡ false → IsStore f' n free))
  unfolding alloc_page alloc_free_page
  alloc_page-not_blank fd w f n p free opened st small =
      let bad_read : Status × ℤ = (status_bad_read, err_set) in
      let bad_write : Status × ℤ = (status_bad_write, err_set) in
      let metadata = overwrite zeros 0 page_size (shift f.bytes 0) in
      let nextpage = overwrite zeros 0 sizeof_freepage (shift f.bytes (p * page_size)) in
      let popped = pop_head metadata nextpage in
      let q = p * page_size in
      let f1 = write_at f (q * page_size) page_size zeros in
      let (w1, o1, s1) =
        read_ok doc rel fd zeros page_size 0 bad_read w f opened (omega (arith, st.some_page)) in
      let (w2, o2, s2) =
        read_ok doc rel fd zeros sizeof_freepage (p * page_size) bad_read w1 f o1 (omega arith) in
      let (w3, o3, s3) = write_ok doc rel fd zeros page_size (q * page_size) bad_write w2 f o2 in
      let (w4, o4, s4) = write_ok doc rel fd popped page_size 0 bad_write w3 f1 o3 in
      let head : load64 metadata head_field ≡ pos (p * page_size) =
        metadata_field f.bytes head_field (omega arith) ∙ st.head in
      let wr : Written f (write_at f1 0 page_size popped) q zeros =
        metadata-Written f f1 q zeros (write-Written f q zeros) (omega arith) popped in
      let link = link_stays f (write_at f1 0 page_size popped) n p q free st (omega arith) wr in
      (
        w4,
        write_at f1 0 page_size popped,
        rw (
          index_to_offset-pos 0 (omega arith),
          s1,
          head,
          s2,
          index_to_offset-pos (p * page_size) (omega arith),
          s3,
          s4,
          offset_to_index-pos,
        ),
        o4,
        (
          wr,
          λ e. first-ne-zero n free st.distinct.3 (sym link ∙ e),
          λ out. pop-IsStore f zeros n p q free st out,
        ),
      )
