-- ===== src/FileIo/Pages/Free.antt =====
-- free_page on a disk without I/O errors: the page goes behind the last free one, and a free page
-- that is freed again cuts the list off.
use nickdb.Base.{
  ℕ, ◌*◌, ◌≤◌, ◌<◌, ◌≡◌, refl, ◌∙◌, ◌≢◌, false, some, List, [], ◌∷◌, ◌++◌, arith, ◌==◌, ==_ne, ℤ,
  pos, negsuc,
}
use nickdb.Word.{zeros, overwrite, shift, load64}
use nickdb.Constants.{page_size, status_ok, status_bad_read, status_bad_write}
use nickdb.Posix.{Posix, File, Documented, Reliable, write_at}
use nickdb.FileIo.{head_field, tail_field}
use nickdb.FileIo.Pages.{free_first_page, free_next_page, free_in, free_page}
use nickdb.FileIo.Pages.Run.{index_to_offset-pos, Yields, read_ok, write_ok}
use nickdb.FileIo.Pages.View.{page, last, has, IsStore, has-ne}
use nickdb.FileIo.Pages.Metadata.{last_mem, metadata_field}
use nickdb.FileIo.Pages.Written.{page-write_ne}
use nickdb.FileIo.Pages.Link.{
  link_to, end_of_list, only, appended, first-IsStore, next-IsStore, again-IsStore,
}

-- Pages that are neither freed nor free are as they were.
pub record Kept (f f' : File) (p : ℕ) (free : List ℕ) : Type 0 where
  pub others :
      (q : ℕ)
      → 1 ≤ q
      → q ≢ p
      → has q free ≡ false
      → (i : ℕ) → i < page_size
      → page f'.bytes q i ≡ page f.bytes q i

module _ {W : Type 0} ⦃os : Posix W⦄ (doc : Documented os) (rel : Reliable os doc) (fd : ℤ) where
  pub free_page-first :
      (w : W) (f : File) (n p : ℕ)
      → doc.file fd w ≡ some f
      → IsStore f n []
      → 1 ≤ p
      → p < n
      → Yields doc fd
          (free_page (some (record { storefd = fd })) (pos p) w)
          status_ok
          (λ f'. IsStore f' n (p ∷ []) × Kept f f' p [])
  unfolding free_page free_in free_first_page
  free_page-first w f n p opened st h lt =
      let metadata = overwrite zeros 0 page_size (shift f.bytes 0) in
      let f1 = write_at f (p * page_size) page_size end_of_list in
      let f2 = write_at f1 0 page_size (only f n p lt h) in
      let (w1, o1, s1) =
        read_ok doc rel fd zeros page_size 0 status_bad_read w f opened
          (omega (arith, st.some_page)) in
      let (w2, o2, s2) =
        write_ok doc rel fd end_of_list page_size (p * page_size) status_bad_write w1 f o1 in
      let (w3, o3, s3) =
        write_ok doc rel fd (only f n p lt h) page_size 0 status_bad_write w2 f1 o2 in
      let head : load64 metadata head_field ≡ negsuc 0 =
        metadata_field f.bytes head_field (omega arith) ∙ st.head in
      let tail : load64 metadata tail_field ≡ negsuc 0 =
        metadata_field f.bytes tail_field (omega arith) ∙ st.tail in
      let real : (p * page_size == 0) ≡ false = ==_ne (p * page_size) 0 (omega arith) in
      (
        w3,
        f2,
        rw (
          index_to_offset-pos p (omega (arith, st.few)),
          real,
          index_to_offset-pos 0 (omega arith),
          s1,
          head,
          tail,
          s2,
          s3,
        ),
        o3,
        (
          first-IsStore f n p lt h st,
          record {
            others = λ q hq ne out i b.
                page-write_ne f1 0 (only f n p lt h) q i (omega arith) b
                ∙ page-write_ne f p end_of_list q i ne b;
          },
        ),
      )

  -- The writes when some page is free already; `z` is the last free one.
  free_page-next :
      (w : W) (f : File) (n p x z : ℕ) (free : List ℕ)
      → doc.file fd w ≡ some f
      → IsStore f n (x ∷ free)
      → (h : 1 ≤ p) → (lt : p < n) → last (x ∷ free) ≡ pos (z * page_size)
      → Yields doc fd (free_page (some (record { storefd = fd })) (pos p) w) status_ok (λ f'.
        f'
        ≡ write_at
            (write_at
              (write_at f (z * page_size) page_size (link_to p))
              (p * page_size)
              page_size
              end_of_list)
            0
            page_size
            (appended f n p lt h))
  unfolding free_page free_in free_next_page
  free_page-next w f n p x z free opened st h lt at =
      let metadata = overwrite zeros 0 page_size (shift f.bytes 0) in
      let f1 = write_at f (z * page_size) page_size (link_to p) in
      let f2 = write_at f1 (p * page_size) page_size end_of_list in
      let (w1, o1, s1) =
        read_ok doc rel fd zeros page_size 0 status_bad_read w f opened
          (omega (arith, st.some_page)) in
      let (w2, o2, s2) =
        write_ok doc rel fd (link_to p) page_size (z * page_size) status_bad_write w1 f o1 in
      let (w3, o3, s3) =
        write_ok doc rel fd end_of_list page_size (p * page_size) status_bad_write w2 f1 o2 in
      let (w4, o4, s4) =
        write_ok doc rel fd (appended f n p lt h) page_size 0 status_bad_write w3 f2 o3 in
      let tail : load64 metadata tail_field ≡ pos (z * page_size) =
        metadata_field f.bytes tail_field (omega arith) ∙ st.tail ∙ at in
      let real : (p * page_size == 0) ≡ false = ==_ne (p * page_size) 0 (omega arith) in
      (
        w4,
        write_at f2 0 page_size (appended f n p lt h),
        rw (
          index_to_offset-pos p (omega (arith, st.few)),
          real,
          index_to_offset-pos 0 (omega arith),
          s1,
          tail,
          s2,
          s3,
          s4,
        ),
        o4,
        refl,
      )

  pub free_page-append :
      (w : W) (f : File) (n p : ℕ) (free : List ℕ)
      → doc.file fd w ≡ some f
      → IsStore f n free
      → 1 ≤ p
      → p < n
      → has p free ≡ false
      → Yields doc fd
          (free_page (some (record { storefd = fd })) (pos p) w)
          status_ok
          (λ f'. IsStore f' n (free ++ p ∷ []) × Kept f f' p free)
  free_page-append w f n p [] opened st h lt out = free_page-first w f n p opened st h lt
  free_page-append w f n p (x ∷ free) opened st h lt out =
      let (z, at, mem) = last_mem x free in
      let (w', f', run, o', e) = free_page-next w f n p x z free opened st h lt at in
      let f1 = write_at f (z * page_size) page_size (link_to p) in
      let f2 = write_at f1 (p * page_size) page_size end_of_list in
      (
        w',
        f',
        run,
        o',
        (
          rw e (next-IsStore f n p lt h x z free st out at mem),
          rw e (record {
            others = λ q hq ne gone i b.
                page-write_ne f2 0 (appended f n p lt h) q i (omega arith) b
                ∙ page-write_ne f1 p end_of_list q i ne b
                ∙ page-write_ne f z (link_to p) q i (has-ne q z (x ∷ free) gone mem) b;
          }),
        ),
      )

  -- On a disk without I/O errors, free_page of the page that is first in the free list already
  -- returns STATUS_OK, and the store is then one whose only free page is that one.
  pub free_page-twice :
      (w : W) (f : File) (n p : ℕ) (free : List ℕ)
      → doc.file fd w ≡ some f
      → IsStore f n (p ∷ free)
      → Yields doc fd
          (free_page (some (record { storefd = fd })) (pos p) w)
          status_ok
          (λ f'. IsStore f' n (p ∷ []))
  free_page-twice w f n p free opened st =
      let (z, at, mem) = last_mem p free in
      let h = st.distinct.0 in
      let lt = st.distinct.1 in
      let (w', f', run, o', e) = free_page-next w f n p p z free opened st h lt at in
      (w', f', run, o', rw e (again-IsStore f n p lt h z free st))
