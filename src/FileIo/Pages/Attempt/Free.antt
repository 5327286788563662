-- ===== src/FileIo/Pages/Attempt/Free.antt =====
-- What STATUS_OK of free_page is worth on a disk that may have I/O errors.
use nickdb.Base.{
  ℕ, ◌*◌, ◌≤◌, ◌<◌, ◌≡◌, ◌∙◌, false, some, List, [], ◌∷◌, ◌++◌, arith, ◌==◌, ==_ne, ℤ, pos, negsuc,
}
use nickdb.Word.{zeros, overwrite, shift, load64}
use nickdb.Constants.{page_size, Status, status_ok}
use nickdb.Posix.{Posix, File, Documented, write_at}
use nickdb.Proc.{outcome, Returns}
use nickdb.FileIo.{head_field, tail_field}
use nickdb.FileIo.Pages.{free_in, free_first_page, free_next_page, free_page}
use nickdb.FileIo.Pages.Attempt.{attempt_read, attempt_write}
use nickdb.FileIo.Pages.Free.{Kept}
use nickdb.FileIo.Pages.Link.{link_to, end_of_list, only, appended, first-IsStore, next-IsStore}
use nickdb.FileIo.Pages.Metadata.{metadata_field, last_mem}
use nickdb.FileIo.Pages.Run.{index_to_offset-pos}
use nickdb.FileIo.Pages.View.{IsStore, has, has-ne}
use nickdb.FileIo.Pages.Written.{page-write_ne}

module _ {W : Type 0} ⦃os : Posix W⦄ (doc : Documented os) (fd : ℤ) where
  -- If free_page reports STATUS_OK, what it promises has been done.
  abbrev pub Freed : File → ℕ → List ℕ → ℕ → Status → W → Type 0
  Freed f n free p code w =
      code ≡ status_ok
      → (f' : File) × (doc.file fd w ≡ some f') × IsStore f' n (free ++ p ∷ []) × Kept f f' p free

  module _ (w : W) (f : File) (n p : ℕ) (opened : doc.file fd w ≡ some f) (h : 1 ≤ p)
      (lt : p < n) where
    free_first_page-Freed :
        IsStore f n []
        → Returns (Freed f n [] p) (
            outcome (
              free_first_page
                (record { storefd = fd })
                (pos (p * page_size))
                (overwrite zeros 0 page_size (shift f.bytes 0))
                w))
    unfolding free_first_page
    free_first_page-Freed st =
        let P = Freed f n [] p in
        let f1 = write_at f (p * page_size) page_size end_of_list in
        rw (index_to_offset-pos 0 (omega arith)) (
          attempt_write doc P fd _ _ _ _ w f _ opened (λ w1 e. cc)
            λ w1 o1.
              attempt_write doc P fd _ _ _ _ w1 _ _ o1 (λ w2 e. cc)
                λ w2 o2 e. (
                  _,
                  o2,
                  first-IsStore f n p lt h st,
                  record {
                    others = λ q hq ne out i b.
                        page-write_ne f1 0 (only f n p lt h) q i (omega arith) b
                        ∙ page-write_ne f p end_of_list q i ne b;
                  },
                ))

    free_next_page-Freed :
        (x : ℕ) (free : List ℕ)
        → IsStore f n (x ∷ free)
        → has p (x ∷ free) ≡ false
        → Returns (Freed f n (x ∷ free) p) (
            outcome (
              free_next_page
                (record { storefd = fd })
                (pos (p * page_size))
                (overwrite zeros 0 page_size (shift f.bytes 0))
                w))
    unfolding free_next_page
    free_next_page-Freed x free st out =
        let P = Freed f n (x ∷ free) p in
        let (z, at, mem) = last_mem x free in
        let f1 = write_at f (z * page_size) page_size (link_to p) in
        let f2 = write_at f1 (p * page_size) page_size end_of_list in
        let tail : load64 (overwrite zeros 0 page_size (shift f.bytes 0)) tail_field
            ≡ pos (z * page_size) =
          metadata_field f.bytes tail_field (omega arith) ∙ st.tail ∙ at in
        rw (tail, index_to_offset-pos 0 (omega arith))
          (attempt_write doc P fd _ _ _ _ w f _ opened (λ w1 e. cc)
            λ w1 o1.
              attempt_write doc P fd _ _ _ _ w1 _ _ o1 (λ w2 e. cc)
                λ w2 o2.
                  attempt_write doc P fd _ _ _ _ w2 _ _ o2 (λ w3 e. cc)
                    λ w3 o3 e. (
                      _,
                      o3,
                      next-IsStore f n p lt h x z free st out at mem,
                      record {
                        others = λ q hq ne gone i b.
                            page-write_ne f2 0 (appended f n p lt h) q i (omega arith) b
                            ∙ page-write_ne f1 p end_of_list q i ne b
                            ∙ page-write_ne f z (link_to p) q i (has-ne q z (x ∷ free) gone mem) b;
                      },
                    ))

  pub free_page-Freed :
      (w : W) (f : File) (n p : ℕ) (free : List ℕ)
      → doc.file fd w ≡ some f
      → IsStore f n free
      → 1 ≤ p
      → p < n
      → has p free ≡ false
      → Returns (Freed f n free p) (free_page (some (record { storefd = fd })) (pos p) w)
  unfolding free_page free_in
  free_page-Freed w f n p [] opened st h lt out =
      let P = Freed f n [] p in
      let real : (p * page_size == 0) ≡ false = ==_ne (p * page_size) 0 (omega arith) in
      let head : load64 (overwrite zeros 0 page_size (shift f.bytes 0)) head_field ≡ negsuc 0 =
        metadata_field f.bytes head_field (omega arith) ∙ st.head in
      let tail : load64 (overwrite zeros 0 page_size (shift f.bytes 0)) tail_field ≡ negsuc 0 =
        metadata_field f.bytes tail_field (omega arith) ∙ st.tail in
      rw (index_to_offset-pos p (omega (arith, st.few)), real, index_to_offset-pos 0 (omega arith))
        (attempt_read doc P fd _ _ _ _ w f _ opened (λ w1 e. cc)
          λ w1 o1. rw (head, tail) (free_first_page-Freed w1 f n p o1 h lt st))
  free_page-Freed w f n p (x ∷ free) opened st h lt out =
      let P = Freed f n (x ∷ free) p in
      let (z, at, mem) = last_mem x free in
      let real : (p * page_size == 0) ≡ false = ==_ne (p * page_size) 0 (omega arith) in
      let tail : load64 (overwrite zeros 0 page_size (shift f.bytes 0)) tail_field
          ≡ pos (z * page_size) =
        metadata_field f.bytes tail_field (omega arith) ∙ st.tail ∙ at in
      rw (index_to_offset-pos p (omega (arith, st.few)), real, index_to_offset-pos 0 (omega arith))
        (attempt_read doc P fd _ _ _ _ w f _ opened (λ w1 e. cc)
          λ w1 o1. rw tail (free_next_page-Freed w1 f n p o1 h lt x free st out))
