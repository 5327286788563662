-- ===== src/FileIo/Pages/Attempt/Alloc.antt =====
-- What STATUS_OK of alloc_page is worth on a disk that may have I/O errors.
use nickdb.Base.{ℕ, suc, ◌*◌, ◌^◌, ◌<◌, ◌≡◌, refl, ◌∙◌, some, List, [], ◌∷◌, arith, ℤ, pos, negsuc}
use nickdb.Word.{Buffer, zeros, overwrite, shift, load64, wrap64_fits}
use nickdb.Constants.{page_size, Status, status_ok}
use nickdb.Posix.{Posix, File, Documented, write_at}
use nickdb.Proc.{outcome, Returns}
use nickdb.FileIo.{head_field, size_field}
use nickdb.FileIo.Pages.{alloc_free_page, alloc_new_page, alloc_page}
use nickdb.FileIo.Pages.Alloc.{pop-IsStore}
use nickdb.FileIo.Pages.Attempt.{attempt_read, attempt_write}
use nickdb.FileIo.Pages.Grow.{grown, grown-IsStore}
use nickdb.FileIo.Pages.Metadata.{metadata_field}
use nickdb.FileIo.Pages.Pool.{Pool, take, IsLive}
use nickdb.FileIo.Pages.Refine.{IsPool}
use nickdb.FileIo.Pages.Run.{index_to_offset-pos, offset_to_index-pos}
use nickdb.FileIo.Pages.View.{IsStore}
use nickdb.FileIo.Pages.Written.{Written, write-Written, rewrite-Written, metadata-Written}

module _ {W : Type 0} ⦃os : Posix W⦄ (doc : Documented os) (fd : ℤ) where
  -- If alloc_page reports STATUS_OK, what it promises has been done.
  abbrev pub Allocated : Buffer → File → Pool → Status × ℤ → W → Type 0
  Allocated content f s r w =
      r.0 ≡ status_ok
      → (r.1 ≡ pos (take s).0)
        × ((f' : File) × (doc.file fd w ≡ some f')
            × IsPool f' (take s).1
            × IsLive (take s).1 (take s).0
            × Written f f' (take s).0 content)

  alloc_free_page-Allocated :
      (content : Buffer) (w : W) (f : File) (n p : ℕ) (free : List ℕ)
      → doc.file fd w ≡ some f
      → IsStore f n (p ∷ free)
      → Returns (Allocated content f (record { pages = n; free = p ∷ free })) (
          outcome (
            alloc_free_page
              (some content)
              (record { storefd = fd })
              (overwrite zeros 0 page_size (shift f.bytes 0))
              w))
  unfolding alloc_free_page take
  alloc_free_page-Allocated content w f n p free opened st =
      let P = Allocated content f (record { pages = n; free = p ∷ free }) in
      let head : load64 (overwrite zeros 0 page_size (shift f.bytes 0)) head_field
          ≡ pos (p * page_size) =
        metadata_field f.bytes head_field (omega arith) ∙ st.head in
      rw (head, index_to_offset-pos 0 (omega arith), offset_to_index-pos)
        (attempt_read doc P fd _ _ _ _ w f _ opened (λ w1 e. cc)
          λ w1 o1.
            attempt_write doc P fd _ _ _ _ w1 f _ o1 (λ w2 e. cc)
              λ w2 o2.
                attempt_write doc P fd _ _ _ _ w2 _ _ o2 (λ w3 e. cc)
                  λ w3 o3 e. (
                    refl,
                    (
                      _,
                      o3,
                      pop-IsStore f content n p p free st st.distinct.2,
                      (st.distinct.0, st.distinct.1, st.distinct.2),
                      metadata-Written f _ p content (write-Written f p content) st.distinct.0 _,
                    ),
                  ))

  alloc_new_page-Allocated :
      (content : Buffer) (w : W) (f : File) (n : ℕ)
      → doc.file fd w ≡ some f
      → IsStore f n []
      → suc n < 2 ^ 51
      → Returns (Allocated content f (record { pages = n; free = [] })) (
          outcome (
            alloc_new_page
              (some content)
              (record { storefd = fd })
              (overwrite zeros 0 page_size (shift f.bytes 0))
              w))
  unfolding alloc_new_page take grown
  alloc_new_page-Allocated content w f n opened st room =
      let P = Allocated content f (record { pages = n; free = [] }) in
      let size : load64 (overwrite zeros 0 page_size (shift f.bytes 0)) size_field ≡ pos n =
        metadata_field f.bytes size_field (omega arith) ∙ st.size in
      let f1 = write_at f (n * page_size) page_size zeros in
      let f2 = write_at f1 (n * page_size) page_size content in
      rw
        (
          size,
          index_to_offset-pos 0 (omega arith),
          index_to_offset-pos n (omega arith),
          wrap64_fits (pos (suc n)) (omega arith),
        )
        (attempt_write doc P fd _ _ _ _ w f _ opened (λ w1 e. cc)
          λ w1 o1.
            attempt_write doc P fd _ _ _ _ w1 _ _ o1 (λ w2 e. cc)
              λ w2 o2.
                attempt_write doc P fd _ _ _ _ w2 _ _ o2 (λ w3 e. cc)
                  λ w3 o3 e. (
                    refl,
                    (
                      _,
                      o3,
                      grown-IsStore f n st room f2 (ground arith),
                      (st.some_page, omega arith, refl),
                      metadata-Written f f2 n content
                          (rewrite-Written f f1 n zeros (write-Written f n zeros) content)
                          st.some_page _,
                    ),
                  ))

  pub alloc_page-Allocated :
      (content : Buffer) (w : W) (f : File) (n : ℕ) (free : List ℕ)
      → doc.file fd w ≡ some f
      → IsStore f n free
      → suc n < 2 ^ 51
      → Returns
          (Allocated content f (record { pages = n; free = free }))
          (alloc_page (some content) (some (record { storefd = fd })) w)
  unfolding alloc_page
  alloc_page-Allocated content w f n [] opened st room =
      let P = Allocated content f (record { pages = n; free = [] }) in
      let head : load64 (overwrite zeros 0 page_size (shift f.bytes 0)) head_field ≡ negsuc 0 =
        metadata_field f.bytes head_field (omega arith) ∙ st.head in
      rw (index_to_offset-pos 0 (omega arith)) (
        attempt_read doc P fd _ _ _ _ w f _ opened (λ w1 e. cc)
          λ w1 o1. rw head (alloc_new_page-Allocated content w1 f n o1 st room))
  alloc_page-Allocated content w f n (p ∷ free) opened st room =
      let P = Allocated content f (record { pages = n; free = p ∷ free }) in
      let head : load64 (overwrite zeros 0 page_size (shift f.bytes 0)) head_field
          ≡ pos (p * page_size) =
        metadata_field f.bytes head_field (omega arith) ∙ st.head in
      rw (index_to_offset-pos 0 (omega arith)) (
        attempt_read doc P fd _ _ _ _ w f _ opened (λ w1 e. cc)
          λ w1 o1. rw head (alloc_free_page-Allocated content w1 f n p free o1 st))
