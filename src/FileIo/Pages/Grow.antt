-- ===== src/FileIo/Pages/Grow.antt =====
-- alloc_page when no page is free: the file grows by a page.
use nickdb.Base.{ℕ, suc, ◌*◌, ◌^◌, ◌≤◌, ◌<◌, ◌≡◌, ◌∙◌, some, [], arith, ℤ, pos, negsuc}
use nickdb.Word.{Buffer, zeros, overwrite, shift, load64, store64, wrap64_fits}
use nickdb.Word.Fields.{load64-store64, load64-store64_ne}
use nickdb.Constants.{
  page_size, err_set, Status, status_ok, status_err, status_bad_read, status_bad_write, status_code,
}
use nickdb.Posix.{Posix, File, Documented, Reliable, write_at}
use nickdb.FileIo.{size_field, head_field, tail_field}
use nickdb.FileIo.Pages.{alloc_new_page, alloc_page}
use nickdb.FileIo.Pages.Run.{index_to_offset-pos, Yields, read_ok, write_ok}
use nickdb.FileIo.Pages.View.{IsStore}
use nickdb.FileIo.Pages.Metadata.{write_metadata-IsStore, metadata_field}
use nickdb.FileIo.Pages.Written.{Written, write-Written, rewrite-Written, metadata-Written}

-- The metadata page with one more page.
module _ (f : File) (n : ℕ) (st : IsStore f n []) (room : suc n < 2 ^ 51) where
  unfoldable pub grown : Buffer
  grown = store64 (overwrite zeros 0 page_size (shift f.bytes 0)) size_field (pos (suc n))

  pub grown-IsStore :
      (f1 : File) → suc n * page_size ≤ f1.size → IsStore (write_at f1 0 page_size grown) (suc n) []
  unfolding grown
  grown-IsStore f1 whole =
      let metadata = overwrite zeros 0 page_size (shift f.bytes 0) in
      write_metadata-IsStore f1 (store64 metadata size_field (pos (suc n))) (suc n) []
        (load64-store64 metadata size_field (pos (suc n)) (omega arith))
        (load64-store64_ne metadata size_field (pos (suc n)) head_field (omega arith)
          ∙ metadata_field f.bytes head_field (omega arith)
          ∙ st.head)
        (load64-store64_ne metadata size_field (pos (suc n)) tail_field (omega arith)
          ∙ metadata_field f.bytes tail_field (omega arith)
          ∙ st.tail)
        tt tt (omega arith) room whole

module _ {W : Type 0} ⦃os : Posix W⦄ (doc : Documented os) (rel : Reliable os doc) where
  pub alloc_page-grow :
      (fd : ℤ) (content : Buffer) (w : W) (f : File) (n : ℕ)
      → doc.file fd w ≡ some f
      → IsStore f n []
      → suc n < 2 ^ 51
      → Yields doc fd
          (alloc_page (some content) (some (record { storefd = fd })) w)
          (status_ok, pos n)
          (λ f'. IsStore f' (suc n) [] × Written f f' n content)
  unfolding alloc_page alloc_new_page grown
  alloc_page-grow fd content w f n opened st room =
      let bad_read : Status × ℤ = (status_bad_read, err_set) in
      let bad_write : Status × ℤ = (status_bad_write, err_set) in
      let bad_data : Status × ℤ = (status_bad_write, pos (status_code status_err)) in
      let metadata = overwrite zeros 0 page_size (shift f.bytes 0) in
      let f1 = write_at f (n * page_size) page_size zeros in
      let f2 = write_at f1 (n * page_size) page_size content in
      let (w1, o1, s1) =
        read_ok doc rel fd zeros page_size 0 bad_read w f opened (omega (arith, st.some_page)) in
      let (w2, o2, s2) = write_ok doc rel fd zeros page_size (n * page_size) bad_write w1 f o1 in
      let (w3, o3, s3) = write_ok doc rel fd content page_size (n * page_size) bad_data w2 f1 o2 in
      let (w4, o4, s4) = write_ok doc rel fd (grown f n st room) page_size 0 bad_write w3 f2 o3 in
      let head : load64 metadata head_field ≡ negsuc 0 =
        metadata_field f.bytes head_field (omega arith) ∙ st.head in
      let size : load64 metadata size_field ≡ pos n =
        metadata_field f.bytes size_field (omega arith) ∙ st.size in
      (
        w4,
        write_at f2 0 page_size (grown f n st room),
        rw (
          index_to_offset-pos 0 (omega arith),
          s1,
          head,
          size,
          wrap64_fits (pos (suc n)) (omega arith),
          index_to_offset-pos n (omega arith),
          s2,
          s3,
          s4,
        ),
        o4,
        (
          grown-IsStore f n st room f2 (ground arith),
          metadata-Written f f2 n content
              (rewrite-Written f f1 n zeros (write-Written f n zeros) content) st.some_page
              (grown f n st room),
        ),
      )
