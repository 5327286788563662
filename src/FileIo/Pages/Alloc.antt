-- ===== src/FileIo/Pages/Alloc.antt =====
-- alloc_page with data, on a disk without I/O errors.
use native.Mathlib.Nat.{add-zero}
use nickdb.Base.{
  ℕ, ◌*◌, ◌^◌, ◌<◌, ◌≡◌, ◌∙◌, some, List, [], ◌∷◌, ap, false, ◌==◌, ==_refl, arith, ℤ, pos, negsuc,
}
use nickdb.Word.{Buffer, zeros, overwrite, shift, load64}
use nickdb.Word.Fields.{load64-copy}
use nickdb.Constants.{page_size, err_set, Status, status_ok, status_bad_read, status_bad_write}
use nickdb.Posix.{Posix, File, Documented, Reliable, write_at}
use nickdb.FileIo.{sizeof_freepage, size_field, head_field, tail_field}
use nickdb.FileIo.Pages.{pop_head, alloc_free_page, alloc_page}
use nickdb.FileIo.Pages.Run.{index_to_offset-pos, offset_to_index-pos, Yields, read_ok, write_ok}
use nickdb.FileIo.Pages.View.{first, last, has, Free, IsStore, Chain-write}
use nickdb.FileIo.Pages.Metadata.{
  write_metadata-IsStore, last_mem, first-FitsI64, store_head-fields, store_ends-fields,
  metadata_field,
}
use nickdb.FileIo.Pages.Written.{Written, write-Written, metadata-Written}

-- The fields of the metadata page once its first free page is taken.
module _ (metadata nextpage : Buffer) (n p : ℕ) where
  pub pop_head-fields :
      (free : List ℕ)
      → load64 metadata head_field ≡ first (p ∷ free)
      → load64 metadata tail_field ≡ last (p ∷ free)
      → load64 nextpage 0 ≡ first free
      → Free n (p ∷ free)
      → n < 2 ^ 51
      → (load64 (pop_head metadata nextpage) size_field ≡ load64 metadata size_field)
        × (load64 (pop_head metadata nextpage) head_field ≡ first free)
        × (load64 (pop_head metadata nextpage) tail_field ≡ last free)
  unfolding pop_head
  pop_head-fields [] h t l distinct few =
      rw (h, t, ==_refl (p * page_size), l)
        (store_ends-fields metadata (negsuc 0) (negsuc 0) (omega arith) (omega arith))
  pop_head-fields (q ∷ free) h t l distinct few =
      let (z, at, mem) = last_mem q free in
      let apart : (p * page_size == z * page_size) ≡ false = ground arith in
      let (s, h', t') =
        store_head-fields metadata (first (q ∷ free)) (first-FitsI64 n (q ∷ free) distinct.3 few) in
      rw (h, t, at, apart, l) (s, h', t' ∙ t ∙ at)

-- Page `q`, no free page from then on, is written, and then the metadata page without page `p`.
pub pop-IsStore :
    (f : File) (content : Buffer) (n p q : ℕ) (free : List ℕ)
    → IsStore f n (p ∷ free)
    → has q free ≡ false
    → IsStore
        (write_at (write_at f (q * page_size) page_size content) 0 page_size (
          pop_head
            (overwrite zeros 0 page_size (shift f.bytes 0))
            (overwrite zeros 0 sizeof_freepage (shift f.bytes (p * page_size)))))
        n
        free
pop-IsStore f content n p q free st out =
    let metadata = overwrite zeros 0 page_size (shift f.bytes 0) in
    let nextpage = overwrite zeros 0 sizeof_freepage (shift f.bytes (p * page_size)) in
    let f1 = write_at f (q * page_size) page_size content in
    let link : load64 nextpage 0 ≡ first free =
      load64-copy zeros sizeof_freepage f.bytes (p * page_size) 0 (omega arith)
      ∙ ap (load64 f.bytes) (add-zero (p * page_size))
      ∙ st.chain.0 in
    let (s, h, t) =
      pop_head-fields metadata nextpage n p free
        (metadata_field f.bytes head_field (omega arith) ∙ st.head)
        (metadata_field f.bytes tail_field (omega arith) ∙ st.tail) link st.distinct st.few in
    write_metadata-IsStore f1 (pop_head metadata nextpage) n free
      (s ∙ metadata_field f.bytes size_field (omega arith) ∙ st.size) h t
      (Chain-write f.bytes q content free out st.chain.1) st.distinct.3 st.some_page st.few
      (ground (arith, st.whole))

module _ {W : Type 0} ⦃os : Posix W⦄ (doc : Documented os) (rel : Reliable os doc) where
  pub alloc_page-free :
      (fd : ℤ) (content : Buffer) (w : W) (f : File) (n p : ℕ) (free : List ℕ)
      → doc.file fd w ≡ some f
      → IsStore f n (p ∷ free)
      → Yields doc fd
          (alloc_page (some content) (some (record { storefd = fd })) w)
          (status_ok, pos p)
          (λ f'. IsStore f' n free × Written f f' p content)
  unfolding alloc_page alloc_free_page
  alloc_page-free fd content w f n p free opened st =
      let bad_read : Status × ℤ = (status_bad_read, err_set) in
      let bad_write : Status × ℤ = (status_bad_write, err_set) in
      let metadata = overwrite zeros 0 page_size (shift f.bytes 0) in
      let nextpage = overwrite zeros 0 sizeof_freepage (shift f.bytes (p * page_size)) in
      let popped = pop_head metadata nextpage in
      let f1 = write_at f (p * page_size) page_size content in
      let (w1, o1, s1) =
        read_ok doc rel fd zeros page_size 0 bad_read w f opened (omega (arith, st.some_page)) in
      let (w2, o2, s2) =
        read_ok doc rel fd zeros sizeof_freepage (p * page_size) bad_read w1 f o1 (omega arith) in
      let (w3, o3, s3) = write_ok doc rel fd content page_size (p * page_size) bad_write w2 f o2 in
      let (w4, o4, s4) = write_ok doc rel fd popped page_size 0 bad_write w3 f1 o3 in
      let head : load64 metadata head_field ≡ pos (p * page_size) =
        metadata_field f.bytes head_field (omega arith) ∙ st.head in
      (
        w4,
        write_at f1 0 page_size popped,
        rw (index_to_offset-pos 0 (omega arith), s1, head, s2, s3, s4, offset_to_index-pos),
        o4,
        (
          pop-IsStore f content n p p free st st.distinct.2,
          metadata-Written f f1 p content (write-Written f p content) st.distinct.0 popped,
        ),
      )
