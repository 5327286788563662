-- ===== src/FileIo/Pages/Link.antt =====
-- The three page writes of free_page, and what the file stands for after them.
use native.Mathlib.Nat.{add-zero}
use nickdb.Base.{
  ℕ, ◌*◌, ◌≤◌, ◌<◌, ◌≡◌, refl, ◌∙◌, true, false, List, [], ◌∷◌, ◌++◌, ap, sym, arith, ℤ, pos,
  negsuc, subst,
}
use nickdb.Word.{Buffer, zeros, overwrite, shift, load64, store64, FitsI64}
use nickdb.Word.Fields.{load64-store64, load64-overwrite_inside}
use nickdb.Constants.{page_size}
use nickdb.Posix.{File, write_at}
use nickdb.FileIo.{size_field, head_field, tail_field}
use nickdb.FileIo.Pages.View.{
  last, has, IsStore, load64-page_first, has-ne, offset-injective, size-write_at,
}
use nickdb.FileIo.Pages.Append.{append-Chain, append-Free, last-append}
use nickdb.FileIo.Pages.Metadata.{
  write_metadata-IsStore, store_tail-fields, store_ends-fields, metadata_field,
}

-- What the two pages that free_page writes hold.
abbrev pub link_to : ℕ → Buffer
link_to p = store64 zeros 0 (pos (p * page_size))

abbrev pub end_of_list : Buffer
end_of_list = store64 zeros 0 (negsuc 0)

-- The link in a page that has just been written.
page_link :
    (bytes : Buffer) (p : ℕ) (link : ℤ)
    → FitsI64 link
    → load64 (overwrite bytes (p * page_size) page_size (store64 zeros 0 link)) (p * page_size)
      ≡ link
page_link bytes p link fits =
    ap (load64 (overwrite bytes (p * page_size) page_size (store64 zeros 0 link)))
      (sym (add-zero (p * page_size)))
    ∙ load64-overwrite_inside bytes (p * page_size) page_size (store64 zeros 0 link) 0 (omega arith)
    ∙ load64-store64 zeros 0 link fits

module _ (f : File) (n p : ℕ) (lt : p < n) (h : 1 ≤ p) where
  -- The metadata page that makes `p` the only free page, and the one that makes it the last.
  abbrev pub only : Buffer
  only =
      let metadata = overwrite zeros 0 page_size (shift f.bytes 0) in
      store64 (store64 metadata head_field (pos (p * page_size))) tail_field (pos (p * page_size))

  abbrev pub appended : Buffer
  appended =
      store64 (overwrite zeros 0 page_size (shift f.bytes 0)) tail_field (pos (p * page_size))

  pub first-IsStore :
      IsStore f n []
      → IsStore
          (write_at (write_at f (p * page_size) page_size end_of_list) 0 page_size only)
          n
          (p ∷ [])
  first-IsStore st =
      let metadata = overwrite zeros 0 page_size (shift f.bytes 0) in
      let at = pos (p * page_size) in
      let (s, h', t') =
        store_ends-fields metadata at at (omega (arith, st.few)) (omega (arith, st.few)) in
      write_metadata-IsStore (write_at f (p * page_size) page_size end_of_list) only n (p ∷ [])
        (s ∙ metadata_field f.bytes size_field (omega arith) ∙ st.size) h' t'
        (page_link f.bytes p (negsuc 0) (omega arith), tt) (h, lt, refl, tt) st.some_page st.few
        (ground (arith, st.whole))

  pub next-IsStore :
      (x z : ℕ) (free : List ℕ)
      → IsStore f n (x ∷ free)
      → has p (x ∷ free) ≡ false
      → last (x ∷ free) ≡ pos (z * page_size)
      → has z (x ∷ free) ≡ true
      → IsStore
          (write_at
            (write_at
              (write_at f (z * page_size) page_size (link_to p))
              (p * page_size)
              page_size
              end_of_list)
            0
            page_size
            appended)
          n
          (x ∷ free ++ p ∷ [])
  next-IsStore x z free st out at mem =
      let f1 = write_at f (z * page_size) page_size (link_to p) in
      let f2 = write_at f1 (p * page_size) page_size end_of_list in
      let metadata = overwrite zeros 0 page_size (shift f.bytes 0) in
      let (s, h', t') = store_tail-fields metadata (pos (p * page_size)) (omega (arith, st.few)) in
      let ne = has-ne p z (x ∷ free) out mem in
      let linked : load64 f2.bytes (z * page_size) ≡ pos (p * page_size) =
        load64-page_first f1.bytes p end_of_list z (λ e. ne (sym e))
        ∙ page_link f.bytes z (pos (p * page_size)) (omega (arith, st.few)) in
      write_metadata-IsStore f2 appended n (x ∷ free ++ p ∷ [])
        (s ∙ metadata_field f.bytes size_field (omega arith) ∙ st.size)
        (h' ∙ metadata_field f.bytes head_field (omega arith) ∙ st.head)
        (t' ∙ sym (last-append p (x ∷ free)))
        (append-Chain f.bytes f2.bytes n p x free st.chain st.distinct
          (page_link f1.bytes p (negsuc 0) (omega arith))
          (λ y e.
            let same = offset-injective y z (sym e ∙ at) in
            subst (λ v. load64 f2.bytes (v * page_size) ≡ pos (p * page_size)) (sym same) linked)
          (λ q m e.
            load64-page_first f1.bytes p end_of_list q
              (λ same. has-ne p q (x ∷ free) out m (sym same))
            ∙ load64-page_first f.bytes z (link_to p) q
                (λ same. e (at ∙ ap (λ v. pos (v * page_size)) (sym same)))))
        (append-Free n p (x ∷ free) st.distinct h lt out) st.some_page st.few
        (size-write_at f1 (p * page_size) page_size end_of_list (n * page_size)
          (size-write_at f (z * page_size) page_size (link_to p) (n * page_size) st.whole))

  -- A free page that is freed again ends the list, whatever came behind it.
  pub again-IsStore :
      (z : ℕ) (free : List ℕ)
      → IsStore f n (p ∷ free)
      → IsStore
          (write_at
            (write_at
              (write_at f (z * page_size) page_size (link_to p))
              (p * page_size)
              page_size
              end_of_list)
            0
            page_size
            appended)
          n
          (p ∷ [])
  again-IsStore z free st =
      let f1 = write_at f (z * page_size) page_size (link_to p) in
      let f2 = write_at f1 (p * page_size) page_size end_of_list in
      let metadata = overwrite zeros 0 page_size (shift f.bytes 0) in
      let (s, h', t') = store_tail-fields metadata (pos (p * page_size)) (omega (arith, st.few)) in
      write_metadata-IsStore f2 appended n (p ∷ [])
        (s ∙ metadata_field f.bytes size_field (omega arith) ∙ st.size)
        (h' ∙ metadata_field f.bytes head_field (omega arith) ∙ st.head) t'
        (page_link f1.bytes p (negsuc 0) (omega arith), tt) (h, lt, refl, tt) st.some_page st.few
        (size-write_at f1 (p * page_size) page_size end_of_list (n * page_size)
          (size-write_at f (z * page_size) page_size (link_to p) (n * page_size) st.whole))
