-- ===== src/FileIo/Create.antt =====
-- create_new_backing on a disk without I/O errors.
use nickdb.Base.{ℕ, ◌≡◌, ◌∙◌, ◌≢◌, sym, subst, some, List, [], arith, ℤ, pos, negsuc, ==ℤ_ne}
use nickdb.Word.{zeros, store64}
use nickdb.Word.Fields.{load64-store64}
use nickdb.Constants.{page_size, status_ok}
use nickdb.Posix.{Posix, File, Documented, Reliable, create_truncate, write_at}
use nickdb.Proc.{ret}
use nickdb.FileIo.{Backing, store_filename, first_metadata, create_new_backing, size_field}
use nickdb.FileIo.Pages.Run.{index_to_offset-pos, Yields}
use nickdb.FileIo.Pages.View.{IsStore}
use nickdb.FileIo.Pages.Metadata.{write_metadata-IsStore, store_ends-fields}

abbrev pub empty_file : File
empty_file = record { bytes = zeros; size = 0 }

-- The file is empty before the first page is written.
pub first-IsStore : IsStore (write_at empty_file 0 page_size first_metadata) 1 []
first-IsStore =
    let sized = store64 zeros size_field (pos 1) in
    let (s, h, t) = store_ends-fields sized (negsuc 0) (negsuc 0) (omega arith) (omega arith) in
    write_metadata-IsStore (record { bytes = zeros; size = page_size }) first_metadata 1 []
      (s ∙ load64-store64 zeros size_field (pos 1) (omega arith)) h t tt tt (omega arith)
      (omega arith) (omega arith)

-- The state that create_new_backing leaves.
abbrev pub created : {W : Type 0} ⦃os : Posix W⦄ → List ℕ → ℤ → W → W
created ⦃os⦄ filename fd w =
    (os.pwrite fd first_metadata page_size (pos 0)
      (os.open_file (store_filename filename) create_truncate w).1).1

module _ {W : Type 0} ⦃os : Posix W⦄ (doc : Documented os) (rel : Reliable os doc) where
  pub create_new_backing_run :
      (filename : List ℕ) (store : Backing) (w : W) (fd : ℤ)
      → (os.open_file (store_filename filename) create_truncate w).0 ≡ fd
      → fd ≢ negsuc 0
      → (create_new_backing filename (some store) w
          ≡ ret (status_ok, some (record { storefd = fd })) (created filename fd w))
        × (doc.file fd (created filename fd w)
            ≡ some (write_at empty_file 0 page_size first_metadata))
  unfolding create_new_backing
  create_new_backing_run filename store w fd e ne =
      let path = store_filename filename in
      let w1 = (os.open_file path create_truncate w).1 in
      let opened : doc.file fd w1 ≡ some empty_file =
        subst (λ d. doc.file d w1 ≡ some empty_file) e
          (doc.open_empty path w (λ bad. ne (sym e ∙ bad))) in
      let full = rel.pwrite_ok fd first_metadata page_size 0 w1 empty_file opened in
      (
        rw (e, ==ℤ_ne fd (negsuc 0) ne, index_to_offset-pos 0 (omega arith), full),
        doc.pwrite_full fd first_metadata page_size 0 w1 empty_file opened full,
      )

  -- On a disk without I/O errors, where open gives a descriptor other than -1,
  -- create_new_backing returns STATUS_OK and stores the descriptor in the backing, and the file
  -- that is open behind it is a store of one page, the metadata page, with none free.
  pub create_new_backing-IsStore :
      (filename : List ℕ) (store : Backing) (w : W) (fd : ℤ)
      → (os.open_file (store_filename filename) create_truncate w).0 ≡ fd
      → fd ≢ negsuc 0
      → Yields doc fd
          (create_new_backing filename (some store) w)
          (status_ok, some (record { storefd = fd }))
          (λ f'. IsStore f' 1 [])
  create_new_backing-IsStore filename store w fd e ne =
      let (ran, opened) = create_new_backing_run filename store w fd e ne in
      (
        created filename fd w,
        write_at empty_file 0 page_size first_metadata,
        ran,
        opened,
        first-IsStore,
      )
