-- ===== src/FileIo/Pages/Run.antt =====
-- One lemma for each system call of src/lib/fileio.c, for a disk without I/O errors, and the offsets
-- of pages.
use nickdb.Base.{ℕ, ◌∙◌, ◌+◌, ◌*◌, ◌^◌, ◌≤◌, ◌<◌, ◌≡◌, some, arith, ℤ, pos, ==ℤ_refl}
use nickdb.Word.{Buffer, overwrite, shift, wrap64_fits}
use nickdb.Constants.{page_size}
use nickdb.Posix.{Posix, File, Documented, Reliable, write_at}
use nickdb.Proc.{Outcome, ret, next}
use nickdb.FileIo.{read_or_return, write_or_return, index_to_offset, offset_to_index}

-- Up to 2^51 pages, the offset of a page is 4096 times its index.
pub index_to_offset-pos : (p : ℕ) → p < 2 ^ 51 → index_to_offset (pos p) ≡ pos (p * page_size)
unfolding index_to_offset
index_to_offset-pos p h = wrap64_fits (pos (p * page_size)) (omega arith)

pub offset_to_index-pos : (p : ℕ) → offset_to_index (pos (p * page_size)) ≡ pos p
unfolding offset_to_index
offset_to_index-pos p = ground arith

module _ {W : Type 0} ⦃os : Posix W⦄ (doc : Documented os) where
  -- A run that returns `a`, after which the file behind `fd` is one of which `P` holds.
  abbrev pub Yields : {A : Type 0} → ℤ → Outcome W A → A → (File → Type 0) → Type 0
  Yields fd r a P = (w' : W) × (f' : File) × (r ≡ ret a w') × (doc.file fd w' ≡ some f') × P f'

module _ {W : Type 0} ⦃os : Posix W⦄ (doc : Documented os) (rel : Reliable os doc) where
  -- The state and the buffer that a read leaves.
  pub read_ok :
      {R : Type 0} (fd : ℤ) (dest : Buffer) (n off : ℕ) (failed : R) (w : W) (f : File)
      → doc.file fd w ≡ some f
      → off + n ≤ f.size
      → (w' : W) × (doc.file fd w' ≡ some f)
        × (read_or_return fd dest n (pos off) failed w
            ≡ next (overwrite dest 0 n (shift f.bytes off)) w')
  unfolding read_or_return
  read_ok fd dest n off failed w f opened fits =
      let full = rel.pread_ok fd dest n off w f opened fits in
      (
        (os.pread fd dest n (pos off) w).2,
        doc.pread-file fd fd dest n (pos off) w ∙ opened,
        rw (full, ==ℤ_refl, doc.pread_full fd dest n off w f opened full),
      )

  pub write_ok :
      {R : Type 0} (fd : ℤ) (src : Buffer) (n off : ℕ) (failed : R) (w : W) (f : File)
      → doc.file fd w ≡ some f
      → (w' : W) × (doc.file fd w' ≡ some (write_at f off n src))
        × (write_or_return fd src n (pos off) failed w ≡ next tt w')
  unfolding write_or_return
  write_ok fd src n off failed w f opened =
      let full = rel.pwrite_ok fd src n off w f opened in
      (
        (os.pwrite fd src n (pos off) w).1,
        doc.pwrite_full fd src n off w f opened full,
        rw (full, ==ℤ_refl),
      )
