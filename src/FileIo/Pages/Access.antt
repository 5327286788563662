-- ===== src/FileIo/Pages/Access.antt =====
-- get_page and put_page on a disk without I/O errors.
use native.Mathlib.Nat.{sub-zero}
use nickdb.Base.{
  ℕ, suc, ◌*◌, ◌^◌, ◌≤◌, ◌<◌, ◌≡◌, refl, ◌∙◌, ap, sym, subst, false, some, arith, ◌==◌, ==_ne, ℤ,
  pos,
}
use nickdb.Word.{Buffer, overwrite}
use nickdb.Constants.{page_size, status_ok, status_bad_write}
use nickdb.Posix.{Posix, File, Documented, Reliable, write_at}
use nickdb.Proc.{ret}
use nickdb.FileIo.Pages.{get_page, put_page}
use nickdb.FileIo.Pages.Run.{index_to_offset-pos, Yields, write_ok}
use nickdb.FileIo.Pages.View.{page}
use nickdb.FileIo.Pages.Written.{Written, write-Written}

pub filled_byte :
    (dest src : Buffer) (i : ℕ) → i < page_size → overwrite dest 0 page_size src i ≡ src i
unfolding overwrite
filled_byte dest src i h = ground (arith, ap src (sub-zero i))

module _ {W : Type 0} ⦃os : Posix W⦄ (doc : Documented os) (rel : Reliable os doc) (fd : ℤ) where
  pub get_page-page :
      (dest : Buffer) (w : W) (f : File) (p : ℕ)
      → doc.file fd w ≡ some f
      → 1 ≤ p
      → p < 2 ^ 51
      → suc p * page_size ≤ f.size
      → Yields doc fd
          (get_page dest (some (record { storefd = fd })) (pos p) w)
          (status_ok, overwrite dest 0 page_size (page f.bytes p))
          (λ f'. f' ≡ f)
  unfolding get_page
  get_page-page dest w f p opened h few inside =
      let off = p * page_size in
      let w1 = (os.lseek fd (pos off) w).1 in
      let o1 : doc.file fd w1 ≡ some f = doc.lseek-file fd fd (pos off) w ∙ opened in
      let full = rel.pread_ok fd dest page_size off w1 f o1 (omega arith) in
      let real : (off == 0) ≡ false = ==_ne off 0 (omega arith) in
      (
        (os.pread fd dest page_size (pos off) w1).2,
        f,
        rw (
          index_to_offset-pos p few,
          real,
          rel.lseek_ok fd off w f opened,
          full,
          doc.pread_full fd dest page_size off w1 f o1 full,
        ),
        doc.pread-file fd fd dest page_size (pos off) w1 ∙ o1,
        refl,
      )

  pub put_page-page :
      (src : Buffer) (w : W) (f : File) (p : ℕ)
      → doc.file fd w ≡ some f
      → 1 ≤ p
      → p < 2 ^ 51
      → Yields doc fd
          (put_page src (some (record { storefd = fd })) (pos p) w)
          status_ok
          (λ f'. f' ≡ write_at f (p * page_size) page_size src)
  unfolding put_page
  put_page-page src w f p opened h few =
      let off = p * page_size in
      let w1 = (os.lseek fd (pos off) w).1 in
      let o1 : doc.file fd w1 ≡ some f = doc.lseek-file fd fd (pos off) w ∙ opened in
      let (w2, o2, s2) = write_ok doc rel fd src page_size off status_bad_write w1 f o1 in
      let real : (off == 0) ≡ false = ==_ne off 0 (omega arith) in
      (
        w2,
        write_at f off page_size src,
        rw (index_to_offset-pos p few, real, rel.lseek_ok fd off w f opened, s2),
        o2,
        refl,
      )

  -- On a disk without I/O errors, put_page to a page other than the metadata page, below 2^51,
  -- returns STATUS_OK, and so does get_page of it then, with the bytes that were put. Every
  -- other page but the metadata page, about which nothing is said, is as it was.
  pub get_page-put_page :
      (src dest : Buffer) (w : W) (f : File) (p : ℕ)
      → doc.file fd w ≡ some f
      → 1 ≤ p
      → p < 2 ^ 51
      → (w1 w2 : W) × (f' : File) × (d : Buffer) × (put_page src
            (some (record { storefd = fd }))
            (pos p)
            w
          ≡ ret status_ok w1)
        × (get_page dest (some (record { storefd = fd })) (pos p) w1 ≡ ret (status_ok, d) w2)
        × (doc.file fd w2 ≡ some f')
        × Written f f' p src
        × ((i : ℕ) → i < page_size → d i ≡ src i)
  get_page-put_page src dest w f p opened h few =
      let (w1, f1, run1, o1, e1) = put_page-page src w f p opened h few in
      let (w2, f2, run2, o2, e2) = get_page-page dest w1 f1 p o1 h few (rw e1 (ground arith)) in
      let wr : Written f f2 p src = rw (e2, e1) (write-Written f p src) in
      (
        w1,
        w2,
        f2,
        overwrite dest 0 page_size (page f1.bytes p),
        run1,
        run2,
        o2,
        wr,
        λ i b.
            filled_byte dest (page f1.bytes p) i b
            ∙ (subst (λ g. Written f g p src) (sym e1) (write-Written f p src)).own i b,
      )
