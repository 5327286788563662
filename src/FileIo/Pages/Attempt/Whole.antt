-- ===== src/FileIo/Pages/Attempt/Whole.antt =====
-- put_page on a disk that may have I/O errors, on which a write transfers all its bytes or none.
use nickdb.Base.{
  ℕ, ◌*◌, ◌^◌, ◌≤◌, ◌<◌, ◌≡◌, refl, ◌∙◌, ◌≢◌, ◌⊎◌, inl, inr, false, not, some, arith, ◌==◌, ==_ne,
  ℤ, pos, negsuc, ◌==ℤ◌, ==ℤ_eq, ==ℤ_refl, Bool-cases, ap,
}
use nickdb.Word.{Buffer}
use nickdb.Constants.{page_size, Status, status_ok}
use nickdb.Posix.{Posix, File, Documented, WholeWrites, write_at}
use nickdb.Proc.{Returns}
use nickdb.FileIo.{write_or_return}
use nickdb.FileIo.Pages.{put_page}
use nickdb.FileIo.Pages.Attempt.{holds_of_not}
use nickdb.FileIo.Pages.Run.{index_to_offset-pos}

module _ {W : Type 0} ⦃os : Posix W⦄ (doc : Documented os) (whole : WholeWrites os doc)
    (fd : ℤ) where
  abbrev pub AllOrNothing : Buffer → File → ℕ → Status → W → Type 0
  AllOrNothing src f p code w =
      ((code ≡ status_ok) × (doc.file fd w ≡ some (write_at f (p * page_size) page_size src)))
      ⊎ ((code ≢ status_ok) × (doc.file fd w ≡ some f))

  pub put_page-AllOrNothing :
      (src : Buffer) (w : W) (f : File) (p : ℕ)
      → doc.file fd w ≡ some f
      → 1 ≤ p
      → p < 2 ^ 51
      → Returns (AllOrNothing src f p) (put_page src (some (record { storefd = fd })) (pos p) w)
  unfolding put_page write_or_return
  put_page-AllOrNothing src w f p opened h few =
      let off = p * page_size in
      let real : (off == 0) ≡ false = ==_ne off 0 (omega arith) in
      let seek = os.lseek fd (pos off) w in
      let o1 : doc.file fd seek.1 ≡ some f = doc.lseek-file fd fd (pos off) w ∙ opened in
      let call = os.pwrite fd src page_size (pos off) seek.1 in
      rw (index_to_offset-pos p few, real)
        (elim (Bool-cases (seek.0 ==ℤ negsuc 0)) [
          | inl bad ↦ rw bad (inr (λ e. cc, o1))
          | inr sought ↦ elim (Bool-cases (not (call.0 ==ℤ pos page_size))) [
            | inl short ↦
                rw (sought, short)
                  (inr (
                    λ e. cc,
                    whole.pwrite_nothing fd src page_size off seek.1 f o1 (λ same. cc (
                      short,
                      ap (λ n. not (n ==ℤ pos page_size)) same ∙ ap not (==ℤ_refl (pos page_size)),
                    )),
                  ))
            | inr full ↦
                let all =
                  ==ℤ_eq call.0 (pos page_size) (holds_of_not (call.0 ==ℤ pos page_size) full) in
                rw (sought, full) (inl (refl, doc.pwrite_full fd src page_size off seek.1 f o1 all))
          ]
        ])
