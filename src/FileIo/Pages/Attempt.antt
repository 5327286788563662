-- ===== src/FileIo/Pages/Attempt.antt =====
-- One rule for each system call of src/lib/fileio.c on a disk that may have I/O errors: either all
-- bytes are transferred, or the function returns its error.
pub mod Alloc
pub mod Free
pub mod Serve
pub mod Access
pub mod Whole
use nickdb.Base.{
  ℕ, ◌≡◌, refl, ◌∙◌, Bool, not, true, false, some, Bool-cases, inl, inr, ℤ, pos, negsuc, ◌==ℤ◌,
  ==ℤ_eq,
}
use nickdb.Word.{Buffer, overwrite, shift}
use nickdb.Posix.{Posix, File, Documented, write_at}
use nickdb.Proc.{Body, and_then, return_if, outcome, Returns}
use nickdb.FileIo.{read_or_return, write_or_return}

pub holds_of_not : (b : Bool) → not b ≡ false → b ≡ true
holds_of_not true h = refl
holds_of_not false h = cc

module _ {W : Type 0} ⦃os : Posix W⦄ (doc : Documented os) {R : Type 0} (P : R → W → Type 0)
    (fd : ℤ) where
  pub attempt_read :
      (dest : Buffer) (n off : ℕ) (failed : R) (w : W) (f : File) (k : Buffer → Body W R R)
      → doc.file fd w ≡ some f
      → ((w' : W) → P failed w')
      → ((w' : W)
          → doc.file fd w' ≡ some f
          → Returns P (outcome (k (overwrite dest 0 n (shift f.bytes off)) w')))
      → Returns P (outcome (and_then (read_or_return fd dest n (pos off) failed w) k))
  unfolding read_or_return
  attempt_read dest n off failed w f k opened h rest =
      let call = os.pread fd dest n (pos off) w in
      elim (Bool-cases (not (call.0 ==ℤ pos n))) [
        | inl short ↦ rw short (h _)
        | inr full ↦
            let all = ==ℤ_eq call.0 (pos n) (holds_of_not (call.0 ==ℤ pos n) full) in
            rw (full, doc.pread_full fd dest n off w f opened all)
              (rest call.2 (doc.pread-file fd fd dest n (pos off) w ∙ opened))
      ]

  pub attempt_write :
      (src : Buffer) (n off : ℕ) (failed : R) (w : W) (f : File) (k : Unit {0} → Body W R R)
      → doc.file fd w ≡ some f
      → ((w' : W) → P failed w')
      → ((w' : W) → doc.file fd w' ≡ some (write_at f off n src) → Returns P (outcome (k tt w')))
      → Returns P (outcome (and_then (write_or_return fd src n (pos off) failed w) k))
  unfolding write_or_return
  attempt_write src n off failed w f k opened h rest =
      let call = os.pwrite fd src n (pos off) w in
      elim (Bool-cases (not (call.0 ==ℤ pos n))) [
        | inl short ↦ rw short (h _)
        | inr full ↦
            let all = ==ℤ_eq call.0 (pos n) (holds_of_not (call.0 ==ℤ pos n) full) in
            rw full (rest call.1 (doc.pwrite_full fd src n off w f opened all))
      ]

  pub attempt_seek :
      (off : ℤ) (failed : R) (w : W) (f : File) (k : Unit {0} → Body W R R)
      → doc.file fd w ≡ some f
      → ((w' : W) → P failed w')
      → ((w' : W) → doc.file fd w' ≡ some f → Returns P (outcome (k tt w')))
      → Returns P (
          outcome (
            and_then
              (return_if ((os.lseek fd off w).0 ==ℤ negsuc 0) failed (os.lseek fd off w).1)
              k))
  attempt_seek off failed w f k opened h rest =
      elim (Bool-cases ((os.lseek fd off w).0 ==ℤ negsuc 0)) [
        | inl bad ↦ rw bad (h _)
        | inr good ↦ rw good (rest _ (doc.lseek-file fd fd off w ∙ opened))
      ]
