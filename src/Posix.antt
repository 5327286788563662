-- ===== src/Posix.antt =====
-- The system calls of src/lib/fileio.c as an interface: the operations that the code calls, what
-- POSIX says of them, and, apart from that, what a disk without I/O errors does.
pub mod Ram
pub mod Brittle
pub mod Paths
pub mod Disk
use nickdb.Base.{ℕ, ◌+◌, ◌≤◌, ◌≡◌, ◌≢◌, Option, some, List, ℤ, pos, negsuc, ltb, if◌then◌else◌}
use nickdb.Word.{Buffer, zeros, overwrite, shift}

-- `O_CREAT | O_TRUNC | O_RDWR` and `O_RDWR`
pub data OpenFlags : Type 0 where
  create_truncate read_write : OpenFlags

-- `W` is the state of the system. A path ends in a NUL byte. `pread` returns its result and the
-- destination buffer as it leaves it.
pub record Posix (W : Type 0) : Type 0 where
  pub open_file : List ℕ → OpenFlags → W → ℤ × W
  pub close : ℤ → W → ℤ × W
  pub remove : List ℕ → W → ℤ × W
  pub pread : ℤ → Buffer → ℕ → ℤ → W → ℤ × Buffer × W
  pub pwrite : ℤ → Buffer → ℕ → ℤ → W → ℤ × W
  pub lseek : ℤ → ℤ → W → ℤ × W

-- A file: its bytes, 0 from its length on (a write behind the end leaves a hole of zeros), and its
-- length.
pub record File : Type 0 where
  pub bytes : Buffer
  pub size : ℕ

abbrev pub max : ℕ → ℕ → ℕ
max a b = if ltb a b then b else a

-- `n` bytes of `src` written at `off`
abbrev pub write_at : File → ℕ → ℕ → Buffer → File
write_at f off n src = record { bytes = overwrite f.bytes off n src; size = max f.size (off + n) }

-- What the calls promise: `file fd w` is the file that is open behind `fd`, if one is. A read or seek
-- never changes any; a read or write that reports all its bytes has transferred them all.
pub record Documented {W : Type 0} (os : Posix W) : Type 0 where
  pub file : ℤ → W → Option File
  pub open_empty :
      (path : List ℕ) (w : W)
      → (os.open_file path create_truncate w).0 ≢ negsuc 0
      → file (os.open_file path create_truncate w).0 (os.open_file path create_truncate w).1
        ≡ some (record { bytes = zeros; size = 0 })
  pub pread-file :
      (fd' fd : ℤ) (dest : Buffer) (n : ℕ) (off : ℤ) (w : W)
      → file fd' (os.pread fd dest n off w).2 ≡ file fd' w
  pub pread_full :
      (fd : ℤ) (dest : Buffer) (n off : ℕ) (w : W) (f : File)
      → file fd w ≡ some f
      → (os.pread fd dest n (pos off) w).0 ≡ pos n
      → (os.pread fd dest n (pos off) w).1 ≡ overwrite dest 0 n (shift f.bytes off)
  pub pwrite_full :
      (fd : ℤ) (src : Buffer) (n off : ℕ) (w : W) (f : File)
      → file fd w ≡ some f
      → (os.pwrite fd src n (pos off) w).0 ≡ pos n
      → file fd (os.pwrite fd src n (pos off) w).1 ≡ some (write_at f off n src)
  pub lseek-file : (fd' fd off : ℤ) (w : W) → file fd' (os.lseek fd off w).1 ≡ file fd' w

-- No I/O error: a read inside the file and a write at any offset transfer all their bytes, and a
-- seek to an offset that is not negative succeeds.
pub record Reliable {W : Type 0} (os : Posix W) (doc : Documented os) : Type 0 where
  pub pread_ok :
      (fd : ℤ) (dest : Buffer) (n off : ℕ) (w : W) (f : File)
      → doc.file fd w ≡ some f
      → off + n ≤ f.size
      → (os.pread fd dest n (pos off) w).0 ≡ pos n
  pub pwrite_ok :
      (fd : ℤ) (src : Buffer) (n off : ℕ) (w : W) (f : File)
      → doc.file fd w ≡ some f
      → (os.pwrite fd src n (pos off) w).0 ≡ pos n
  pub lseek_ok :
      (fd : ℤ) (off : ℕ) (w : W) (f : File)
      → doc.file fd w ≡ some f
      → (os.lseek fd (pos off) w).0 ≡ pos off

-- Every write transfers all its bytes or changes nothing.
pub record WholeWrites {W : Type 0} (os : Posix W) (doc : Documented os) : Type 0 where
  pub pwrite_nothing :
      (fd : ℤ) (src : Buffer) (n off : ℕ) (w : W) (f : File)
      → doc.file fd w ≡ some f
      → (os.pwrite fd src n (pos off) w).0 ≢ pos n
      → doc.file fd (os.pwrite fd src n (pos off) w).1 ≡ some f
