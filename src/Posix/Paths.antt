-- ===== src/Posix/Paths.antt =====
-- What POSIX says of files by their paths: a file outlives the descriptors through which it is used.
use nickdb.Base.{ℕ, ◌≡◌, ◌≢◌, Option, none, some, List, ℤ, pos, negsuc}
use nickdb.Word.{Buffer}
use nickdb.Posix.{Posix, File, Documented, OpenFlags, read_write}

-- `name fd w` is the path by which `fd` was opened, if it is open, and `stored path w` the file at
-- that path, if there is one.
pub record Paths {W : Type 0} (os : Posix W) (doc : Documented os) : Type 0 where
  pub name : ℤ → W → Option (List ℕ)
  pub stored : List ℕ → W → Option File
  pub file-stored :
      (fd : ℤ) (path : List ℕ) (w : W) → name fd w ≡ some path → doc.file fd w ≡ stored path w
  pub open-name :
      (path : List ℕ) (flags : OpenFlags) (w : W)
      → (os.open_file path flags w).0 ≢ negsuc 0
      → name (os.open_file path flags w).0 (os.open_file path flags w).1 ≡ some path
  pub open-stored :
      (path : List ℕ) (w : W) → stored path (os.open_file path read_write w).1 ≡ stored path w
  pub pread-name :
      (fd' fd : ℤ) (dest : Buffer) (n : ℕ) (off : ℤ) (w : W)
      → name fd' (os.pread fd dest n off w).2 ≡ name fd' w
  pub pwrite-name :
      (fd' fd : ℤ) (src : Buffer) (n : ℕ) (off : ℤ) (w : W)
      → name fd' (os.pwrite fd src n off w).1 ≡ name fd' w
  pub lseek-name : (fd' fd off : ℤ) (w : W) → name fd' (os.lseek fd off w).1 ≡ name fd' w
  pub close-stored :
      (path : List ℕ) (fd : ℤ) (w : W) → stored path (os.close fd w).1 ≡ stored path w
  pub remove_gone :
      (path : List ℕ) (w : W)
      → (os.remove path w).0 ≡ pos 0
      → stored path (os.remove path w).1 ≡ none

-- No failure: a file that is there can be opened and removed, and an open file can be closed.
pub record ReliablePaths {W : Type 0} (os : Posix W) (doc : Documented os) (paths : Paths os doc)
    : Type 0 where
  pub open_ok :
      (path : List ℕ) (w : W) (f : File)
      → paths.stored path w ≡ some f
      → (os.open_file path read_write w).0 ≢ negsuc 0
  pub close_ok : (fd : ℤ) (w : W) (f : File) → doc.file fd w ≡ some f → (os.close fd w).0 ≡ pos 0
  pub remove_ok :
      (path : List ℕ) (w : W) (f : File)
      → paths.stored path w ≡ some f
      → (os.remove path w).0 ≡ pos 0
