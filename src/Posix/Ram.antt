-- ===== src/Posix/Ram.antt =====
-- A system in memory, with one file that opens as number 3: the
-- interface and its promises can be met.
use nickdb.Base.{
  ℕ, ◌+◌, ◌≤◌, ◌≡◌, refl, ◌≢◌, Option, none, some, List, ℤ, pos, negsuc, ◌==ℤ◌, leb, if◌then◌else◌,
  arith,
}
use nickdb.Word.{Buffer, zeros, overwrite, shift}
use nickdb.Posix.{
  Posix, File, Documented, Reliable, write_at, OpenFlags, create_truncate, read_write,
}

-- The file, if it has been created.
abbrev pub Ram : Type 0
Ram = Option File

abbrev pub ram_fd : ℤ
ram_fd = pos 3

abbrev empty_file : File
empty_file = record { bytes = zeros; size = 0 }

abbrev pub file_behind : ℤ → Ram → Option File
file_behind fd w = if fd ==ℤ ram_fd then w else none

abbrev pub ram_open : List ℕ → OpenFlags → Ram → ℤ × Ram
ram_open path create_truncate w = (ram_fd, some empty_file)
ram_open path read_write none = (negsuc 0, none)
ram_open path read_write (some f) = (ram_fd, some f)

abbrev ram_remove : Ram → ℤ × Ram
ram_remove none = (negsuc 0, none)
ram_remove (some f) = (pos 0, none)

abbrev read_file : Option File → Buffer → ℕ → ℤ → ℤ × Buffer
read_file none dest n off = (negsuc 0, dest)
read_file (some f) dest n (negsuc off) = (negsuc 0, dest)
read_file (some f) dest n (pos off) =
    if leb (off + n) f.size
    then (pos n, overwrite dest 0 n (shift f.bytes off))
    else (negsuc 0, dest)

abbrev ram_pread : ℤ → Buffer → ℕ → ℤ → Ram → ℤ × Buffer × Ram
ram_pread fd dest n off w = let (r, d) = read_file (file_behind fd w) dest n off in (r, d, w)

abbrev write_file : Option File → Buffer → ℕ → ℤ → Ram → ℤ × Ram
write_file none src n off w = (negsuc 0, w)
write_file (some f) src n (negsuc off) w = (negsuc 0, w)
write_file (some f) src n (pos off) w = (pos n, some (write_at f off n src))

abbrev ram_lseek : ℤ → ℤ → Ram → ℤ × Ram
ram_lseek fd (pos off) w = (pos off, w)
ram_lseek fd (negsuc off) w = (negsuc 0, w)

instance abbrev pub ram : Posix Ram
ram = record {
  open_file = ram_open;
  close = λ fd w. (if fd ==ℤ ram_fd then pos 0 else negsuc 0, w);
  remove = λ path. ram_remove;
  pread = ram_pread;
  pwrite = λ fd src n off w. write_file (file_behind fd w) src n off w;
  lseek = ram_lseek;
}

pub ram-open_empty :
    (path : List ℕ) (w : Ram)
    → (ram.open_file path create_truncate w).0 ≢ negsuc 0
    → file_behind (ram.open_file path create_truncate w).0 (ram.open_file path create_truncate w).1
      ≡ some empty_file
ram-open_empty path w h = refl

pub ram-pread_full :
    (fd : ℤ) (dest : Buffer) (n off : ℕ) (w : Ram) (f : File)
    → file_behind fd w ≡ some f
    → (ram.pread fd dest n (pos off) w).0 ≡ pos n
    → (ram.pread fd dest n (pos off) w).1 ≡ overwrite dest 0 n (shift f.bytes off)
ram-pread_full fd dest n off w f e h = ground arith

pub ram-pread_ok :
    (fd : ℤ) (dest : Buffer) (n off : ℕ) (w : Ram) (f : File)
    → file_behind fd w ≡ some f
    → off + n ≤ f.size
    → (ram.pread fd dest n (pos off) w).0 ≡ pos n
ram-pread_ok fd dest n off w f e h = ground arith

pub ram-pwrite_ok :
    (fd : ℤ) (src : Buffer) (n off : ℕ) (w : Ram) (f : File)
    → file_behind fd w ≡ some f
    → (ram.pwrite fd src n (pos off) w).0 ≡ pos n
ram-pwrite_ok fd src n off w f e = ground arith

pub ram-pwrite_full :
    (fd : ℤ) (src : Buffer) (n off : ℕ) (w : Ram) (f : File)
    → file_behind fd w ≡ some f
    → (ram.pwrite fd src n (pos off) w).0 ≡ pos n
    → file_behind fd (ram.pwrite fd src n (pos off) w).1 ≡ some (write_at f off n src)
ram-pwrite_full fd src n off w f e h = ground arith

pub ram-lseek-file :
    (fd' fd off : ℤ) (w : Ram) → file_behind fd' (ram.lseek fd off w).1 ≡ file_behind fd' w
ram-lseek-file fd' fd (pos off) w = refl
ram-lseek-file fd' fd (negsuc off) w = refl

abbrev pub ram_documented : Documented ram
ram_documented = record {
  file = file_behind;
  open_empty = ram-open_empty;
  pread-file = λ fd' fd dest n off w. refl;
  pread_full = ram-pread_full;
  pwrite_full = ram-pwrite_full;
  lseek-file = ram-lseek-file;
}

abbrev pub ram_reliable : Reliable ram ram_documented
ram_reliable = record {
  pread_ok = ram-pread_ok;
  pwrite_ok = ram-pwrite_ok;
  lseek_ok = λ fd off w f e. refl;
}
