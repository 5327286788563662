-- ===== src/Posix/Disk.antt =====
-- A disk with one file, whatever its path, that remembers by which path it was opened.
use nickdb.Base.{
  ℕ, ◌≡◌, refl, ◌≢◌, Option, none, some, List, ℤ, pos, negsuc, ◌==ℤ◌, if◌then◌else◌, arith,
}
use nickdb.Posix.{Posix, File, Documented, Reliable, OpenFlags, create_truncate, read_write}
use nickdb.Posix.Paths.{Paths, ReliablePaths}
use nickdb.Posix.Ram.{
  Ram, ram, ram_fd, file_behind, ram_open, ram-open_empty, ram-pread_full, ram-pread_ok,
  ram-pwrite_ok, ram-pwrite_full, ram-lseek-file,
}

pub record Disk : Type 0 where
  pub content : Ram
  pub path : List ℕ

instance abbrev pub disk : Posix Disk
disk = record {
  open_file = λ p flags d. (
    (ram.open_file p flags d.content).0,
    record { content = (ram.open_file p flags d.content).1; path = p },
  );
  close = λ fd d. ((ram.close fd d.content).0, d);
  remove = λ p d. ((ram.remove p d.content).0, record d { content = (ram.remove p d.content).1 });
  pread = λ fd dest n off d.
      ((ram.pread fd dest n off d.content).0, (ram.pread fd dest n off d.content).1, d);
  pwrite = λ fd src n off d. (
    (ram.pwrite fd src n off d.content).0,
    record d { content = (ram.pwrite fd src n off d.content).1 },
  );
  lseek = λ fd off d.
      ((ram.lseek fd off d.content).0, record d { content = (ram.lseek fd off d.content).1 });
}

abbrev pub disk_documented : Documented disk
disk_documented = record {
  file = λ fd d. file_behind fd d.content;
  open_empty = λ p d h. ram-open_empty p d.content h;
  pread-file = λ fd' fd dest n off d. refl;
  pread_full = λ fd dest n off d f e h. ram-pread_full fd dest n off d.content f e h;
  pwrite_full = λ fd src n off d f e h. ram-pwrite_full fd src n off d.content f e h;
  lseek-file = λ fd' fd off d. ram-lseek-file fd' fd off d.content;
}

abbrev pub disk_reliable : Reliable disk disk_documented
disk_reliable = record {
  pread_ok = λ fd dest n off d f e h. ram-pread_ok fd dest n off d.content f e h;
  pwrite_ok = λ fd src n off d f e. ram-pwrite_ok fd src n off d.content f e;
  lseek_ok = λ fd off d f e. refl;
}

abbrev pub name_of : ℤ → Disk → Option (List ℕ)
name_of fd d = if fd ==ℤ ram_fd then some d.path else none

pub disk-file_stored :
    (fd : ℤ) (p : List ℕ) (d : Disk) → name_of fd d ≡ some p → file_behind fd d.content ≡ d.content
disk-file_stored fd p d e = ground arith

-- The file that is opened without O_TRUNC is as it was, and opens if it is there.
ram_open-name :
    (p : List ℕ) (c : Ram)
    → (ram_open p read_write c).0 ≢ negsuc 0
    → name_of
        (ram_open p read_write c).0
        (record { content = (ram_open p read_write c).1; path = p })
      ≡ some p
ram_open-name p none h = absurd (h refl)
ram_open-name p (some f) h = refl

pub ram_open-same : (p : List ℕ) (c : Ram) → (ram_open p read_write c).1 ≡ c
ram_open-same p none = refl
ram_open-same p (some f) = refl

pub ram_open_ok :
    (p : List ℕ) (c : Ram) (f : File) → c ≡ some f → (ram_open p read_write c).0 ≢ negsuc 0
ram_open_ok p none f e h = cc
ram_open_ok p (some f') f e h = cc

pub ram_remove_ok : (p : List ℕ) (c : Ram) (f : File) → c ≡ some f → (ram.remove p c).0 ≡ pos 0
ram_remove_ok p none f e = cc
ram_remove_ok p (some f') f e = refl

pub ram-remove_gone :
    (p : List ℕ) (c : Ram) → (ram.remove p c).0 ≡ pos 0 → (ram.remove p c).1 ≡ none
ram-remove_gone p none h = refl
ram-remove_gone p (some f) h = refl

pub disk-open_name :
    (p : List ℕ) (flags : OpenFlags) (d : Disk)
    → (disk.open_file p flags d).0 ≢ negsuc 0
    → name_of (disk.open_file p flags d).0 (disk.open_file p flags d).1 ≡ some p
disk-open_name p create_truncate d h = refl
disk-open_name p read_write d h = ram_open-name p d.content h

pub disk_close_ok :
    (fd : ℤ) (d : Disk) (f : File) → file_behind fd d.content ≡ some f → (disk.close fd d).0 ≡ pos 0
disk_close_ok fd d f e = ground arith

abbrev pub disk_paths : Paths disk disk_documented
disk_paths = record {
  name = name_of;
  stored = λ p d. d.content;
  file-stored = disk-file_stored;
  open-name = disk-open_name;
  open-stored = λ p d. ram_open-same p d.content;
  pread-name = λ fd' fd dest n off d. refl;
  pwrite-name = λ fd' fd src n off d. refl;
  lseek-name = λ fd' fd off d. refl;
  close-stored = λ p fd d. refl;
  remove_gone = λ p d h. ram-remove_gone p d.content h;
}

abbrev pub disk_reliable_paths : ReliablePaths disk disk_documented disk_paths
disk_reliable_paths = record {
  open_ok = λ p d f e. ram_open_ok p d.content f e;
  close_ok = disk_close_ok;
  remove_ok = λ p d f e. ram_remove_ok p d.content f e;
}
