-- ===== src/Posix/Brittle.antt =====
-- A disk with one file that takes a number of writes and refuses all others.
use nickdb.Base.{ℕ, zero, suc, ◌≡◌, ◌≢◌, refl, some, ℤ, pos, negsuc}
use nickdb.Word.{Buffer}
use nickdb.Posix.{Posix, File, Documented, WholeWrites, write_at}
use nickdb.Posix.Ram.{
  Ram, ram, file_behind, ram-open_empty, ram-pread_full, ram-pwrite_ok, ram-pwrite_full,
  ram-lseek-file,
}

pub record Brittle : Type 0 where
  pub content : Ram
  pub writes : ℕ

abbrev pub brittle_pwrite : ℤ → Buffer → ℕ → ℤ → Brittle → ℤ × Brittle
brittle_pwrite fd src n off d = elim d.writes [
  | zero ↦ (negsuc 0, d)
  | suc left ↦ (
    (ram.pwrite fd src n off d.content).0,
    record { content = (ram.pwrite fd src n off d.content).1; writes = left },
  )
]

instance abbrev pub brittle : Posix Brittle
brittle = record {
  open_file = λ p flags d. (
    (ram.open_file p flags d.content).0,
    record d { content = (ram.open_file p flags d.content).1 },
  );
  close = λ fd d. ((ram.close fd d.content).0, d);
  remove = λ p d. ((ram.remove p d.content).0, record d { content = (ram.remove p d.content).1 });
  pread = λ fd dest n off d.
      ((ram.pread fd dest n off d.content).0, (ram.pread fd dest n off d.content).1, d);
  pwrite = brittle_pwrite;
  lseek = λ fd off d.
      ((ram.lseek fd off d.content).0, record d { content = (ram.lseek fd off d.content).1 });
}

pub brittle-pwrite_full :
    (fd : ℤ) (src : Buffer) (n off left : ℕ) (c : Ram) (f : File)
    → file_behind fd c ≡ some f
    → (brittle.pwrite fd src n (pos off) (record { content = c; writes = left })).0 ≡ pos n
    → file_behind fd
        (brittle.pwrite fd src n (pos off) (record { content = c; writes = left })).1.content
      ≡ some (write_at f off n src)
brittle-pwrite_full fd src n off zero c f e h = cc
brittle-pwrite_full fd src n off (suc left) c f e h = ram-pwrite_full fd src n off c f e h

abbrev pub brittle_documented : Documented brittle
brittle_documented = record {
  file = λ fd d. file_behind fd d.content;
  open_empty = λ p d h. ram-open_empty p d.content h;
  pread-file = λ fd' fd dest n off d. refl;
  pread_full = λ fd dest n off d f e h. ram-pread_full fd dest n off d.content f e h;
  pwrite_full = λ fd src n off d f e h. brittle-pwrite_full fd src n off d.writes d.content f e h;
  lseek-file = λ fd' fd off d. ram-lseek-file fd' fd off d.content;
}

pub brittle-pwrite_nothing :
    (fd : ℤ) (src : Buffer) (n off left : ℕ) (c : Ram) (f : File)
    → file_behind fd c ≡ some f
    → (brittle.pwrite fd src n (pos off) (record { content = c; writes = left })).0 ≢ pos n
    → file_behind fd
        (brittle.pwrite fd src n (pos off) (record { content = c; writes = left })).1.content
      ≡ some f
brittle-pwrite_nothing fd src n off zero c f e h = e
brittle-pwrite_nothing fd src n off (suc left) c f e h =
    absurd (h (ram-pwrite_ok fd src n off c f e))

abbrev pub brittle_whole : WholeWrites brittle brittle_documented
brittle_whole = record {
  pwrite_nothing =
      λ fd src n off d f e h. brittle-pwrite_nothing fd src n off d.writes d.content f e h;
}
