-- ===== src/BufferManager/ListTests.antt =====
-- A manager with a free frame, a pinned one and one to write back, and the theorems at it.
use nickdb.Base.{ℕ, ◌+◌, ◌≡◌, refl, none, some, [], ◌∷◌, ◌==◌, if◌then◌else◌, arith, pos}
use nickdb.Constants.{fs_pinned, fs_unpinned, fs_unpinned_dirty, status_ok}
use nickdb.Posix.{File}
use nickdb.Posix.Ram.{Ram, ram, ram_fd, ram_documented, ram_reliable}
use nickdb.Posix.Brittle.{Brittle, brittle, brittle_documented, brittle_whole}
use nickdb.Proc.{ret, Returns}
use nickdb.BufferManager.{Manager, MetaFrame, slot, get_frame_index_from_meta, frame_at, buff_unpin}
use nickdb.BufferManager.Address.{Placed}
use nickdb.BufferManager.Calls.{init_metaframes, buff_destroy, buff_flush_all}
use nickdb.BufferManager.Flush.{Flushed, buff_flush_all-Flushed}
use nickdb.BufferManager.Flush.Attempt.{Attempted}
use nickdb.BufferManager.Flush.Refused.{buff_flush_all-Attempted}
use nickdb.BufferManager.Lists.{WellFormed}
use nickdb.BufferManager.Release.{Kept}
use nickdb.BufferManager.Table.{Entries, entries, entries_laws}
use nickdb.BufferManager.Unused.{buff_destroy-init_metaframes}
use nickdb.Posix.Disk.{Disk, disk, disk_documented, disk_paths, disk_reliable_paths}
use nickdb.BufferManager.Unpin.{buff_unpin-Released}

abbrev disk_pages : File
disk_pages = record { bytes = λ i. i; size = 12288 }

abbrev cells : ℕ → MetaFrame
cells i =
    if i == 0
    then record { state = fs_unpinned; index = pos 0; next_free_or_dirty = 0 }
    else if i == 1
    then record { state = fs_pinned; index = pos 1; next_free_or_dirty = 0 }
    else record { state = fs_unpinned_dirty; index = pos 2; next_free_or_dirty = 0 }

abbrev pub mixed : Manager Entries
mixed = record {
  store = some (record { storefd = ram_fd });
  frames = 3;
  buffer_at = 65536;
  buffer = λ i k. i;
  metaframes_at = 1000;
  metaframes = cells;
  freelist = 1000;
  writeback = 1048;
  lookup_table = (7000, 7008) ∷ [];
}

mixed-Placed : Placed mixed
mixed-Placed = record {
  meta_above = omega arith;
  meta_below = omega arith;
  frame_above = omega arith;
  frame_below = omega arith;
}

head_slot : slot mixed 1000 ≡ some 0
unfolding slot get_frame_index_from_meta
head_slot = refl

mixed-WellFormed : WellFormed mixed (0 ∷ []) (2 ∷ [])
unfolding slot get_frame_index_from_meta
mixed-WellFormed = record {
  placed = mixed-Placed;
  free_listed = (omega arith, refl, refl, refl);
  dirty_listed = (omega arith, refl, refl, refl);
}

buff_unpin-Released_example :
    (man' : Manager Entries) × (buff_unpin 9000
        (some mixed)
        (frame_at mixed 1 + 5)
        (some disk_pages)
      ≡ ret (status_ok, some man') (some disk_pages))
    × WellFormed man' (1 ∷ 0 ∷ []) (2 ∷ [])
    × Kept 1 mixed man'
buff_unpin-Released_example =
    buff_unpin-Released entries_laws 9000 mixed (0 ∷ []) (2 ∷ []) 1 5 (some disk_pages)
      mixed-WellFormed (omega arith) (omega arith) refl

buff_flush_all-Flushed_example :
    (w' : Ram) × (f' : File) × (man' : Manager Entries) × (buff_flush_all
        (some mixed)
        (some disk_pages)
      ≡ ret (status_ok, some man') w')
    × (ram_documented.file ram_fd w' ≡ some f')
    × Flushed mixed (2 ∷ []) (2 ∷ []) disk_pages f' man'
buff_flush_all-Flushed_example =
    buff_flush_all-Flushed ram_documented ram_reliable ram_fd mixed (0 ∷ []) (2 ∷ []) (2 ∷ [])
      (some disk_pages) disk_pages refl refl mixed-WellFormed
      (refl, omega arith, omega arith, refl, tt)

-- The same on a disk that refuses every write.
abbrev refusing : Brittle
refusing = record { content = some disk_pages; writes = 0 }

buff_flush_all-Attempted_example :
    Returns
      (λ r w'.
        (man' : Manager Entries) × (f' : File) × (r ≡ (status_ok, some man'))
        × (brittle_documented.file ram_fd w' ≡ some f')
        × Attempted mixed (2 ∷ []) (2 ∷ []) disk_pages f' man')
      (buff_flush_all (some mixed) refusing)
buff_flush_all-Attempted_example =
    buff_flush_all-Attempted brittle_documented brittle_whole ram_fd mixed (0 ∷ []) (2 ∷ [])
      (2 ∷ []) refusing disk_pages refl refl mixed-WellFormed
      (refl, omega arith, omega arith, refl, tt)

abbrev unlinked : Manager Entries
unlinked = record mixed {
  metaframes = λ i. record { state = fs_pinned; index = pos 0; next_free_or_dirty = 0 };
  writeback = 0;
  lookup_table = [];
}

abbrev unlinked_disk : Disk
unlinked_disk = record { content = some disk_pages; path = b'a' ∷ [] }

buff_destroy-init_metaframes_example :
    WellFormed (init_metaframes 3 0 unlinked) (0 ∷ 1 ∷ 2 ∷ []) []
    × (buff_flush_all (some (init_metaframes 3 0 unlinked)) unlinked_disk
        ≡ ret (status_ok, some (init_metaframes 3 0 unlinked)) unlinked_disk)
    × ((w' : Disk) × (buff_destroy (some (some (init_metaframes 3 0 unlinked))) unlinked_disk
          ≡ ret (status_ok, some none) w')
        × (disk_paths.stored (b'a' ∷ []) w' ≡ some disk_pages))
buff_destroy-init_metaframes_example =
    buff_destroy-init_metaframes entries_laws disk_documented disk_paths disk_reliable_paths
      unlinked ram_fd (b'a' ∷ []) unlinked_disk disk_pages
      (record {
        meta_above = omega arith;
        meta_below = omega arith;
        frame_above = omega arith;
        frame_below = omega arith;
      })
      (omega arith) refl refl refl refl refl refl
