-- ===== src/BufferManager/Tests.antt =====
-- Runs of the buffer manager in memory, and the theorems at them.
use nickdb.Base.{
  ◌<◌, ℕ, ◌≡◌, ◌≢◌, refl, none, some, List, [], ◌∷◌, ◌==◌, if◌then◌else◌, arith, ℤ, pos,
}
use nickdb.Word.{Buffer, zeros, overwrite, shift}
use nickdb.Constants.{page_size, fs_pinned, fs_unpinned, status_ok}
use nickdb.Posix.{File}
use nickdb.Posix.Ram.{Ram, ram, ram_fd, ram_documented, ram_reliable}
use nickdb.Proc.{ret, fault}
use nickdb.FileIo.{index_to_offset, store_filename, open_backing, close_backing}
use nickdb.FileIo.Pages.{get_page}
use nickdb.BufferManager.{
  Manager, update, pin_in, fetch_page, copy_next, frame_at, slot, get_frame_index_from_meta,
  buff_pin, buff_unpin, buff_mark_page,
}
use nickdb.BufferManager.Address.{Placed}
use nickdb.BufferManager.Cycle.{buff_unpin-not_Links}
use nickdb.BufferManager.Calls.{buff_destroy, buff_flush_all}
use nickdb.FileIo.Pages.View.{page}
use nickdb.BufferManager.Round.{Rounds}
use nickdb.BufferManager.Reopen.{get_page-changed}
use nickdb.Posix.Disk.{Disk, disk, disk_documented, disk_reliable, disk_paths, disk_reliable_paths}
use nickdb.BufferManager.Destroy.{buff_destroy-after_pin}
use nickdb.BufferManager.Dirty.{buff_pin-after_dirty}
use nickdb.BufferManager.Links.{Links}
use nickdb.BufferManager.Load.{Loaded, buff_pin-Loaded}
use nickdb.BufferManager.Table.{Entries, entries, entries_laws}
use nickdb.BufferManager.Pin.{buff_pin-same_frame}
use nickdb.BufferManager.Stale.{buff_pin-stale}

-- A store of three pages, and a manager of three frames, all of them free.
abbrev pub three_pages : File
three_pages = record { bytes = λ i. i; size = 12288 }

abbrev pub three_frames : Manager Entries
three_frames = record {
  store = some (record { storefd = ram_fd });
  frames = 3;
  buffer_at = 65536;
  buffer = λ _. zeros;
  metaframes_at = 1000;
  metaframes = λ i. record {
    state = fs_unpinned;
    index = pos 0;
    next_free_or_dirty = if i == 0 then 1024 else if i == 1 then 1048 else 0;
  };
  freelist = 1000;
  writeback = 0;
  lookup_table = [];
}

pub three_frames-Placed : Placed three_frames
three_frames-Placed = record {
  meta_above = omega arith;
  meta_below = omega arith;
  frame_above = omega arith;
  frame_below = omega arith;
}

pub head_slot : slot three_frames 1000 ≡ some 0
unfolding slot get_frame_index_from_meta
head_slot = refl

pub next_slot : slot three_frames 1024 ≡ some 1
unfolding slot get_frame_index_from_meta
next_slot = refl

buff_pin-Loaded_example :
    (w' : Ram) × (man' : Manager Entries) × (buff_pin 7000 7008
        (some three_frames)
        (pos 2)
        (some three_pages)
      ≡ ret (status_ok, some 65536, some man') w')
    × (ram_documented.file ram_fd w' ≡ some three_pages)
    × Loaded three_frames 0 1 2 three_pages.bytes man'
    × (man'.lookup_table ≡ (7000, 7008) ∷ [])
buff_pin-Loaded_example =
    buff_pin-Loaded ram_documented ram_reliable entries_laws 7000 7008 three_frames ram_fd
      (some three_pages) three_pages 2 0 1 refl refl (omega arith) (omega arith) (omega arith)
      (omega arith) head_slot next_slot refl

buff_unpin-not_Links_example :
    (w' : Ram) × (man1 man2 : Manager Entries) × (buff_pin 7000 7008
        (some three_frames)
        (pos 2)
        (some three_pages)
      ≡ ret (status_ok, some 65536, some man1) w')
    × (buff_unpin 9000 (some man1) 65536 w' ≡ ret (status_ok, some man2) w')
    × ((xs : List ℕ) → ¬ Links man2 man2.freelist xs)
buff_unpin-not_Links_example =
    buff_unpin-not_Links entries_laws ram_documented ram_reliable 7000 7008 9000 three_frames ram_fd
      (some three_pages) three_pages 2 0 1 refl refl (omega arith) (omega arith) (omega arith)
      three_frames-Placed (omega arith) head_slot next_slot refl refl (omega arith)

-- What is left of it when page 2 is pinned, with an entry whose key is the address 7000.
abbrev pub one_pinned : Manager Entries
one_pinned = record three_frames {
  buffer =
      update three_frames.buffer 0 (overwrite zeros 0 page_size (shift three_pages.bytes 8192));
  metaframes =
      update (update three_frames.metaframes 0 (three_frames.metaframes 1)) 0
        (record { state = fs_pinned; index = pos 2; next_free_or_dirty = 1048 });
  lookup_table = (7000, 7008) ∷ [];
}

first_pin :
    buff_pin 7000 7008 (some three_frames) (pos 2) (some three_pages)
    ≡ ret (status_ok, some 65536, some one_pinned) (some three_pages)
unfolding buff_pin pin_in fetch_page copy_next slot get_frame_index_from_meta get_page
    index_to_offset
first_pin = refl

-- What is left when page 1 is pinned next, from locals at other addresses: frame 0 again.
abbrev two_pinned : Manager Entries
two_pinned = record one_pinned {
  buffer =
      update one_pinned.buffer 0
        (overwrite (one_pinned.buffer 0) 0 page_size (shift three_pages.bytes 4096));
  metaframes =
      update (update one_pinned.metaframes 0 (one_pinned.metaframes 2)) 0
        (record { state = fs_pinned; index = pos 1; next_free_or_dirty = 0 });
  lookup_table = (7016, 7024) ∷ (7000, 7008) ∷ [];
}

second_pin :
    buff_pin 7016 7024 (some one_pinned) (pos 1) (some three_pages)
    ≡ ret (status_ok, some 65536, some two_pinned) (some three_pages)
unfolding buff_pin pin_in fetch_page copy_next slot get_frame_index_from_meta get_page
    index_to_offset
second_pin = refl

buff_pin-same_frame_example : frame_at three_frames 0 ≡ frame_at one_pinned 0
buff_pin-same_frame_example =
    buff_pin-same_frame 7000 7008 7016 7024 three_frames one_pinned two_pinned (pos 2) (pos 1)
      (some three_pages) (some three_pages) (some three_pages) (some three_pages) 65536 65536
      first_pin second_pin

buff_pin-stale_example :
    buff_pin 7000 7016 (some one_pinned) (pos 1) (some three_pages)
    ≡ ret
        (
          status_ok,
          some (frame_at three_frames (get_frame_index_from_meta three_frames 1000)),
          some one_pinned,
        )
        (some three_pages)
buff_pin-stale_example =
    buff_pin-stale entries_laws 7000 7008 7016 three_frames one_pinned (pos 2) (pos 1)
      (some three_pages) (some three_pages) (some three_pages) status_ok (some 65536) refl
      (omega arith) (λ e. cc) (λ e. cc) (omega arith) first_pin

buff_pin-after_dirty_example :
    (w' : Ram) × (man1 man2 man3 : Manager Entries) × (buff_pin 7000 7008
        (some three_frames)
        (pos 2)
        (some three_pages)
      ≡ ret (status_ok, some 65536, some man1) w')
    × (buff_mark_page (some man1) 65536 w' ≡ ret (status_ok, some man2) w')
    × (buff_unpin 9000 (some man2) 65536 w' ≡ ret (status_ok, some man3) w')
    × (buff_pin 7016 7024 (some man3) (pos 1) w' ≡ fault)
buff_pin-after_dirty_example =
    buff_pin-after_dirty ram_documented ram_reliable entries_laws 7000 7008 9000 7016 7024
      three_frames ram_fd (some three_pages) three_pages 2 1 0 1 refl refl (omega arith)
      (omega arith) (omega arith) (omega arith) (omega arith) (omega arith) three_frames-Placed
      (omega arith) head_slot next_slot refl refl refl refl (omega arith) (omega arith)

buff_destroy-after_pin_example :
    buff_destroy (some (some one_pinned)) (some three_pages)
    ≢ ret (status_ok, some none) (some three_pages)
buff_destroy-after_pin_example =
    buff_destroy-after_pin entries_laws 7000 7008 three_frames one_pinned (pos 2) (some 65536)
      (some three_pages) (some three_pages) (some three_pages) (some three_pages)
      (status_ok, some none) refl first_pin

-- A program fills every frame with the byte 66.
abbrev fill : (ℕ → Buffer) → ℕ → Buffer
fill b i k = 66

abbrev three_pages_disk : Disk
three_pages_disk = record { content = some three_pages; path = store_filename (b'a' ∷ []) }

get_page-changed_example :
    (w1 w2 w3 w4 w5 : Disk) × (man1 man2 man3 man4 : Manager Entries) × (fd' : ℤ) × (f' : File)
    × (d : Buffer) × Rounds disk_documented disk_reliable entries_laws fill 7000 7008 9000
        three_frames 2 0 three_pages_disk w1 man1 man2 man3
    × ((k : ℕ) → k < page_size → man1.buffer 0 k ≡ page three_pages.bytes 2 k)
    × (buff_flush_all (some man3) w1 ≡ ret (status_ok, some man4) w2)
    × (close_backing (some (record { storefd = ram_fd })) w2 ≡ ret status_ok w3)
    × (open_backing (b'a' ∷ []) (some (record { storefd = pos 0 })) w3
        ≡ ret (status_ok, some (record { storefd = fd' })) w4)
    × (get_page zeros (some (record { storefd = fd' })) (pos 2) w4 ≡ ret (status_ok, d) w5)
    × ((k : ℕ) → k < page_size → d k ≡ 66)
    × (disk_documented.file fd' w5 ≡ some f')
    × ((q : ℕ) → q ≢ 2 → (k : ℕ) → k < page_size → page f'.bytes q k ≡ page three_pages.bytes q k)
get_page-changed_example =
    get_page-changed disk_documented disk_paths disk_reliable_paths disk_reliable entries_laws fill
      7000 7008 9000 three_frames (b'a' ∷ []) (record { storefd = pos 0 }) zeros ram_fd
      three_pages_disk three_pages 2 0 1 refl refl refl (omega arith) (omega arith) (omega arith)
      three_frames-Placed (omega arith) head_slot next_slot refl refl refl (omega arith)
