-- ===== src/BufferManager/FrameTests.antt =====
-- A frame given back with its page, at a manager that the loop of buff_create has linked and
-- buff_pin has filled.
use nickdb.FileIo.Pages.Written.{Written}
use nickdb.FileIo.Pages.View.{IsStore}
use nickdb.BufferManager.Load.{Loaded}
use nickdb.BufferManager.AllocFrame.{buff_alloc_frame-grow}
use nickdb.BufferManager.Tests.{three_frames, head_slot, next_slot}
use nickdb.Base.{ℕ, true, ◌<◌, ◌+◌, ◌≡◌, refl, some, [], ◌∷◌, arith, pos}
use nickdb.Word.{zeros, overwrite, shift}
use nickdb.Constants.{page_size, fs_pinned, status_ok}
use nickdb.Posix.{File}
use nickdb.Posix.Ram.{Ram, ram, ram_fd, ram_documented, ram_reliable}
use nickdb.Proc.{ret}
use nickdb.FileIo.{index_to_offset}
use nickdb.FileIo.Pages.{get_page}
use nickdb.FileIo.Pages.Free
use nickdb.FileIo.Pages.Pool.{give}
use nickdb.FileIo.Pages.Refine.{IsPool}
use nickdb.FileIo.Tests.{one_page, one_page-IsStore, four_pages, four, four_pages-IsStore}
use nickdb.BufferManager.{
  Manager, update, slot, get_frame_index_from_meta, frame_at, copy_next, fetch_page, pin_in,
  buff_pin,
}
use nickdb.BufferManager.Address.{Placed}
use nickdb.BufferManager.Calls.{buff_alloc_frame, init_metaframes, buff_free_frame}
use nickdb.BufferManager.FreeFrame.{Freed, buff_free_frame-give}
use nickdb.BufferManager.StepTests.{linked}
use nickdb.BufferManager.Table.{Entries, entries, entries_laws}

-- Frame 0 holds page 3, and it is still at the head of the free list.
abbrev holder : Manager Entries
holder = record linked {
  buffer = update linked.buffer 0 (overwrite zeros 0 page_size (shift four_pages.bytes 12288));
  metaframes =
      update (update linked.metaframes 0 (linked.metaframes 1)) 0
        (record { state = fs_pinned; index = pos 3; next_free_or_dirty = 1048 });
  lookup_table = (7000, 7008) ∷ [];
}

pin_holder :
    buff_pin 7000 7008 (some linked) (pos 3) (some four_pages)
    ≡ ret (status_ok, some 65536, some holder) (some four_pages)
unfolding buff_pin pin_in fetch_page copy_next slot get_frame_index_from_meta get_page
    index_to_offset init_metaframes
pin_holder = refl

holder-Placed : Placed holder
unfolding init_metaframes
holder-Placed = record {
  meta_above = omega arith;
  meta_below = omega arith;
  frame_above = omega arith;
  frame_below = omega arith;
}

buff_free_frame-give_example :
    (w' : Ram) × (f' : File) × (man' : Manager Entries) × (buff_free_frame 9000
        (some holder)
        (frame_at holder 0 + 5)
        (some four_pages)
      ≡ ret (status_ok, some man') w')
    × Freed holder 0 man'
    × (ram_documented.file ram_fd w' ≡ some f')
    × IsPool f' (give 3 four)
    × Free.Kept four_pages f' 3 (1 ∷ 2 ∷ [])
unfolding init_metaframes
buff_free_frame-give_example =
    buff_free_frame-give ram_documented ram_reliable entries_laws 9000 holder 0 5 3 ram_fd
      (some four_pages) four_pages four holder-Placed (omega arith) (omega arith) refl refl refl
      refl four_pages-IsStore (omega arith, omega arith, refl)

buff_alloc_frame-grow_example :
    (w' : Ram) × (f' : File) × (man' : Manager Entries) × (buff_alloc_frame 7000 7008
        (some three_frames)
        true
        (some one_page)
      ≡ ret (status_ok, some (record { page = pos 1; frame = 65536 }), some man') w')
    × (ram_documented.file ram_fd w' ≡ some f')
    × IsStore f' 2 []
    × Written one_page f' 1 zeros
    × Loaded three_frames 0 1 1 f'.bytes man'
    × ((k : ℕ) → k < page_size → man'.buffer 0 k ≡ 0)
buff_alloc_frame-grow_example =
    buff_alloc_frame-grow ram_documented ram_reliable entries_laws 7000 7008 three_frames ram_fd
      (some one_page) one_page 1 0 1 refl refl one_page-IsStore (omega arith) (omega arith)
      head_slot next_slot refl
