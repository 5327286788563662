-- ===== src/BufferManager/StepTests.antt =====
-- A page pinned and its frame marked, on a manager that the loop of buff_create has linked, and the
-- theorems at that state.
use nickdb.Base.{ℕ, zero, suc, ◌<◌, scale, ◌+◌, ◌≡◌, ◌≢◌, ◌⊎◌, refl, some, [], ◌∷◌, arith, pos}
use nickdb.Word.{FitsI64, zeros, overwrite, shift}
use nickdb.Constants.{page_size, fs_pinned, fs_pinned_dirty, Status, status_ok}
use nickdb.Posix.Ram.{Ram, ram}
use nickdb.Proc.{ret, fault}
use nickdb.FileIo.{index_to_offset}
use nickdb.FileIo.Pages.{get_page}
use nickdb.BufferManager.{
  Manager, frame_at, update, set_state, slot, get_frame_index_from_meta, get_frame_index_from_frame,
  copy_next, fetch_page, pin_in, buff_pin, mark_frame, buff_mark_page,
}
use nickdb.BufferManager.Calls.{init_metaframes, buff_flush_all}
use nickdb.BufferManager.Address.{Placed}
use nickdb.BufferManager.Mark.{Outcome, buff_mark_page-Marked}
use nickdb.BufferManager.Pointers.{Pointers}
use nickdb.BufferManager.Steps.{Reach, ReachWithoutFree, pins, marks}
use nickdb.BufferManager.Steps.Safety.{Reach-Pointers, buff_flush_all-buff_pin_safe}
use nickdb.BufferManager.Steps.First.{buff_pin-first_frame}
use nickdb.BufferManager.Table.{Entries, entries}
use nickdb.BufferManager.Tests.{three_frames, three_frames-Placed, three_pages}

abbrev pub linked : Manager Entries
linked = init_metaframes 3 0 three_frames

abbrev pinned : Manager Entries
pinned = record linked {
  buffer = update linked.buffer 0 (overwrite zeros 0 page_size (shift three_pages.bytes 8192));
  metaframes =
      update (update linked.metaframes 0 (linked.metaframes 1)) 0
        (record { state = fs_pinned; index = pos 2; next_free_or_dirty = 1048 });
  lookup_table = (7000, 7008) ∷ [];
}

abbrev dirty : Manager Entries
dirty = set_state pinned 0 fs_pinned_dirty

pin_run :
    buff_pin 7000 7008 (some linked) (pos 2) (some three_pages)
    ≡ ret (status_ok, some 65536, some pinned) (some three_pages)
unfolding buff_pin pin_in fetch_page copy_next slot get_frame_index_from_meta get_page
    index_to_offset init_metaframes
pin_run = refl

mark_run :
    buff_mark_page (some pinned) 65536 (some three_pages)
    ≡ ret (status_ok, some dirty) (some three_pages)
unfolding buff_mark_page mark_frame get_frame_index_from_frame init_metaframes
mark_run = refl

pinned-Placed : Placed pinned
unfolding init_metaframes
pinned-Placed = record {
  meta_above = omega arith;
  meta_below = omega arith;
  frame_above = omega arith;
  frame_below = omega arith;
}

buff_mark_page-Marked_example :
    (status : Status) × (man' : Manager Entries) × (buff_mark_page
        (some pinned)
        (frame_at pinned 0 + 7)
        (some three_pages)
      ≡ ret (status, some man') (some three_pages))
    × Outcome pinned 0 (status, man')
unfolding init_metaframes
buff_mark_page-Marked_example =
    buff_mark_page-Marked pinned 0 7 (some three_pages) pinned-Placed (omega arith) (omega arith)

reached : Reach Ram linked dirty
reached =
    Reach.later
      (Reach.later Reach.start (
        pins 7000 7008 (pos 2) status_ok (some 65536) (some three_pages) (some three_pages)
          pin_run))
      (marks 65536 status_ok (some three_pages) (some three_pages) mark_run)

Reach-Pointers_example : Pointers 1000 3 dirty
Reach-Pointers_example =
    Reach-Pointers three_frames dirty three_frames-Placed (omega arith) refl refl reached

-- Its frames hold pages 2, 0 and 0.
dirty_fit : (l : ℕ) → l < 3 → FitsI64 (scale (dirty.metaframes l).index page_size)
unfolding init_metaframes
dirty_fit zero lt = omega arith
dirty_fit (suc zero) lt = omega arith
dirty_fit (suc (suc zero)) lt = omega arith
dirty_fit (suc (suc (suc l))) lt = absurd (omega (arith, lt))

buff_flush_all-buff_pin_safe_example :
    (buff_flush_all (some dirty) (some three_pages) ≢ fault)
    × (((i : ℕ) × (slot dirty dirty.freelist ≡ some i)
          × ((dirty.metaframes i).next_free_or_dirty ≡ 0))
        ⊎ (buff_pin 7016 7024 (some dirty) (pos 1) (some three_pages) ≢ fault))
unfolding init_metaframes
buff_flush_all-buff_pin_safe_example =
    buff_flush_all-buff_pin_safe three_frames dirty three_frames-Placed (omega arith) refl refl
      reached 7016 7024 (pos 1) (some three_pages) dirty_fit (omega arith)

reached_without_free : ReachWithoutFree Ram linked dirty
reached_without_free =
    ReachWithoutFree.later
      (ReachWithoutFree.later ReachWithoutFree.start
        (pins 7000 7008 (pos 2) status_ok (some 65536) (some three_pages) (some three_pages)
          pin_run)
        refl)
      (marks 65536 status_ok (some three_pages) (some three_pages) mark_run) refl

-- Page 1 pinned on top, from locals at other addresses.
abbrev pinned_again : Manager Entries
pinned_again = record dirty {
  buffer =
      update dirty.buffer 0 (overwrite (dirty.buffer 0) 0 page_size (shift three_pages.bytes 4096));
  metaframes =
      update (update dirty.metaframes 0 (dirty.metaframes 2)) 0
        (record { state = fs_pinned; index = pos 1; next_free_or_dirty = 0 });
  lookup_table = (7016, 7024) ∷ (7000, 7008) ∷ [];
}

pin_again_run :
    buff_pin 7016 7024 (some dirty) (pos 1) (some three_pages)
    ≡ ret (status_ok, some 65536, some pinned_again) (some three_pages)
unfolding buff_pin pin_in fetch_page copy_next slot get_frame_index_from_meta get_page
    index_to_offset init_metaframes overwrite
pin_again_run = refl

buff_pin-first_frame_example :
    (◌≡◌ {A = ℕ} 65536 (frame_at three_frames 0))
    × ((l : ℕ) → l ≢ 0 → pinned_again.metaframes l ≡ linked.metaframes l)
buff_pin-first_frame_example =
    buff_pin-first_frame three_frames dirty three_frames-Placed (omega arith) refl refl
      reached_without_free 7016 7024 (pos 1) (some three_pages) (some three_pages) 65536
      pinned_again pin_again_run
