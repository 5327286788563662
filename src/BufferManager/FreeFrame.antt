-- ===== src/BufferManager/FreeFrame.antt =====
-- buff_free_frame: a frame and its page are given back together.
use nickdb.Base.{
  ℕ, ◌+◌, ◌<◌, ◌≡◌, refl, ap, some, arith, true, false, ==_ne, ==_refl, ◌==◌, ltb, ℤ, pos,
}
use nickdb.Constants.{page_size, fs_pinned, fs_unpinned, status_ok}
use nickdb.GLib.{HashTable, TableLaws}
use nickdb.Posix.{Posix, File, Documented, Reliable}
use nickdb.Proc.{ret}
use nickdb.FileIo.Pages.{free_page}
use nickdb.FileIo.Pages.Free.{Kept}
use nickdb.FileIo.Pages.Pool.{Pool, give, IsLive}
use nickdb.FileIo.Pages.Refine.{IsPool, free_page-give}
use nickdb.BufferManager.{Manager, set_state, frame_at, meta_at, unpin_in}
use nickdb.BufferManager.Address.{Placed, get_frame_index_from_frame-frame_at}
use nickdb.BufferManager.Calls.{buff_free_frame}
use nickdb.BufferManager.Release.{unpinned}
use nickdb.BufferManager.Release
use nickdb.BufferManager.Unpin.{unpin_frame-unpinned}

-- The frame is unpinned, at the head of the free list and in front of what was there.
pub record Freed {T : Type 0} (man : Manager T) (i : ℕ) (man' : Manager T) : Type 0 where
  pub head : man'.freelist ≡ meta_at man i
  pub dirty : man'.writeback ≡ man.writeback
  pub frame :
      man'.metaframes i
      ≡ record (man.metaframes i) { state = fs_unpinned; next_free_or_dirty = man.freelist }
  pub kept : Release.Kept i man man'

unpinned-Freed :
    {T : Type 0} ⦃g : HashTable T⦄ (laws : TableLaws g) (fresh : ℕ) (man : Manager T) (i : ℕ)
    → g.lookup man.lookup_table fresh ≡ 0
    → Freed man i (unpinned fresh (set_state man i fs_pinned) i)
unpinned-Freed laws fresh man i unknown = record {
  head = refl;
  dirty = refl;
  frame = rw (==_refl i);
  kept = record {
    same = record {
      metas = refl;
      buffers = refl;
      frames = refl;
      others = λ l ne. rw (==_ne l i ne);
    };
    content = refl;
    page = rw (==_refl i);
    store = refl;
    table = ap (λ r. r.1) (laws.remove_absent man.lookup_table fresh unknown);
  };
}

module _ {W T : Type 0} ⦃os : Posix W⦄ ⦃g : HashTable T⦄ (laws : TableLaws g) (fresh : ℕ)
    (man : Manager T) (placed : Placed man) (i k : ℕ) (lt : i < man.frames) (inside : k < page_size)
    (unknown : g.lookup man.lookup_table fresh ≡ 0) where
  -- The frame has been set to `FS_PINNED`, so it is not refused.
  unpin_in-pinned :
      (w : W)
      → unpin_in fresh (set_state man i fs_pinned) (frame_at man i + k) w
        ≡ ret (status_ok, unpinned fresh (set_state man i fs_pinned) i) w
  unfolding unpin_in
  unpin_in-pinned w =
      let forced = set_state man i fs_pinned in
      let within : Placed forced = record {
        meta_above = placed.meta_above;
        meta_below = placed.meta_below;
        frame_above = placed.frame_above;
        frame_below = placed.frame_below;
      } in
      let index = get_frame_index_from_frame-frame_at forced within i lt k inside in
      let bounded : ltb i man.frames ≡ true = ground arith in
      let state : (forced.metaframes i).state ≡ fs_pinned = rw (==_refl i) in
      rw (index, bounded, unpin_frame-unpinned laws fresh forced i w state unknown)

  -- The two calls put together.
  buff_free_frame_calls :
      (w w' : W)
      → free_page man.store (man.metaframes i).index w ≡ ret status_ok w'
      → buff_free_frame fresh (some man) (frame_at man i + k) w
        ≡ ret (status_ok, some (unpinned fresh (set_state man i fs_pinned) i)) w'
  unfolding buff_free_frame
  buff_free_frame_calls w w' freed =
      let not_null : (frame_at man i + k == 0) ≡ false =
        ==_ne (frame_at man i + k) 0 (omega (arith, placed.frame_above)) in
      let index = get_frame_index_from_frame-frame_at man placed i lt k inside in
      let bounded : ltb i man.frames ≡ true = ground arith in
      rw (not_null, index, bounded, unpin_in-pinned w, freed)

-- On a disk without I/O errors, buff_free_frame of an address in a frame of a manager whose arrays
-- lie within 64 bits, in whatever state the frame is, with a key that is not in the table, where the
-- page of the frame is in use in the store: it returns STATUS_OK; the frame is unpinned, at the head
-- of the free list and linked to what was there before; the write-back list begins as before, and
-- the other frames, the data and pages of all frames, the store and the table stay the same; and the
-- store stands for the pool with the page behind its last free one, in which every other page in use
-- is as it was.
pub buff_free_frame-give :
    {W T : Type 0} ⦃os : Posix W⦄ ⦃g : HashTable T⦄ (doc : Documented os) (rel : Reliable os doc)
    (laws : TableLaws g) (fresh : ℕ) (man : Manager T) (i k p : ℕ) (fd : ℤ) (w : W) (f : File)
    (s : Pool)
    → Placed man
    → i < man.frames
    → k < page_size
    → g.lookup man.lookup_table fresh ≡ 0
    → (man.metaframes i).index ≡ pos p
    → man.store ≡ some (record { storefd = fd })
    → doc.file fd w ≡ some f
    → IsPool f s
    → IsLive s p
    → (w' : W) × (f' : File) × (man' : Manager T) × (buff_free_frame fresh
          (some man)
          (frame_at man i + k)
          w
        ≡ ret (status_ok, some man') w')
      × Freed man i man'
      × (doc.file fd w' ≡ some f')
      × IsPool f' (give p s)
      × Kept f f' p s.free
buff_free_frame-give doc rel laws fresh man i k p fd w f s placed lt inside unknown at store opened
      pool live =
    let (w', f', freed, o', (pool', other)) = free_page-give doc rel fd w f s p opened pool live in
    (
      w',
      f',
      unpinned fresh (set_state man i fs_pinned) i,
      buff_free_frame_calls laws fresh man placed i k lt inside unknown w w' (rw (store, at) freed),
      unpinned-Freed laws fresh man i unknown,
      o',
      pool',
      other,
    )
