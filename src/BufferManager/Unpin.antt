-- ===== src/BufferManager/Unpin.antt =====
-- buff_unpin as a step on the free list and the write-back list.
use nickdb.Base.{ℕ, ◌+◌, ◌<◌, ◌≡◌, refl, ap, some, List, arith, true, ltb}
use nickdb.Constants.{
  page_size, FrameState, fs_pinned, fs_unpinned, fs_pinned_dirty, fs_unpinned_dirty, status_ok,
}
use nickdb.GLib.{HashTable, TableLaws}
use nickdb.Posix.{Posix}
use nickdb.Proc.{ret, next}
use nickdb.BufferManager.{Manager, frame_at, forget_page, unpin_frame, unpin_in, buff_unpin}
use nickdb.BufferManager.Address.{get_frame_index_from_frame-frame_at}
use nickdb.BufferManager.Release.{
  push_free-next, push_writeback-next, unpinned, unpinned_dirty, released, Kept, Released,
  unpinned-Released, unpinned_dirty-Released, unpinned_before-Released,
}
use nickdb.BufferManager.Lists.{WellFormed}

module _ {W T : Type 0} ⦃os : Posix W⦄ ⦃g : HashTable T⦄ (laws : TableLaws g) where
  -- A key that is not in the table.
  pub unpin_frame-unpinned :
      (fresh : ℕ) (man : Manager T) (i : ℕ) (w : W)
      → (man.metaframes i).state ≡ fs_pinned
      → g.lookup man.lookup_table fresh ≡ 0
      → unpin_frame fresh man i w ≡ next (status_ok, unpinned fresh man i) w
  unfolding unpin_frame forget_page
  unpin_frame-unpinned fresh man i w state unknown =
      let kept = ap (λ r. r.0) (laws.remove_absent man.lookup_table fresh unknown) in
      simp (unpin_frame, state, kept, push_free-next)

  pub unpin_frame-unpinned_dirty :
      (fresh : ℕ) (man : Manager T) (i : ℕ) (w : W)
      → (man.metaframes i).state ≡ fs_pinned_dirty
      → g.lookup man.lookup_table fresh ≡ 0
      → unpin_frame fresh man i w ≡ next (status_ok, unpinned_dirty fresh man i) w
  unfolding unpin_frame forget_page
  unpin_frame-unpinned_dirty fresh man i w state unknown =
      let kept = ap (λ r. r.0) (laws.remove_absent man.lookup_table fresh unknown) in
      simp (unpin_frame, state, kept, push_writeback-next)

  module _ (fresh : ℕ) (man : Manager T) (free dirty : List ℕ) (i : ℕ)
      (wf : WellFormed man free dirty) (lt : i < man.frames)
      (unknown : g.lookup man.lookup_table fresh ≡ 0) where
    unpin_frame-Released :
        (w : W) (s : FrameState)
        → (man.metaframes i).state ≡ s
        → (man' : Manager T) × (unpin_frame fresh man i w
            ≡ next ((released s i free dirty).0, man') w)
          × Released laws fresh man free dirty i wf lt unknown s man'
    unfolding unpin_frame
    unpin_frame-Released w fs_pinned e = (
      unpinned fresh man i,
      unpin_frame-unpinned fresh man i w e unknown,
      unpinned-Released laws fresh man free dirty i wf lt unknown e,
    )
    unpin_frame-Released w fs_pinned_dirty e = (
      unpinned_dirty fresh man i,
      unpin_frame-unpinned_dirty fresh man i w e unknown,
      unpinned_dirty-Released laws fresh man free dirty i wf lt unknown e,
    )
    unpin_frame-Released w fs_unpinned e = (
      man,
      rw (unpin_frame, e),
      unpinned_before-Released laws fresh man free dirty i wf lt unknown fs_unpinned wf,
    )
    unpin_frame-Released w fs_unpinned_dirty e = (
      man,
      rw (unpin_frame, e),
      unpinned_before-Released laws fresh man free dirty i wf lt unknown fs_unpinned_dirty wf,
    )

  pub unpin_in-Released :
      (fresh : ℕ) (man : Manager T) (free dirty : List ℕ) (i k : ℕ) (w : W)
      → WellFormed man free dirty
      → i < man.frames
      → k < page_size
      → g.lookup man.lookup_table fresh ≡ 0
      → (man' : Manager T) × (unpin_in fresh man (frame_at man i + k) w
          ≡ ret ((released (man.metaframes i).state i free dirty).0, man') w)
        × WellFormed man'
            (released (man.metaframes i).state i free dirty).1
            (released (man.metaframes i).state i free dirty).2
        × Kept i man man'
  unfolding unpin_in
  unpin_in-Released fresh man free dirty i k w wf lt inside unknown =
      let (man', run, (wf', kept)) =
        unpin_frame-Released fresh man free dirty i wf lt unknown w (man.metaframes i).state refl in
      let index = get_frame_index_from_frame-frame_at man wf.placed i lt k inside in
      let bounded : ltb i man.frames ≡ true = ground arith in
      (man', rw (index, bounded, run), wf', kept)

  -- On any system, buff_unpin of an address in a frame of a well-formed manager, with a key that is
  -- not in the table: the status and the new free list and write-back list are those of `released`,
  -- the manager stays well-formed, and the other frames, the data and pages of all frames, the store
  -- and the table stay the same.
  pub buff_unpin-Released :
      (fresh : ℕ) (man : Manager T) (free dirty : List ℕ) (i k : ℕ) (w : W)
      → WellFormed man free dirty
      → i < man.frames
      → k < page_size
      → g.lookup man.lookup_table fresh ≡ 0
      → (man' : Manager T) × (buff_unpin fresh (some man) (frame_at man i + k) w
          ≡ ret ((released (man.metaframes i).state i free dirty).0, some man') w)
        × WellFormed man'
            (released (man.metaframes i).state i free dirty).1
            (released (man.metaframes i).state i free dirty).2
        × Kept i man man'
  unfolding buff_unpin
  buff_unpin-Released fresh man free dirty i k w wf lt inside unknown =
      let (man', run, wf', kept) =
        unpin_in-Released fresh man free dirty i k w wf lt inside unknown in
      (man', rw run, wf', kept)
