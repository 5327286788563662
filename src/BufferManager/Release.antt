-- ===== src/BufferManager/Release.antt =====
-- What buff_unpin makes of the free list and the write-back list.
use nickdb.Base.{
  ℕ, ◌<◌, ◌≡◌, refl, ◌∙◌, sym, ap, List, ◌∷◌, arith, ==_ne, ==_refl, ◌==◌, Bool-cases, inl, inr,
}
use nickdb.Constants.{
  FrameState, fs_pinned, fs_unpinned, fs_pinned_dirty, fs_unpinned_dirty, Status, status_ok,
  status_err,
}
use nickdb.GLib.{HashTable, TableLaws}
use nickdb.BufferManager.{
  Manager, MetaFrame, update, set_state, set_next, meta_at, push_free, push_writeback,
}
use nickdb.BufferManager.Lists.{WellFormed, SameBut, Placed-same, Listed-same, Listed-push}

-- A frame goes to the head of a list whether the list is empty or not.
pub push_free-next :
    {T : Type 0} (man : Manager T) (i : ℕ)
    → push_free man i ≡ set_next (record man { freelist = meta_at man i }) i man.freelist
unfolding push_free
push_free-next man i = elim (Bool-cases (man.freelist == 0)) [
  | inl e ↦ let freelist_null : man.freelist ≡ 0 = ground arith in rw (e, freelist_null)
  | inr e ↦ rw e
]

pub push_writeback-next :
    {T : Type 0} (man : Manager T) (i : ℕ)
    → push_writeback man i ≡ set_next (record man { writeback = meta_at man i }) i man.writeback
unfolding push_writeback
push_writeback-next man i = elim (Bool-cases (man.writeback == 0)) [
  | inl e ↦ let writeback_null : man.writeback ≡ 0 = ground arith in rw (e, writeback_null)
  | inr e ↦ rw e
]

-- A clean frame goes to the head of the free list, a dirty one to the head of the other list.
abbrev pub unpinned : {T : Type 0} ⦃g : HashTable T⦄ → ℕ → Manager T → ℕ → Manager T
unpinned ⦃g⦄ fresh man i =
    set_next
      (record (set_state man i fs_unpinned) {
        lookup_table = (g.remove man.lookup_table fresh).1;
        freelist = meta_at man i;
      })
      i man.freelist

abbrev pub unpinned_dirty : {T : Type 0} ⦃g : HashTable T⦄ → ℕ → Manager T → ℕ → Manager T
unpinned_dirty ⦃g⦄ fresh man i =
    set_next
      (record (set_state man i fs_unpinned_dirty) {
        lookup_table = (g.remove man.lookup_table fresh).1;
        writeback = meta_at man i;
      })
      i man.writeback

-- The status of buff_unpin and the two lists after it, by the state of frame `i`.
abbrev pub released : FrameState → ℕ → List ℕ → List ℕ → Status × List ℕ × List ℕ
released fs_pinned i free dirty = (status_ok, i ∷ free, dirty)
released fs_pinned_dirty i free dirty = (status_ok, free, i ∷ dirty)
released fs_unpinned i free dirty = (status_err, free, dirty)
released fs_unpinned_dirty i free dirty = (status_err, free, dirty)

-- What a step on frame `i` leaves alone: the other frames, the data and pages of all, the store and
-- the lookup table.
pub record Kept {T : Type 0} (i : ℕ) (man man' : Manager T) : Type 0 where
  pub same : SameBut i man man'
  pub content : man'.buffer ≡ man.buffer
  pub page : (man'.metaframes i).index ≡ (man.metaframes i).index
  pub store : man'.store ≡ man.store
  pub table : man'.lookup_table ≡ man.lookup_table

SameBut-update :
    {T : Type 0} (i : ℕ) (man man' : Manager T) (m : ℕ → MetaFrame) (a b : MetaFrame)
    → m ≡ man.metaframes
    → man'.metaframes ≡ update (update m i a) i b
    → man'.metaframes_at ≡ man.metaframes_at
    → man'.buffer_at ≡ man.buffer_at
    → man'.frames ≡ man.frames
    → SameBut i man man'
SameBut-update i man man' m a b start e metas buffers frames = record {
  metas = metas;
  buffers = buffers;
  frames = frames;
  others = λ l ne. rw (e, ==_ne l i ne) (ap (λ n. n l) start);
}

module _ {T : Type 0} ⦃g : HashTable T⦄ (laws : TableLaws g) (fresh : ℕ) (man : Manager T)
    (free dirty : List ℕ) (i : ℕ) (wf : WellFormed man free dirty) (lt : i < man.frames)
    (unknown : g.lookup man.lookup_table fresh ≡ 0) where
  -- What unpin_frame leaves of a frame in the state `s`.
  abbrev pub Released : FrameState → Manager T → Type 0
  Released s man' =
      WellFormed man' (released s i free dirty).1 (released s i free dirty).2 × Kept i man man'

  pub unpinned-Released :
      (man.metaframes i).state ≡ fs_pinned → Released fs_pinned (unpinned fresh man i)
  unpinned-Released state =
      let same : SameBut i man (unpinned fresh man i) =
        SameBut-update i man (unpinned fresh man i) man.metaframes _ _ refl refl refl refl refl in
      (
        record {
          placed = Placed-same man (unpinned fresh man i) i same wf.placed;
          free_listed =
              Listed-push man (unpinned fresh man i) i same fs_unpinned man.freelist free wf.placed
                lt (λ e. cc (sym state ∙ e)) wf.free_listed (rw (==_refl i)) (rw (==_refl i));
          dirty_listed =
              Listed-same man (unpinned fresh man i) i same fs_unpinned_dirty man.writeback dirty
                (λ e. cc (sym state ∙ e)) wf.dirty_listed;
        },
        record {
          same = same;
          content = refl;
          page = rw (==_refl i);
          store = refl;
          table = ap (λ r. r.1) (laws.remove_absent man.lookup_table fresh unknown);
        },
      )

  pub unpinned_dirty-Released :
      (man.metaframes i).state ≡ fs_pinned_dirty
      → Released fs_pinned_dirty (unpinned_dirty fresh man i)
  unpinned_dirty-Released state =
      let same : SameBut i man (unpinned_dirty fresh man i) =
        SameBut-update i man (unpinned_dirty fresh man i) man.metaframes _ _ refl refl refl refl
          refl in
      (
        record {
          placed = Placed-same man (unpinned_dirty fresh man i) i same wf.placed;
          free_listed =
              Listed-same man (unpinned_dirty fresh man i) i same fs_unpinned man.freelist free
                (λ e. cc (sym state ∙ e)) wf.free_listed;
          dirty_listed =
              Listed-push man (unpinned_dirty fresh man i) i same fs_unpinned_dirty man.writeback
                dirty wf.placed lt (λ e. cc (sym state ∙ e)) wf.dirty_listed (rw (==_refl i))
                (rw (==_refl i));
        },
        record {
          same = same;
          content = refl;
          page = rw (==_refl i);
          store = refl;
          table = ap (λ r. r.1) (laws.remove_absent man.lookup_table fresh unknown);
        },
      )

  pub unpinned_before-Released :
      (s : FrameState)
      → WellFormed man (released s i free dirty).1 (released s i free dirty).2
      → Released s man
  unpinned_before-Released s h = (
    h,
    record {
      same = record { metas = refl; buffers = refl; frames = refl; others = λ l ne. refl };
      content = refl;
      page = refl;
      store = refl;
      table = refl;
    },
  )
