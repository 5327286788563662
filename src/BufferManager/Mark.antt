-- ===== src/BufferManager/Mark.antt =====
-- buff_mark_page: which frames it takes, and what it changes.
use nickdb.Base.{
  ℕ, ◌+◌, ◌<◌, ◌≡◌, refl, ◌∙◌, sym, ap, ◌⊎◌, inl, inr, some, arith, true, ==_ne, ==_refl, ltb,
}
use nickdb.Constants.{
  page_size, FrameState, fs_pinned, fs_unpinned, fs_pinned_dirty, fs_unpinned_dirty, Status,
  status_ok, status_mark_err,
}
use nickdb.GLib.{HashTable}
use nickdb.Posix.{Posix}
use nickdb.Proc.{ret}
use nickdb.BufferManager.{Manager, frame_at, mark_frame, buff_mark_page}
use nickdb.BufferManager.Address.{Placed, get_frame_index_from_frame-frame_at}
use nickdb.BufferManager.Lists.{SameBut}

-- Somebody holds the frame, whether its page has changed or not.
abbrev pub IsPinned : FrameState → Type 0
IsPinned s = (s ≡ fs_pinned) ⊎ (s ≡ fs_pinned_dirty)

-- A frame that is marked is dirty, and all else of the manager is the same.
pub record Marked {T : Type 0} (man : Manager T) (i : ℕ) (man' : Manager T) : Type 0 where
  pub dirty : man'.metaframes i ≡ record (man.metaframes i) { state = fs_pinned_dirty }
  pub same : SameBut i man man'
  pub content : man'.buffer ≡ man.buffer
  pub store : man'.store ≡ man.store
  pub free_head : man'.freelist ≡ man.freelist
  pub written_head : man'.writeback ≡ man.writeback
  pub table : man'.lookup_table ≡ man.lookup_table

mark_frame-pinned :
    {T : Type 0} (man : Manager T) (i : ℕ)
    → IsPinned (man.metaframes i).state
    → ((mark_frame man i).0 ≡ status_ok) × Marked man i (mark_frame man i).1
unfolding mark_frame
mark_frame-pinned man i (inl e) =
    rw (mark_frame, e)
      (
        refl,
        record {
          dirty = rw (==_refl i);
          same = record {
            metas = refl;
            buffers = refl;
            frames = refl;
            others = λ l ne. rw (==_ne l i ne);
          };
          content = refl;
          store = refl;
          free_head = refl;
          written_head = refl;
          table = refl;
        },
      )
mark_frame-pinned man i (inr e) =
    rw (mark_frame, e)
      (
        refl,
        record {
          dirty = ap (λ s. record (man.metaframes i) { state = s }) e;
          same = record { metas = refl; buffers = refl; frames = refl; others = λ l ne. refl };
          content = refl;
          store = refl;
          free_head = refl;
          written_head = refl;
          table = refl;
        },
      )

mark_frame-not_pinned :
    {T : Type 0} (man : Manager T) (i : ℕ)
    → ¬ IsPinned (man.metaframes i).state
    → mark_frame man i ≡ (status_mark_err, man)
unfolding mark_frame
mark_frame-not_pinned man i free = states (man.metaframes i).state refl
  where
    states :
        (s : FrameState) → (man.metaframes i).state ≡ s → mark_frame man i ≡ (status_mark_err, man)
    states fs_pinned e = absurd (free (inl e))
    states fs_pinned_dirty e = absurd (free (inr e))
    states fs_unpinned e = rw (mark_frame, e)
    states fs_unpinned_dirty e = rw (mark_frame, e)

-- What marking frame `i` leaves, with the status that is reported.
abbrev pub Outcome : {T : Type 0} → Manager T → ℕ → Status × Manager T → Type 0
Outcome man i r =
    (IsPinned (man.metaframes i).state × (r.0 ≡ status_ok) × Marked man i r.1)
    ⊎ ((¬ IsPinned (man.metaframes i).state) × (r.0 ≡ status_mark_err) × (r.1 ≡ man))

mark_frame-Outcome : {T : Type 0} (man : Manager T) (i : ℕ) → Outcome man i (mark_frame man i)
mark_frame-Outcome man i = states (man.metaframes i).state refl
  where
    refused : ¬ IsPinned (man.metaframes i).state → Outcome man i (mark_frame man i)
    refused free =
        let e = mark_frame-not_pinned man i free in inr (free, ap (λ r. r.0) e, ap (λ r. r.1) e)

    states : (s : FrameState) → (man.metaframes i).state ≡ s → Outcome man i (mark_frame man i)
    states fs_pinned e = (let (ok, h) = mark_frame-pinned man i (inl e) in inl (inl e, ok, h))
    states fs_pinned_dirty e = (let (ok, h) = mark_frame-pinned man i (inr e) in inl (inr e, ok, h))
    states fs_unpinned e = refused (λ h. elim h [ inl u ↦ cc (sym e ∙ u) | inr u ↦ cc (sym e ∙ u) ])
    states fs_unpinned_dirty e =
        refused (λ h. elim h [ inl u ↦ cc (sym e ∙ u) | inr u ↦ cc (sym e ∙ u) ])

-- On any system, buff_mark_page of an address in a frame of a manager whose arrays lie within 64
-- bits returns, and one of two things is so. The frame is pinned, dirty or not: the status is
-- STATUS_OK, the frame is pinned and dirty with the same page and link, and all else stays the same.
-- Or it is not pinned: the status is STATUS_MARK_ERR and the manager stays the same. The latter
-- includes FS_UNPINNED_DIRTY, where the comment on the function excludes FS_UNPINNED alone.
pub buff_mark_page-Marked :
    {W T : Type 0} ⦃os : Posix W⦄ ⦃g : HashTable T⦄ (man : Manager T) (i k : ℕ) (w : W)
    → Placed man
    → i < man.frames
    → k < page_size
    → (status : Status) × (man' : Manager T) × (buff_mark_page (some man) (frame_at man i + k) w
        ≡ ret (status, some man') w)
      × Outcome man i (status, man')
unfolding buff_mark_page
buff_mark_page-Marked man i k w placed lt inside =
    let index = get_frame_index_from_frame-frame_at man placed i lt k inside in
    let bounded : ltb i man.frames ≡ true = ground arith in
    ((mark_frame man i).0, (mark_frame man i).1, rw (index, bounded) refl, mark_frame-Outcome man i)
