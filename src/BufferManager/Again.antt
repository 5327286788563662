-- ===== src/BufferManager/Again.antt =====
-- A frame that is given back twice.
use nickdb.Base.{
  ℕ, ◌≡◌, refl, ◌≢◌, sym, subst, ◌⊎◌, inl, inr, Option, none, some, not, ltb, ==_refl,
}
use nickdb.Constants.{
  FrameState, fs_pinned, fs_unpinned, fs_pinned_dirty, fs_unpinned_dirty, Status, status_ok,
}
use nickdb.GLib.{HashTable}
use nickdb.Posix.{Posix}
use nickdb.Proc.Partial.{IfReturns, Leads, required, called, outcome-IfReturns}
use nickdb.BufferManager.{
  Manager, get_frame_index_from_frame, push_free, push_writeback, forget_page, unpin_frame,
  unpin_in, buff_unpin,
}
use nickdb.BufferManager.Address.{get_frame_index_from_frame_same}
use nickdb.BufferManager.Release.{push_free-next, push_writeback-next}

abbrev IsIdle : FrameState → Type 0
IsIdle s = (s ≡ fs_unpinned) ⊎ (s ≡ fs_unpinned_dirty)

-- After STATUS_OK the frame i is not pinned any more, and the frames are where they were.
abbrev GivenBack : {T : Type 0} → ℕ → Manager T → Status × Manager T → Type 0
GivenBack i man (s, m) =
    s ≡ status_ok → (m.buffer_at ≡ man.buffer_at) × IsIdle (m.metaframes i).state

abbrev pub Back : {T : Type 0} → ℕ → Manager T → Status × Option (Manager T) → Type 0
Back i man (s, none) = s ≢ status_ok
Back i man (s, some m) = GivenBack i man (s, m)

abbrev pub Refused : {A : Type 0} → Status × A → Type 0
Refused (s, a) = s ≢ status_ok

module _ {T : Type 0} (man : Manager T) (i : ℕ) (idle : IsIdle (man.metaframes i).state) where
  push_free-IsIdle :
      ((push_free man i).buffer_at ≡ man.buffer_at) × IsIdle ((push_free man i).metaframes i).state
  push_free-IsIdle =
      subst (λ (m : Manager T). (m.buffer_at ≡ man.buffer_at) × IsIdle (m.metaframes i).state)
        (sym (push_free-next man i)) (refl, rw (==_refl i) idle)

  push_writeback-IsIdle :
      ((push_writeback man i).buffer_at ≡ man.buffer_at)
      × IsIdle ((push_writeback man i).metaframes i).state
  push_writeback-IsIdle =
      subst (λ (m : Manager T). (m.buffer_at ≡ man.buffer_at) × IsIdle (m.metaframes i).state)
        (sym (push_writeback-next man i)) (refl, rw (==_refl i) idle)

module _ {W T : Type 0} ⦃os : Posix W⦄ ⦃g : HashTable T⦄ where
  unpin_frame-GivenBack :
      (fresh : ℕ) (man : Manager T) (i : ℕ) (s : FrameState) (w : W)
      → (man.metaframes i).state ≡ s
      → Leads (GivenBack i man) (GivenBack i man) (unpin_frame fresh man i w)
  unfolding unpin_frame forget_page
  unpin_frame-GivenBack fresh man i fs_pinned w e =
      rw (unpin_frame, e)
        (required (GivenBack i man) (GivenBack i man) (not (g.remove man.lookup_table fresh).0) w _
          λ absent ok. push_free-IsIdle _ i (rw (==_refl i) (inl refl)))
  unpin_frame-GivenBack fresh man i fs_pinned_dirty w e =
      rw (unpin_frame, e)
        (required (GivenBack i man) (GivenBack i man) (not (g.remove man.lookup_table fresh).0) w _
          λ absent ok. push_writeback-IsIdle _ i (rw (==_refl i) (inr refl)))
  unpin_frame-GivenBack fresh man i fs_unpinned w e = rw (unpin_frame, e) (λ ok. cc)
  unpin_frame-GivenBack fresh man i fs_unpinned_dirty w e = rw (unpin_frame, e) (λ ok. cc)

  unpin_frame-Refused :
      (fresh : ℕ) (man : Manager T) (i : ℕ) (w : W)
      → IsIdle (man.metaframes i).state
      → Leads Refused Refused (unpin_frame fresh man i w)
  unfolding unpin_frame
  unpin_frame-Refused fresh man i w (inl e) = rw (unpin_frame, e) (λ ok. cc)
  unpin_frame-Refused fresh man i w (inr e) = rw (unpin_frame, e) (λ ok. cc)

  pub buff_unpin-Back :
      (fresh : ℕ) (man : Manager T) (frame : ℕ) (w : W)
      → IfReturns
          (Back (get_frame_index_from_frame man frame) man)
          (buff_unpin {W = W} fresh (some man) frame w)
  unfolding buff_unpin unpin_in
  buff_unpin-Back fresh man frame w =
      let i = get_frame_index_from_frame man frame in
      outcome-IfReturns (Back i man) _ (
        called (Back i man) (GivenBack i man) (Back i man) (unpin_in fresh man frame w) _
          (outcome-IfReturns (GivenBack i man) _ (
            required (GivenBack i man) (GivenBack i man) (ltb i man.frames) w _
              λ bounded. unpin_frame-GivenBack fresh man i (man.metaframes i).state w refl))
          λ r w1 h. h)

  -- What has been given back is refused.
  pub buff_unpin-Refused :
      (fresh : ℕ) (man : Manager T) (s : Status) (mm : Option (Manager T)) (frame : ℕ) (w : W)
      → Back (get_frame_index_from_frame man frame) man (s, mm)
      → s ≡ status_ok
      → IfReturns Refused (buff_unpin {W = W} fresh mm frame w)
  unfolding buff_unpin unpin_in
  buff_unpin-Refused fresh man s none frame w h ok = absurd (h ok)
  buff_unpin-Refused fresh man s (some m) frame w h ok =
      let i = get_frame_index_from_frame m frame in
      let (buffers, idle) = h ok in
      let same : get_frame_index_from_frame man frame ≡ i =
        sym (get_frame_index_from_frame_same man m frame buffers) in
      outcome-IfReturns Refused _ (
        called Refused Refused Refused (unpin_in fresh m frame w) _
          (outcome-IfReturns Refused _ (
            required Refused Refused (ltb i m.frames) w _ λ bounded.
              unpin_frame-Refused fresh m i w
                (subst (λ k. IsIdle (m.metaframes k).state) same idle)))
          λ r w1 h1. h1)
