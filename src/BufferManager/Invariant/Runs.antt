-- ===== src/BufferManager/Invariant/Runs.antt =====
-- The functions of src/lib/buffer_manager.c keep every invariant.
use nickdb.Base.{
  ℕ, zero, suc, ◌+◌, Bool, ◌<◌, ◌≡◌, refl, ◌∙◌, sym, subst, not, none, some, ◌==◌, ltb, arith,
  Bool-cases, inl, inr, ℤ, pos, ◌==ℤ◌,
}
use nickdb.Word.{Buffer}
use nickdb.Constants.{
  FrameState, fs_pinned, fs_unpinned, fs_pinned_dirty, fs_unpinned_dirty, status_ok, status_err,
  status_meta_page, status_no_free_frames,
}
use nickdb.GLib.{HashTable}
use nickdb.Posix.{Posix}
use nickdb.Proc.Partial.{
  IfReturns, Leads, seq, guard, required, dereferenced, call, called, last_call, outcome-IfReturns,
}
use nickdb.FileIo.Pages.{alloc_page, free_page, get_page, put_page}
use nickdb.BufferManager.{
  Manager, is_ok, update, slot, set_meta, set_state, frame_at, get_frame_index_from_meta,
  get_frame_index_from_frame, copy_next, fetch_page, pin_in, buff_pin, forget_page, unpin_frame,
  unpin_in, buff_unpin, mark_frame, buff_mark_page,
}
use nickdb.BufferManager.Address.{slot-some}
use nickdb.BufferManager.Calls.{buff_alloc_frame, buff_free_frame, flush_loop, buff_flush_all}
use nickdb.BufferManager.Invariant.{Invariant, Left, Pinned, Given, GivenToo}

-- What copy_next leaves, and the two elements that it has copied.
abbrev Copied : {T : Type 0} → Manager T → Manager T → Type 0
Copied man m =
    (i j : ℕ) × (slot man man.freelist ≡ some i)
    × (slot man (man.metaframes i).next_free_or_dirty ≡ some j)
    × (m ≡ set_meta man i (man.metaframes j))

module _ {T : Type 0} (P : Manager T → Type 0) (Q : Manager T → ℕ → Type 0)
    (inv : Invariant P Q) where
  -- The element that is copied over is that of the frame into which the page was read.
  copied-loaded :
      (man m : Manager T) (i : ℕ) (index : ℤ)
      → i ≡ get_frame_index_from_meta man man.freelist
      → P man
      → Copied man m
      → P (set_meta m i (record (m.metaframes i) { state = fs_pinned; index = index }))
  copied-loaded man m i index e h (k, j, at, next, made) =
      let same : i ≡ k = e ∙ (slot-some man man.freelist k at).0 in
      subst (λ l. P (set_meta m l (record (m.metaframes l) { state = fs_pinned; index = index })))
        (sym same)
        (subst
          (λ x. P (set_meta x k (record (x.metaframes k) { state = fs_pinned; index = index })))
          (sym made) (inv.pinned man k j index at next h))

  mark_frame-kept :
      (man : Manager T) (i : ℕ) (s : FrameState)
      → (man.metaframes i).state ≡ s
      → i < man.frames
      → P man
      → P (mark_frame man i).1
  unfolding mark_frame
  mark_frame-kept man i fs_pinned e lt h = rw (mark_frame, e) (inv.marked man i lt e h)
  mark_frame-kept man i fs_pinned_dirty e lt h = rw (mark_frame, e) h
  mark_frame-kept man i fs_unpinned e lt h = rw (mark_frame, e) h
  mark_frame-kept man i fs_unpinned_dirty e lt h = rw (mark_frame, e) h

module _ {W T : Type 0} ⦃os : Posix W⦄ ⦃g : HashTable T⦄ (P : Manager T → Type 0)
    (Q : Manager T → ℕ → Type 0) (inv : Invariant P Q) where
  copy_next-Copied :
      {R : Type 0} (P' : R → Type 0) (man : Manager T) (w : W)
      → Leads P' (Copied man) (copy_next {W = W} man w)
  unfolding copy_next
  copy_next-Copied P' man w = dereferenced P' (Copied man) (slot man man.freelist) w _ λ i at.
      dereferenced P' (Copied man) (slot man (man.metaframes i).next_free_or_dirty) w _
        λ j next. (i, j, at, next, refl)

  fetch_page-kept :
      (key value : ℕ) (man : Manager T) (index : ℤ) (w : W)
      → P man
      → Leads
          (Pinned P)
          (Pinned P)
          (fetch_page key value man (get_frame_index_from_meta man man.freelist) index w)
  unfolding fetch_page get_frame_index_from_meta
  fetch_page-kept key value man index w h =
      let i = get_frame_index_from_meta man man.freelist in
      let P' = Pinned P in
      let entered = record man { lookup_table = (g.insert man.lookup_table key value).1 } in
      let read = λ (d : Buffer). record entered { buffer = update man.buffer i d } in
      let h0 : P entered = inv.entered man (g.insert man.lookup_table key value).1 h in
      let h1 : (d : Buffer) → P (read d) = λ d. inv.filled entered (update man.buffer i d) h0 in
      guard P' P' (not (g.insert man.lookup_table key value).0) (status_err, none, entered) w _ h0
        λ new. required P' P' (ltb i man.frames) w _ λ bounded.
          call P' P' (get_page (man.buffer i) man.store index w) _ λ r w1.
            guard P' P' (not (is_ok r.0)) (r.0, none, read r.1) w1 _ (h1 r.1)
              λ good.
                seq P' (Copied (read r.1)) P' (copy_next (read r.1) w1) _
                  (copy_next-Copied P' (read r.1) w1)
                  λ m w2 copied. copied-loaded P Q inv (read r.1) m i index refl (h1 r.1) copied

  pin_in-kept :
      (key value : ℕ) (man : Manager T) (index : ℤ) (w : W)
      → P man
      → IfReturns (Pinned P) (pin_in key value man index w)
  unfolding pin_in
  pin_in-kept key value man index w h =
      let i = get_frame_index_from_meta man man.freelist in
      let P' = Pinned P in
      outcome-IfReturns P' _ (
        guard P' P' (index ==ℤ pos 0) (status_meta_page, none, man) w _ h
          λ real.
            guard P' P' (man.freelist == 0) (status_no_free_frames, none, man) w _ h
              λ some_free.
                guard P' P' (not (g.lookup man.lookup_table key == 0))
                  (status_ok, some (frame_at man i), man) w _ h
                  λ unknown. fetch_page-kept key value man index w h)

  pub buff_pin-kept :
      (key value : ℕ) (man : Manager T) (index : ℤ) (w : W)
      → P man
      → IfReturns (GivenToo P) (buff_pin key value (some man) index w)
  unfolding buff_pin
  buff_pin-kept key value man index w h = outcome-IfReturns (GivenToo P) _ (
      called (GivenToo P) (Pinned P) (GivenToo P) (pin_in key value man index w) _
        (pin_in-kept key value man index w h) λ r w1 h1. h1)

  pub buff_alloc_frame-kept :
      (key value : ℕ) (man : Manager T) (given : Bool) (w : W)
      → P man
      → IfReturns (GivenToo P) (buff_alloc_frame key value (some man) given w)
  unfolding buff_alloc_frame
  buff_alloc_frame-kept key value man given w h = outcome-IfReturns (GivenToo P) _ (
      guard (GivenToo P) (GivenToo P) (not given) (status_err, none, some man) w _ h
        λ real. call (GivenToo P) (GivenToo P) (alloc_page none man.store w) _ λ r w1.
          guard (GivenToo P) (GivenToo P) (not (is_ok r.0)) (r.0, none, some man) w1 _ h
            λ good.
              called (GivenToo P) (Pinned P) (GivenToo P) (pin_in key value man r.1 w1) _
                (pin_in-kept key value man r.1 w1 h)
                λ r2 w2 h2.
                  guard (GivenToo P) (GivenToo P) (not (is_ok r2.0)) (r2.0, none, some r2.2) w2 _ h2
                    λ pinned. h2)

  unpin_frame-kept :
      (fresh : ℕ) (man : Manager T) (i : ℕ) (s : FrameState) (w : W)
      → (man.metaframes i).state ≡ s
      → i < man.frames
      → P man
      → Leads (Left P) (Left P) (unpin_frame fresh man i w)
  unfolding unpin_frame forget_page
  unpin_frame-kept fresh man i fs_pinned w e lt h =
      rw (unpin_frame, e)
        (required (Left P) (Left P) (not (g.remove man.lookup_table fresh).0) w _
          λ absent. inv.freed man i (g.remove man.lookup_table fresh).1 lt e h)
  unpin_frame-kept fresh man i fs_pinned_dirty w e lt h =
      rw (unpin_frame, e)
        (required (Left P) (Left P) (not (g.remove man.lookup_table fresh).0) w _
          λ absent. inv.written man i (g.remove man.lookup_table fresh).1 lt e h)
  unpin_frame-kept fresh man i fs_unpinned w e lt h = rw (unpin_frame, e) h
  unpin_frame-kept fresh man i fs_unpinned_dirty w e lt h = rw (unpin_frame, e) h

  unpin_in-kept :
      (fresh : ℕ) (man : Manager T) (frame : ℕ) (w : W)
      → P man
      → IfReturns (Left P) (unpin_in {W = W} fresh man frame w)
  unfolding unpin_in
  unpin_in-kept fresh man frame w h =
      let i = get_frame_index_from_frame man frame in
      outcome-IfReturns (Left P) _ (
        required (Left P) (Left P) (ltb i man.frames) w _
          λ bounded. unpin_frame-kept fresh man i (man.metaframes i).state w refl (ground arith) h)

  pub buff_unpin-kept :
      (fresh : ℕ) (man : Manager T) (frame : ℕ) (w : W)
      → P man
      → IfReturns (Given P) (buff_unpin {W = W} fresh (some man) frame w)
  unfolding buff_unpin
  buff_unpin-kept fresh man frame w h = outcome-IfReturns (Given P) _ (
      called (Given P) (Left P) (Given P) (unpin_in fresh man frame w) _
        (unpin_in-kept fresh man frame w h) λ r w1 h1. h1)

  pub buff_mark_page-kept :
      (man : Manager T) (frame : ℕ) (w : W)
      → P man
      → IfReturns (Given P) (buff_mark_page {W = W} (some man) frame w)
  unfolding buff_mark_page
  buff_mark_page-kept man frame w h =
      let i = get_frame_index_from_frame man frame in
      outcome-IfReturns (Given P) _ (
        required (Given P) (Given P) (ltb i man.frames) w _
          λ bounded. mark_frame-kept P Q inv man i (man.metaframes i).state refl (ground arith) h)

  -- buff_free_frame sets the state of a frame whatever it was.
  pub buff_free_frame-kept :
      ((man : Manager T) (i : ℕ) → i < man.frames → P man → P (set_state man i fs_pinned))
      → (fresh : ℕ) (man : Manager T) (frame : ℕ) (w : W) → P man
      → IfReturns (Given P) (buff_free_frame fresh (some man) frame w)
  unfolding buff_free_frame
  buff_free_frame-kept claimed fresh man frame w h =
      let i = get_frame_index_from_frame man frame in
      let P' = Given P in
      outcome-IfReturns P' _ (
        guard P' P' (frame == 0) (status_err, some man) w _ h
          λ real. required P' P' (ltb i man.frames) w _ λ bounded.
            called P' (Left P) P' (unpin_in fresh (set_state man i fs_pinned) frame w) _
              (unpin_in-kept fresh (set_state man i fs_pinned) frame w
                (claimed man i (ground arith) h))
              λ r w1 h1.
                guard P' P' (not (is_ok r.0)) (r.0, some r.1) w1 _ h1
                  λ good.
                    call P' P' (free_page r.1.store (man.metaframes i).index w1) _
                      λ r2 w2. guard P' P' (not (is_ok r2)) (r2, some r.1) w2 _ h1 λ freed. h1)

  flush_loop-kept :
      (k : ℕ) (man : Manager T) (meta : ℕ) (w : W)
      → P man
      → Q man meta
      → IfReturns P (flush_loop k man meta w)
  unfolding flush_loop
  flush_loop-kept zero man meta w h q = tt
  flush_loop-kept (suc k) man meta w h q = elim (Bool-cases (meta == 0)) [
    | inl e ↦ rw e h
    | inr e ↦ rw e (
        outcome-IfReturns P _ (
          dereferenced P P (slot man meta) w _ λ i at.
            call P P (put_page (man.buffer i) man.store (man.metaframes i).index w) _ λ put w1.
              elim (Bool-cases (is_ok put)) [
                | inl good ↦
                    let (h', q') = inv.flushed man meta i at h q in
                    rw good
                      (last_call P _ (flush_loop-kept k (set_state man i fs_unpinned) _ w1 h' q'))
                | inr bad ↦
                    rw bad (
                      last_call P _
                        (flush_loop-kept k man _ w1 h (inv.unflushed man meta i at h q)))
              ]))
  ]

  pub buff_flush_all-kept :
      (man : Manager T) (w : W) → P man → IfReturns (Given P) (buff_flush_all (some man) w)
  unfolding buff_flush_all
  buff_flush_all-kept man w h = outcome-IfReturns (Given P) _ (
      called (Given P) P (Given P) (flush_loop (man.frames + 1) man man.writeback w) _
        (flush_loop-kept (man.frames + 1) man man.writeback w h (inv.head man h)) λ man' w1 h1. h1)
