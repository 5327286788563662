-- ===== src/BufferManager/Invariant/Sole.antt =====
-- An invariant of managers whose free list begins with element 0.
use nickdb.Base.{
  ℕ, ◌+◌, ◌*◌, ◌<◌, ◌≡◌, ◌∙◌, ◌≢◌, sym, ap, subst, ◌⊎◌, inl, inr, some, ◌==◌, ==_ne, arith,
  Bool-cases, ℤ,
}
use nickdb.Word.{Buffer}
use nickdb.Constants.{FrameState, fs_pinned, fs_unpinned, fs_pinned_dirty, fs_unpinned_dirty}
use nickdb.BufferManager.{
  MetaFrame, Manager, sizeof_meta_frame, slot, set_meta, set_state, push_free, push_writeback,
}
use nickdb.BufferManager.Address.{slot-some}
use nickdb.BufferManager.Invariant.{Invariant, loaded}
use nickdb.BufferManager.Release.{push_free-next, push_writeback-next}

-- The write-back list from the pointer `p` on has element 0 alone, which leads to `next`: it ends
-- there, or it leads back to it.
abbrev pub OnlyZero : (base p next : ℕ) → Type 0
OnlyZero base p next = (p ≡ 0) ⊎ ((p ≡ base) × ((next ≡ 0) ⊎ (next ≡ base)))

-- The free list begins with element 0, and the others are as in `cells`.
pub record Sole {T : Type 0} (first : Manager T) (cells : ℕ → MetaFrame) (man : Manager T)
    : Type 0 where
  pub at : man.metaframes_at ≡ first.metaframes_at
  pub buffers : man.buffer_at ≡ first.buffer_at
  pub count : man.frames ≡ first.frames
  pub head : man.freelist ≡ first.metaframes_at
  pub others : (l : ℕ) → l ≢ 0 → man.metaframes l ≡ cells l
  pub written : OnlyZero first.metaframes_at man.writeback (man.metaframes 0).next_free_or_dirty

module _ {T : Type 0} (first : Manager T) (cells : ℕ → MetaFrame) (above : 0 < first.metaframes_at)
    (idle : (l : ℕ) → l < first.frames → (cells l).state ≡ fs_unpinned) where
  set_zero :
      (man : Manager T) (m : MetaFrame)
      → Sole first cells man
      → OnlyZero first.metaframes_at man.writeback m.next_free_or_dirty
      → Sole first cells (set_meta man 0 m)
  set_zero man m h w = record {
    at = h.at;
    buffers = h.buffers;
    count = h.count;
    head = h.head;
    others = λ l ne. rw (==_ne l 0 ne) (h.others l ne);
    written = w;
  }

  same :
      (man : Manager T) (b : ℕ → Buffer) (t : T)
      → Sole first cells man
      → Sole first cells (record man { buffer = b; lookup_table = t })
  same man b t h = record {
    at = h.at;
    buffers = h.buffers;
    count = h.count;
    head = h.head;
    others = h.others;
    written = h.written;
  }

  -- The pointer to element 0 leads to it, and NULL leads nowhere.
  slot-base :
      (man : Manager T) (p i : ℕ)
      → Sole first cells man
      → slot man p ≡ some i
      → (p ≡ 0) ⊎ (p ≡ first.metaframes_at)
      → (i ≡ 0) × (p ≡ first.metaframes_at)
  slot-base man p i h e q =
      let (_, here, _) = slot-some man p i e in
      let place : p ≡ first.metaframes_at + sizeof_meta_frame * i =
        here ∙ ap (λ b. b + sizeof_meta_frame * i) h.at in
      elim q [
        | inl null ↦ absurd (omega (arith, place, null, above))
        | inr base ↦ (omega (arith, place, base), base)
      ]

  -- A frame in another state than FS_UNPINNED is frame 0.
  used-zero :
      (man : Manager T) (i : ℕ) (s : FrameState)
      → Sole first cells man
      → i < man.frames
      → (man.metaframes i).state ≡ s
      → s ≢ fs_unpinned
      → i ≡ 0
  used-zero man i s h lt e ne = elim (Bool-cases (i == 0)) [
    | inl zero_index ↦ ground arith
    | inr other ↦
        let apart : i ≢ 0 = ground arith in
        absurd (
          ne
            (sym e ∙ ap (λ m. m.state) (h.others i apart) ∙ idle i (subst (λ k. i < k) h.count lt)))
  ]

  loaded-Sole :
      (man : Manager T) (i j : ℕ) (index : ℤ)
      → slot man man.freelist ≡ some i
      → slot man (man.metaframes i).next_free_or_dirty ≡ some j
      → Sole first cells man
      → Sole first cells (loaded man i j index)
  loaded-Sole man i j index at next h =
      let (zero_index, base) = slot-base man man.freelist i h at (inr h.head) in
      let next0 : slot man (man.metaframes 0).next_free_or_dirty ≡ some j =
        subst (λ k. slot man (man.metaframes k).next_free_or_dirty ≡ some j) zero_index next in
      let moved = set_meta man 0 (man.metaframes j) in
      let h1 : Sole first cells moved = set_zero man (man.metaframes j) h (elim h.written [
        | inl null ↦ inl null
        | inr (back, ends) ↦
            let (same_index, leads) = slot-base man _ j h next0 ends in
            inr (back, inr (ap (λ k. (man.metaframes k).next_free_or_dirty) same_index ∙ leads))
      ]) in
      subst (λ k. Sole first cells (loaded man k j index)) (sym zero_index)
        (set_zero moved (record (moved.metaframes 0) { state = fs_pinned; index = index }) h1
          h1.written)

  freed-Sole :
      (man : Manager T) (t : T)
      → Sole first cells man
      → Sole first cells (push_free (record (set_state man 0 fs_unpinned) { lookup_table = t }) 0)
  freed-Sole man t h =
      let cleaned = record (set_state man 0 fs_unpinned) { lookup_table = t } in
      subst (Sole first cells) (sym (push_free-next cleaned 0)) (record {
        at = h.at;
        buffers = h.buffers;
        count = h.count;
        head = omega (arith, h.at);
        others = λ l ne. rw (==_ne l 0 ne) (h.others l ne);
        written = elim h.written [
          | inl null ↦ inl null
          | inr (back, ends) ↦ inr (back, inr h.head)
        ];
      })

  written-Sole :
      (man : Manager T) (t : T)
      → Sole first cells man
      → Sole first cells
          (push_writeback (record (set_state man 0 fs_unpinned_dirty) { lookup_table = t }) 0)
  written-Sole man t h =
      let dirty = record (set_state man 0 fs_unpinned_dirty) { lookup_table = t } in
      subst (Sole first cells) (sym (push_writeback-next dirty 0)) (record {
        at = h.at;
        buffers = h.buffers;
        count = h.count;
        head = h.head;
        others = λ l ne. rw (==_ne l 0 ne) (h.others l ne);
        written = inr (
          omega (arith, h.at),
          elim h.written [ inl null ↦ inl null | inr (back, ends) ↦ inr back ],
        );
      })

  set_state-Sole :
      (man : Manager T) (s : FrameState)
      → Sole first cells man
      → Sole first cells (set_state man 0 s)
  set_state-Sole man s h = set_zero man (record (man.metaframes 0) { state = s }) h h.written

  -- The write-back loop goes on with NULL or with element 0.
  OnlyZero-next :
      (man : Manager T) (p i : ℕ)
      → Sole first cells man
      → slot man p ≡ some i
      → OnlyZero first.metaframes_at p (man.metaframes 0).next_free_or_dirty
      → (i ≡ 0)
        × OnlyZero first.metaframes_at
            (man.metaframes 0).next_free_or_dirty
            (man.metaframes 0).next_free_or_dirty
  OnlyZero-next man p i h at (inl null) =
      let (zero_index, base) = slot-base man p i h at (inl null) in
      absurd (omega (arith, above, null, base))
  OnlyZero-next man p i h at (inr (base, ends)) = (
    (slot-base man p i h at (inr base)).0,
    elim ends [ inl null ↦ inl null | inr leads ↦ inr (leads, inr leads) ],
  )

  pub Sole-Invariant :
      Invariant
        (Sole first cells)
        (λ man p. OnlyZero first.metaframes_at p (man.metaframes 0).next_free_or_dirty)
  Sole-Invariant = record {
    filled = λ man b h. same man b man.lookup_table h;
    entered = λ man t h. same man man.buffer t h;
    pinned = loaded-Sole;
    marked = λ man i lt e h.
        subst (λ k. Sole first cells (set_state man k fs_pinned_dirty))
          (sym (used-zero man i fs_pinned h lt e (λ u. cc))) (set_state-Sole man fs_pinned_dirty h);
    freed = λ man i t lt e h.
        subst
          (λ k.
            Sole first cells
              (push_free (record (set_state man k fs_unpinned) { lookup_table = t }) k))
          (sym (used-zero man i fs_pinned h lt e (λ u. cc))) (freed-Sole man t h);
    written = λ man i t lt e h.
        subst
          (λ k.
            Sole first cells
              (push_writeback (record (set_state man k fs_unpinned_dirty) { lookup_table = t }) k))
          (sym (used-zero man i fs_pinned_dirty h lt e (λ u. cc))) (written-Sole man t h);
    head = λ man h. h.written;
    flushed = λ man p i at h q.
        let (zero_index, rest) = OnlyZero-next man p i h at q in
        subst
          (λ k.
            Sole first cells (set_state man k fs_unpinned)
            × OnlyZero first.metaframes_at
                ((set_state man k fs_unpinned).metaframes k).next_free_or_dirty
                ((set_state man k fs_unpinned).metaframes 0).next_free_or_dirty)
          (sym zero_index) (set_state-Sole man fs_unpinned h, rest);
    unflushed = λ man p i at h q.
        let (zero_index, rest) = OnlyZero-next man p i h at q in
        subst
          (λ k.
            OnlyZero first.metaframes_at (man.metaframes k).next_free_or_dirty
              (man.metaframes 0).next_free_or_dirty)
          (sym zero_index) rest;
  }
