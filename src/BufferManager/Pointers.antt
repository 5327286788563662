-- ===== src/BufferManager/Pointers.antt =====
-- The pointers of a manager that are NULL or lead to an element, whatever the states of the frames.
use nickdb.Base.{ℕ, ◌+◌, ◌*◌, ◌<◌, ◌≡◌, sym, ap, subst, ◌⊎◌, inl, inr, some, ◌==◌, Bool-cases, ℤ}
use nickdb.Word.{Buffer}
use nickdb.Constants.{FrameState, fs_pinned, fs_unpinned, fs_pinned_dirty, fs_unpinned_dirty}
use nickdb.BufferManager.Address.{slot-some}
use nickdb.BufferManager.Release.{push_free-next, push_writeback-next}
use nickdb.BufferManager.Invariant.{Invariant, Claims, loaded}
use nickdb.BufferManager.{
  MetaFrame, Manager, sizeof_meta_frame, slot, set_meta, set_state, meta_at, push_free,
  push_writeback,
}

-- NULL, or the address of one of the `n` elements of the array at `base`.
abbrev pub IsPointer : ℕ → ℕ → ℕ → Type 0
IsPointer base n p = (p ≡ 0) ⊎ ((i : ℕ) × (i < n) × (p ≡ base + sizeof_meta_frame * i))

-- The array `metaframes` stands at `base` and has `n` elements, and the heads of both lists and the
-- links of all elements are such pointers.
pub record Pointers {T : Type 0} (base n : ℕ) (man : Manager T) : Type 0 where
  pub at : man.metaframes_at ≡ base
  pub count : man.frames ≡ n
  pub free_head : IsPointer base n man.freelist
  pub written_head : IsPointer base n man.writeback
  pub links : (l : ℕ) → l < n → IsPointer base n (man.metaframes l).next_free_or_dirty

module _ {T : Type 0} (base n : ℕ) where
  pub set_meta-Pointers :
      (man : Manager T) (i : ℕ) (m : MetaFrame)
      → Pointers base n man
      → IsPointer base n m.next_free_or_dirty
      → Pointers base n (set_meta man i m)
  set_meta-Pointers man i m h next = record {
    at = h.at;
    count = h.count;
    free_head = h.free_head;
    written_head = h.written_head;
    links = λ l lt. elim (Bool-cases (l == i)) [ inl e ↦ rw e next | inr e ↦ rw e (h.links l lt) ];
  }

  pub set_state-Pointers :
      (man : Manager T) (i : ℕ) (s : FrameState)
      → i < n
      → Pointers base n man
      → Pointers base n (set_state man i s)
  set_state-Pointers man i s lt h =
      set_meta-Pointers man i (record (man.metaframes i) { state = s }) h (h.links i lt)

  slot-inside : (man : Manager T) (p i : ℕ) → Pointers base n man → slot man p ≡ some i → i < n
  slot-inside man p i h e = let (_, _, lt) = slot-some man p i e in subst (λ k. i < k) h.count lt

  push_free-Pointers :
      (man : Manager T) (i : ℕ) → i < n → Pointers base n man → Pointers base n (push_free man i)
  push_free-Pointers man i lt h = subst (Pointers base n) (sym (push_free-next man i)) (
      set_meta-Pointers (record man { freelist = meta_at man i }) i _
        (record {
          at = h.at;
          count = h.count;
          free_head = inr (i, lt, ap (λ b. b + sizeof_meta_frame * i) h.at);
          written_head = h.written_head;
          links = h.links;
        })
        h.free_head)

  push_writeback-Pointers :
      (man : Manager T) (i : ℕ)
      → i < n
      → Pointers base n man
      → Pointers base n (push_writeback man i)
  push_writeback-Pointers man i lt h = subst (Pointers base n) (sym (push_writeback-next man i)) (
      set_meta-Pointers (record man { writeback = meta_at man i }) i _
        (record {
          at = h.at;
          count = h.count;
          free_head = h.free_head;
          written_head = inr (i, lt, ap (λ b. b + sizeof_meta_frame * i) h.at);
          links = h.links;
        })
        h.written_head)

module _ {T : Type 0} (base n : ℕ) where
  same-Pointers :
      (man : Manager T) (b : ℕ → Buffer) (t : T)
      → Pointers base n man
      → Pointers base n (record man { buffer = b; lookup_table = t })
  same-Pointers man b t h = record {
    at = h.at;
    count = h.count;
    free_head = h.free_head;
    written_head = h.written_head;
    links = h.links;
  }

  loaded-Pointers :
      (man : Manager T) (i j : ℕ) (index : ℤ)
      → slot man man.freelist ≡ some i
      → slot man (man.metaframes i).next_free_or_dirty ≡ some j
      → Pointers base n man
      → Pointers base n (loaded man i j index)
  loaded-Pointers man i j index at next h =
      let behind = h.links j (slot-inside base n man _ j h next) in
      let moved = set_meta man i (man.metaframes j) in
      let h1 = set_meta-Pointers base n man i (man.metaframes j) h behind in
      set_meta-Pointers base n moved i
        (record (moved.metaframes i) { state = fs_pinned; index = index }) h1
        (h1.links i (slot-inside base n man _ i h at))

  -- All pointers are kept, whatever the write-back loop visits.
  pub Pointers-Invariant :
      Invariant (λ (man : Manager T). Pointers base n man) (λ man p. IsPointer base n p)
  Pointers-Invariant = record {
    filled = λ man b h. same-Pointers man b man.lookup_table h;
    entered = λ man t h. same-Pointers man man.buffer t h;
    pinned = loaded-Pointers;
    marked = λ man i lt e h.
        set_state-Pointers base n man i fs_pinned_dirty (subst (λ k. i < k) h.count lt) h;
    freed = λ man i t lt e h.
        let inside = subst (λ k. i < k) h.count lt in
        push_free-Pointers base n (record (set_state man i fs_unpinned) { lookup_table = t }) i
          inside
          (same-Pointers (set_state man i fs_unpinned) man.buffer t
            (set_state-Pointers base n man i fs_unpinned inside h));
    written = λ man i t lt e h.
        let inside = subst (λ k. i < k) h.count lt in
        push_writeback-Pointers base n
          (record (set_state man i fs_unpinned_dirty) { lookup_table = t }) i inside
          (same-Pointers (set_state man i fs_unpinned_dirty) man.buffer t
            (set_state-Pointers base n man i fs_unpinned_dirty inside h));
    head = λ man h. h.written_head;
    flushed = λ man p i at h q.
        let inside = slot-inside base n man p i h at in
        let h' = set_state-Pointers base n man i fs_unpinned inside h in (h', h'.links i inside);
    unflushed = λ man p i at h q. h.links i (slot-inside base n man p i h at);
  }

  pub Pointers-Claims : Claims (λ (man : Manager T). Pointers base n man)
  Pointers-Claims man i lt h =
      set_state-Pointers base n man i fs_pinned (subst (λ k. i < k) h.count lt) h
