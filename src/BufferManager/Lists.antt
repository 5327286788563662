-- ===== src/BufferManager/Lists.antt =====
-- The free list and the write-back list of a manager, together with the states of their frames.
use nickdb.Base.{ℕ, ◌<◌, ◌≡◌, ◌∙◌, ◌≢◌, sym, ap, subst, some, List, [], ◌∷◌}
use nickdb.Constants.{FrameState, fs_unpinned, fs_unpinned_dirty}
use nickdb.BufferManager.{Manager, slot, meta_at}
use nickdb.BufferManager.Address.{Placed, slot_same, slot-meta_at, meta_at-ne-zero}

-- From the pointer `p` the elements are linked, the last one to NULL, and all are in the state `s`.
abbrev pub Listed : {T : Type 0} → Manager T → FrameState → ℕ → List ℕ → Type 0
Listed man s p [] = p ≡ 0
Listed man s p (i ∷ xs) =
    (p ≢ 0)
    × (slot man p ≡ some i)
    × ((man.metaframes i).state ≡ s)
    × Listed man s (man.metaframes i).next_free_or_dirty xs

-- The free frames and the frames to write back, in their order. That every frame in one of the two
-- states is listed, as src/lib/buffer_manager.h has it of the free list, is not asked for. A manager
-- whose first free frame is pinned is not well-formed.
pub record WellFormed {T : Type 0} (man : Manager T) (free dirty : List ℕ) : Type 0 where
  pub placed : Placed man
  pub free_listed : Listed man fs_unpinned man.freelist free
  pub dirty_listed : Listed man fs_unpinned_dirty man.writeback dirty

-- Managers with the same arrays, but for what is stored in element i and the data of the frames.
pub record SameBut {T : Type 0} (i : ℕ) (man man' : Manager T) : Type 0 where
  pub metas : man'.metaframes_at ≡ man.metaframes_at
  pub buffers : man'.buffer_at ≡ man.buffer_at
  pub frames : man'.frames ≡ man.frames
  pub others : (l : ℕ) → l ≢ i → man'.metaframes l ≡ man.metaframes l

module _ {T : Type 0} (man man' : Manager T) (i : ℕ) (same : SameBut i man man') where
  pub Placed-same : Placed man → Placed man'
  Placed-same h = record {
    meta_above = subst (λ b. 0 < b) (sym same.metas) h.meta_above;
    meta_below = rw (same.metas, same.frames) h.meta_below;
    frame_above = subst (λ b. 0 < b) (sym same.buffers) h.frame_above;
    frame_below = rw (same.buffers, same.frames) h.frame_below;
  }

  -- A list of frames in another state than element i has is not touched.
  pub Listed-same :
      (s : FrameState) (p : ℕ) (xs : List ℕ)
      → (man.metaframes i).state ≢ s
      → Listed man s p xs
      → Listed man' s p xs
  Listed-same s p [] ne h = h
  Listed-same s p (j ∷ xs) ne (real, at, state, rest) =
      let kept : man'.metaframes j ≡ man.metaframes j =
        same.others j λ e. ne (ap (λ l. (man.metaframes l).state) (sym e) ∙ state) in
      (
        real,
        slot_same man man' p same.metas same.frames ∙ at,
        ap (λ m. m.state) kept ∙ state,
        subst (λ m. Listed man' s m.next_free_or_dirty xs) (sym kept)
            (Listed-same s (man.metaframes j).next_free_or_dirty xs ne rest),
      )

  -- Element i is put before such a list.
  pub Listed-push :
      (s : FrameState) (p : ℕ) (xs : List ℕ)
      → Placed man
      → i < man.frames
      → (man.metaframes i).state ≢ s
      → Listed man s p xs
      → (man'.metaframes i).state ≡ s
      → (man'.metaframes i).next_free_or_dirty ≡ p
      → Listed man' s (meta_at man i) (i ∷ xs)
  Listed-push s p xs placed lt ne h state next = (
    meta_at-ne-zero man placed i lt,
    slot_same man man' (meta_at man i) same.metas same.frames ∙ slot-meta_at man placed i lt,
    state,
    subst (λ q. Listed man' s q xs) (sym next) (Listed-same s p xs ne h),
  )
