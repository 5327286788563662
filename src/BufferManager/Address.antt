-- ===== src/BufferManager/Address.antt =====
-- Addresses and indices of the two arrays of a buffer manager.
use mathlib.Core.Path.{ap₂}
use nickdb.Base.{
  ℕ, ◌+◌, ◌-◌, ◌*◌, ◌/◌, ◌%◌, ◌^◌, ◌≤◌, ◌<◌, ◌≡◌, ap, ◌&&◌, if◌then◌else◌, ◌≢◌, some, none, ◌==◌,
  ==_refl, ltb, arith,
}
use nickdb.Constants.{page_size}
use nickdb.BufferManager.{
  Manager, sizeof_meta_frame, get_frame_index_from_meta, get_frame_index_from_frame, meta_at,
  frame_at, slot,
}

-- Neither array begins at NULL, and both end within 64 bits.
pub record Placed {T : Type 0} (man : Manager T) : Type 0 where
  pub meta_above : 0 < man.metaframes_at
  pub meta_below : man.metaframes_at + sizeof_meta_frame * man.frames ≤ 2 ^ 64
  pub frame_above : 0 < man.buffer_at
  pub frame_below : man.buffer_at + page_size * man.frames ≤ 2 ^ 64

module _ {T : Type 0} (man : Manager T) (placed : Placed man) (i : ℕ) (lt : i < man.frames) where
  -- Any address inside frame i, of a manager whose arrays lie within 64 bits, has the index i.
  pub get_frame_index_from_frame-frame_at :
      (k : ℕ) → k < page_size → get_frame_index_from_frame man (frame_at man i + k) ≡ i
  unfolding get_frame_index_from_frame
  get_frame_index_from_frame-frame_at k h = omega (arith, placed.frame_above, placed.frame_below)

  pub get_frame_index_from_meta-meta_at : get_frame_index_from_meta man (meta_at man i) ≡ i
  unfolding get_frame_index_from_meta
  get_frame_index_from_meta-meta_at = omega (arith, placed.meta_above, placed.meta_below)

  pub slot-meta_at : slot man (meta_at man i) ≡ some i
  unfolding slot
  slot-meta_at = rw (get_frame_index_from_meta-meta_at, ==_refl (meta_at man i)) (ground arith)

  pub meta_at-ne-zero : meta_at man i ≢ 0
  meta_at-ne-zero e = omega (arith, placed.meta_above, e)

-- A pointer that leads to an element is the element's address.
module _ {T : Type 0} (man : Manager T) where
  pub slot-some :
      (p i : ℕ)
      → slot man p ≡ some i
      → (get_frame_index_from_meta man p ≡ i) × (p ≡ meta_at man i) × (i < man.frames)
  unfolding slot
  slot-some p i e = ground arith

-- The frame index of a pointer depends on where the array begins alone.
pub get_frame_index_from_meta_same :
    {T : Type 0} (man man' : Manager T) (p : ℕ)
    → man'.metaframes_at ≡ man.metaframes_at
    → get_frame_index_from_meta man' p ≡ get_frame_index_from_meta man p
unfolding get_frame_index_from_meta
get_frame_index_from_meta_same man man' p e =
    ap (λ b. (p + 2 ^ 64 - b) % 2 ^ 64 / sizeof_meta_frame) e

-- Managers that differ in other fields have the same elements.
pub slot_same :
    {T : Type 0} (man man' : Manager T) (p : ℕ)
    → man'.metaframes_at ≡ man.metaframes_at
    → man'.frames ≡ man.frames
    → slot man' p ≡ slot man p
unfolding slot get_frame_index_from_meta
slot_same man man' p e frames =
    ap₂
      (λ b n.
        let i = (p + 2 ^ 64 - b) % 2 ^ 64 / sizeof_meta_frame in
        if p == b + sizeof_meta_frame * i && ltb i n then some i else none)
      e frames

pub get_frame_index_from_frame_same :
    {T : Type 0} (man man' : Manager T) (p : ℕ)
    → man'.buffer_at ≡ man.buffer_at
    → get_frame_index_from_frame man' p ≡ get_frame_index_from_frame man p
unfolding get_frame_index_from_frame
get_frame_index_from_frame_same man man' p e = ap (λ b. (p + 2 ^ 64 - b) % 2 ^ 64 / page_size) e
