-- ===== src/BufferManager/Pin.antt =====
-- buff_pin: it always hands out the frame at the head of the free list, and leaves the head.
use mathlib.Core.Path.{ap₂}
use nickdb.Base.{
  true, false, ◌≢◌, ℕ, ◌+◌, ◌*◌, ◌≡◌, refl, ◌∙◌, ap, not, ◌⊎◌, inl, inr, Option, none, some, ◌==◌,
  ltb, arith, ℤ, pos, ◌==ℤ◌,
}
use nickdb.Constants.{
  page_size, Status, status_ok, status_err, status_meta_page, status_no_free_frames,
}
use nickdb.Word.{Buffer}
use nickdb.GLib.{HashTable}
use nickdb.Posix.{Posix}
use nickdb.Proc.{ret}
use nickdb.Proc.Partial.{
  IfReturns, IfReturns-ret, Leads, seq, guard, guard_if, required, dereferenced, call, called,
  outcome-IfReturns,
}
use nickdb.FileIo.Pages.{get_page}
use nickdb.BufferManager.Address.{get_frame_index_from_meta_same}
use nickdb.BufferManager.{
  Manager, is_ok, update, get_frame_index_from_meta, frame_at, slot, copy_next, fetch_page, pin_in,
  buff_pin,
}

-- What the second manager keeps of the first, and the frame that is handed out, if one is.
pub record Handed {T : Type 0} (man : Manager T) (frame : Option ℕ) (man' : Manager T)
    : Type 0 where
  pub head : man'.freelist ≡ man.freelist
  pub metas : man'.metaframes_at ≡ man.metaframes_at
  pub buffers : man'.buffer_at ≡ man.buffer_at
  pub frames : man'.frames ≡ man.frames
  pub out :
      (frame ≡ none) ⊎ (frame ≡ some (frame_at man (get_frame_index_from_meta man man.freelist)))

pub not_ok : (s : Status) → not (is_ok s) ≡ true → s ≢ status_ok
not_ok s bad e = let good : not (is_ok s) ≡ false = ap (λ x. not (is_ok x)) e in cc

-- Two frames that are handed out one after the other.
pub Handed-frame :
    {T : Type 0} (man man1 man2 : Manager T) (a b : ℕ)
    → Handed man (some a) man1
    → Handed man1 (some b) man2
    → a ≡ b
Handed-frame man man1 man2 a b h1 h2 =
    let index : get_frame_index_from_meta man1 man1.freelist
        ≡ get_frame_index_from_meta man man.freelist =
      get_frame_index_from_meta_same man man1 man1.freelist h1.metas
      ∙ ap (get_frame_index_from_meta man) h1.head in
    let at : frame_at man1 (get_frame_index_from_meta man1 man1.freelist)
        ≡ frame_at man (get_frame_index_from_meta man man.freelist) =
      ap₂ (λ b n. b + page_size * n) h1.buffers index in
    ground (arith, at)

-- With STATUS_OK there is a frame.
abbrev pub Pinned : {T : Type 0} → Manager T → Status × Option ℕ × Manager T → Type 0
Pinned man (s, frame, man') = Handed man frame man' × (s ≡ status_ok → frame ≢ none)

abbrev pub Returned : {T : Type 0} → Manager T → Status × Option ℕ × Option (Manager T) → Type 0
Returned man (s, frame, none) = ⊥
Returned man (s, frame, some man') = Handed man frame man'

module _ {W T : Type 0} ⦃os : Posix W⦄ ⦃g : HashTable T⦄ where
  copy_next-Leads :
      {R : Type 0} (P : R → Type 0) (man man' : Manager T) (w : W)
      → Handed man none man'
      → Leads P (λ m. Handed man none m) (copy_next {W = W} man' w)
  unfolding copy_next
  copy_next-Leads P man man' w h =
      dereferenced P (Handed man none) (slot man' man'.freelist) w _ λ i at.
        dereferenced P (Handed man none) (slot man' (man'.metaframes i).next_free_or_dirty) w _
          λ j _. record {
            head = h.head;
            metas = h.metas;
            buffers = h.buffers;
            frames = h.frames;
            out = inl refl;
          }

  fetch_page-Leads :
      (key value : ℕ) (man : Manager T) (index : ℤ) (w : W)
      → Leads
          (Pinned man)
          (Pinned man)
          (fetch_page key value man (get_frame_index_from_meta man man.freelist) index w)
  unfolding fetch_page
  fetch_page-Leads key value man index w =
      let i = get_frame_index_from_meta man man.freelist in
      let (inserted, table) = g.insert man.lookup_table key value in
      let entered = record man { lookup_table = table } in
      let read = λ (d : Buffer). record entered { buffer = update man.buffer i d } in
      let kept : (b : ℕ → Buffer) → Handed man none (record entered { buffer = b }) =
        λ b. record { head = refl; metas = refl; buffers = refl; frames = refl; out = inl refl } in
      guard (Pinned man) (Pinned man) (not inserted) (status_err, none, entered) w _
        (kept man.buffer, λ e. cc)
        λ new. required (Pinned man) (Pinned man) (ltb i man.frames) w _ λ inside.
          call (Pinned man) (Pinned man) (get_page (man.buffer i) man.store index w) _ λ r w1.
            guard_if (Pinned man) (Pinned man) (not (is_ok r.0)) (r.0, none, read r.1) w1 _
              (λ bad. (kept (update man.buffer i r.1), λ e. absurd (not_ok r.0 bad e)))
              λ good.
                seq (Pinned man) (Handed man none) (Pinned man) (copy_next (read r.1) w1) _
                  (copy_next-Leads (Pinned man) man (read r.1) w1 (kept (update man.buffer i r.1)))
                  λ m w2 h. (
                    record {
                      head = h.head;
                      metas = h.metas;
                      buffers = h.buffers;
                      frames = h.frames;
                      out = inr refl;
                    },
                    λ e u. cc,
                  )

  -- What pin_in leaves of the head of the free list, and which frame it hands out.
  pub pin_in-Pinned :
      (key value : ℕ) (man : Manager T) (index : ℤ) (w : W)
      → IfReturns (Pinned man) (pin_in key value man index w)
  unfolding pin_in
  pin_in-Pinned key value man index w =
      let i = get_frame_index_from_meta man man.freelist in
      let kept : Handed man none man = record {
        head = refl;
        metas = refl;
        buffers = refl;
        frames = refl;
        out = inl refl;
      } in
      outcome-IfReturns (Pinned man) _ (
        guard (Pinned man) (Pinned man) (index ==ℤ pos 0) (status_meta_page, none, man) w _
          (kept, λ e. cc)
          λ real.
            guard (Pinned man) (Pinned man) (man.freelist == 0) (status_no_free_frames, none, man) w
              _ (kept, λ e. cc)
              λ some_free.
                guard (Pinned man) (Pinned man) (not (g.lookup man.lookup_table key == 0))
                  (status_ok, some (frame_at man i), man) w _
                  (
                    record {
                      head = refl;
                      metas = refl;
                      buffers = refl;
                      frames = refl;
                      out = inr refl;
                    },
                    λ e u. cc,
                  )
                  λ unknown. fetch_page-Leads key value man index w)

  -- Whatever buff_pin returns, the manager keeps its arrays and the head of its free list.
  pub buff_pin-Returned :
      (key value : ℕ) (man : Manager T) (index : ℤ) (w : W)
      → IfReturns (Returned man) (buff_pin key value (some man) index w)
  unfolding buff_pin
  buff_pin-Returned key value man index w = outcome-IfReturns (Returned man) _ (
      called (Returned man) (Pinned man) (Returned man) (pin_in key value man index w) _
        (pin_in-Pinned key value man index w) λ r w1 h. h.0)

  -- On any system: if two calls of buff_pin, the second on the manager that the first one left,
  -- both return STATUS_OK, for whatever pages, then both hand out the same frame.
  pub buff_pin-same_frame :
      (key1 value1 key2 value2 : ℕ) (man man1 man2 : Manager T) (p q : ℤ) (w w1 v v2 : W) (a b : ℕ)
      → buff_pin key1 value1 (some man) p w ≡ ret (status_ok, some a, some man1) w1
      → buff_pin key2 value2 (some man1) q v ≡ ret (status_ok, some b, some man2) v2
      → a ≡ b
  buff_pin-same_frame key1 value1 key2 value2 man man1 man2 p q w w1 v v2 a b first second =
      let h1 =
        IfReturns-ret (Returned man) (buff_pin key1 value1 (some man) p w)
          (buff_pin-Returned key1 value1 man p w) first in
      let h2 =
        IfReturns-ret (Returned man1) (buff_pin key2 value2 (some man1) q v)
          (buff_pin-Returned key2 value2 man1 q v) second in
      Handed-frame man man1 man2 a b h1 h2
