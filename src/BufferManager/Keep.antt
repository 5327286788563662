-- ===== src/BufferManager/Keep.antt =====
-- buff_pin reads the disk and never writes it.
use nickdb.Word.{Buffer}
use nickdb.Constants.{status_ok, status_err, status_meta_page, status_no_free_frames}
use nickdb.Base.{Option-cases, inl, inr, ℕ, Option, none, some, not, ◌==◌, ltb, ℤ, pos, ◌==ℤ◌}
use nickdb.GLib.{HashTable}
use nickdb.Posix.{Posix}
use nickdb.Proc.{Body, and_then}
use nickdb.Proc.Keeps.{Keeps, Leaves, guarded, requires, calls, outcome-Keeps}
use nickdb.FileIo.Pages.{get_page}
use nickdb.FileIo.Pages.Keep.{KeptByReads, get_page-Keeps}
use nickdb.BufferManager.{
  Manager, update, slot, is_ok, frame_at, get_frame_index_from_meta, copy_next, fetch_page, pin_in,
  buff_pin,
}

module _ {W T : Type 0} ⦃os : Posix W⦄ ⦃g : HashTable T⦄ (I : W → Type 0)
    (reads : KeptByReads os I) where
  copy_next-Leaves :
      {R B : Type 0} (man : Manager T) (w : W) (k : Manager T → Body W R B)
      → I w
      → ((m : Manager T) (v : W) → I v → Leaves I (k m v))
      → Leaves I (and_then (copy_next man w) k)
  unfolding copy_next
  copy_next-Leaves man w k h rest = elim (Option-cases (slot man man.freelist)) [
    | inl e ↦ rw e tt
    | inr (i, e) ↦ elim (Option-cases (slot man (man.metaframes i).next_free_or_dirty)) [
      | inl e' ↦ rw (e, e') tt
      | inr (j, e') ↦ rw (e, e') (rest _ w h)
    ]
  ]

  fetch_page-Leaves :
      (key value : ℕ) (man : Manager T) (i : ℕ) (index : ℤ) (w : W)
      → I w
      → Leaves I (fetch_page key value man i index w)
  unfolding fetch_page
  fetch_page-Leaves key value man i index w h =
      let (inserted, table) = g.insert man.lookup_table key value in
      let entered = record man { lookup_table = table } in
      let read = λ (d : Buffer). record entered { buffer = update man.buffer i d } in
      guarded I (not inserted) (status_err, none, entered) w _ h
        λ w1 h1. requires I (ltb i man.frames) w1 _ h1 λ w2 h2.
          calls I (get_page (man.buffer i) man.store index w2) _
            (get_page-Keeps I reads (man.buffer i) man.store index w2 h2)
            λ r w3 h3.
              guarded I (not (is_ok r.0)) (r.0, none, read r.1) w3 _ h3
                λ w4 h4. copy_next-Leaves (read r.1) w4 _ h4 λ m w5 h5. h5

  pin_in-Keeps :
      (key value : ℕ) (man : Manager T) (index : ℤ) (w : W)
      → I w
      → Keeps I (pin_in key value man index w)
  unfolding pin_in
  pin_in-Keeps key value man index w h =
      let i = get_frame_index_from_meta man man.freelist in
      outcome-Keeps I _ (
        guarded I (index ==ℤ pos 0) (status_meta_page, none, man) w _ h
          λ w1 h1.
            guarded I (man.freelist == 0) (status_no_free_frames, none, man) w1 _ h1
              λ w2 h2.
                guarded I (not (g.lookup man.lookup_table key == 0))
                  (status_ok, some (frame_at man i), man) w2 _ h2
                  λ w3 h3. fetch_page-Leaves key value man i index w3 h3)

  -- The state of the system after buff_pin has every property that reads and seeks keep.
  pub buff_pin-Keeps :
      (key value : ℕ) (man : Option (Manager T)) (index : ℤ) (w : W)
      → I w
      → Keeps I (buff_pin key value man index w)
  unfolding buff_pin
  buff_pin-Keeps key value none index w h = h
  buff_pin-Keeps key value (some man) index w h = outcome-Keeps I _ (
      calls I (pin_in key value man index w) _ (pin_in-Keeps key value man index w h) λ r w1 h1. h1)
