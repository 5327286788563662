-- ===== src/BufferManager/Stale.antt =====
-- buff_pin with a key that is in the table already: an address that has been a key before.
use nickdb.Base.{ℕ, ◌≡◌, ◌∙◌, ◌≢◌, sym, ap, Option, none, some, ==_ne, ==_refl, ℤ, pos, ==ℤ_ne}
use nickdb.Constants.{Status, status_ok}
use nickdb.GLib.{HashTable, TableLaws}
use nickdb.Posix.{Posix}
use nickdb.Proc.{ret}
use nickdb.Proc.Partial.{IfReturns, IfReturns-ret, called, outcome-IfReturns}
use nickdb.BufferManager.{Manager, get_frame_index_from_meta, frame_at, pin_in, buff_pin}
use nickdb.BufferManager.Address.{get_frame_index_from_meta_same}
use nickdb.BufferManager.Destroy.{fetch_page-lookup_table}
use nickdb.BufferManager.Pin.{Returned, buff_pin-Returned}

abbrev Filled : {T : Type 0} → T → Status × Option ℕ × Manager T → Type 0
Filled table (code, _, man') = man'.lookup_table ≡ table

abbrev Given : {T : Type 0} → T → Status × Option ℕ × Option (Manager T) → Type 0
Given table (code, _, none) = ⊥
Given table (code, _, some man') = man'.lookup_table ≡ table

module _ {W T : Type 0} ⦃os : Posix W⦄ ⦃g : HashTable T⦄ (laws : TableLaws g) where
  -- Whatever comes after the insertion, the table keeps the new key.
  pin_in-Filled :
      (key value : ℕ) (man : Manager T) (index : ℤ) (w : W)
      → g.lookup man.lookup_table key ≡ 0
      → index ≢ pos 0
      → man.freelist ≢ 0
      → IfReturns (Filled (g.insert man.lookup_table key value).1) (pin_in key value man index w)
  unfolding pin_in
  pin_in-Filled key value man index w new real some_free =
      let P = Filled (g.insert man.lookup_table key value).1 in
      outcome-IfReturns P _ (
        rw (==ℤ_ne index (pos 0) real, ==_ne man.freelist 0 some_free, new)
          (fetch_page-lookup_table laws P key value man _ index w new (λ code out m same. same)))

  buff_pin-Given :
      (key value : ℕ) (man : Manager T) (index : ℤ) (w : W)
      → g.lookup man.lookup_table key ≡ 0
      → index ≢ pos 0
      → man.freelist ≢ 0
      → IfReturns
          (Given (g.insert man.lookup_table key value).1)
          (buff_pin key value (some man) index w)
  unfolding buff_pin
  buff_pin-Given key value man index w new real some_free =
      let table = (g.insert man.lookup_table key value).1 in
      outcome-IfReturns (Given table) _ (
        called (Given table) (Filled table) (Given table) (pin_in key value man index w) _
          (pin_in-Filled key value man index w new real some_free) λ r w1 h. h)

  pin_in_found :
      (key value : ℕ) (man : Manager T) (index : ℤ) (w : W)
      → g.lookup man.lookup_table key ≢ 0
      → index ≢ pos 0
      → man.freelist ≢ 0
      → buff_pin key value (some man) index w
        ≡ ret
            (status_ok, some (frame_at man (get_frame_index_from_meta man man.freelist)), some man)
            w
  unfolding buff_pin pin_in
  pin_in_found key value man index w old real some_free = rw (
    ==ℤ_ne index (pos 0) real,
    ==_ne man.freelist 0 some_free,
    ==_ne (g.lookup man.lookup_table key) 0 old,
  )

  -- On any system, from a free list that is not empty: let buff_pin of a page other than the metadata
  -- page return, with whatever status, where the key was not in the table and the address stored with
  -- it is not NULL. Then a call of buff_pin on the manager that it left, for any page other than the
  -- metadata page, whose key has the same address, reads nothing, changes nothing and returns
  -- STATUS_OK and the frame at the head of the free list, the one that the first call was to fill.
  pub buff_pin-stale :
      (key value value2 : ℕ) (man man1 : Manager T) (p q : ℤ) (w w1 v : W) (code : Status)
      (out : Option ℕ)
      → g.lookup man.lookup_table key ≡ 0
      → value ≢ 0
      → p ≢ pos 0
      → q ≢ pos 0
      → man.freelist ≢ 0
      → buff_pin key value (some man) p w ≡ ret (code, out, some man1) w1
      → buff_pin key value2 (some man1) q v
        ≡ ret
            (status_ok, some (frame_at man (get_frame_index_from_meta man man.freelist)), some man1)
            v
  buff_pin-stale key value value2 man man1 p q w w1 v code out new some_value real_p real_q
        some_free run =
      let h = IfReturns-ret (Returned man) _ (buff_pin-Returned key value man p w) run in
      let table =
        IfReturns-ret (Given (g.insert man.lookup_table key value).1) _
          (buff_pin-Given key value man p w new real_p some_free) run in
      let found : g.lookup man1.lookup_table key ≡ value =
        ap (λ t. g.lookup t key) table
        ∙ laws.lookup-insert man.lookup_table key value key
        ∙ rw (==_refl key) in
      let index : get_frame_index_from_meta man1 man1.freelist
          ≡ get_frame_index_from_meta man man.freelist =
        get_frame_index_from_meta_same man man1 man1.freelist h.metas
        ∙ ap (get_frame_index_from_meta man) h.head in
      let again =
        pin_in_found key value2 man1 q v (λ e. some_value (sym found ∙ e)) real_q
          (λ e. some_free (sym h.head ∙ e)) in
      again ∙ rw (index, h.buffers)
