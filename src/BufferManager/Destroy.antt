-- ===== src/BufferManager/Destroy.antt =====
-- buff_destroy of a manager through which a page has been pinned.
use nickdb.Base.{
  ℕ, zero, suc, ◌+◌, ◌≡◌, refl, ◌≢◌, ap, ◌∙◌, not, Option, none, some, ◌==◌, ltb, false, Bool-cases,
  inl, inr, ℤ, pos, ◌==ℤ◌,
}
use nickdb.Word.{Buffer}
use nickdb.Constants.{Status, status_ok, status_meta_page, status_no_free_frames, fs_unpinned}
use nickdb.GLib.{HashTable, TableLaws}
use nickdb.Posix.{Posix}
use nickdb.Proc.{ret}
use nickdb.Proc.Partial.{
  IfReturns, IfReturns-ret, Leads, seq, guard, required, dereferenced, call, called, last_call,
  outcome-IfReturns,
}
use nickdb.FileIo.Pages.{get_page, put_page}
use nickdb.BufferManager.{
  Manager, is_ok, update, slot, set_state, copy_next, fetch_page, pin_in, buff_pin,
}
use nickdb.BufferManager.Calls.{flush_loop, buff_destroy}

-- What a run that returns STATUS_OK has left in the table.
abbrev Entered : {T : Type 0} → T → Status × Option ℕ × Manager T → Type 0
Entered table (code, _, man') = code ≡ status_ok → man'.lookup_table ≡ table

abbrev Given : {T : Type 0} → T → Status × Option ℕ × Option (Manager T) → Type 0
Given table (code, _, none) = Unit
Given table (code, _, some man') = code ≡ status_ok → man'.lookup_table ≡ table

module _ {W T : Type 0} ⦃os : Posix W⦄ ⦃g : HashTable T⦄ where
  flush_loop-lookup_table :
      (k : ℕ) (man : Manager T) (meta : ℕ) (w : W)
      → IfReturns (λ m. m.lookup_table ≡ man.lookup_table) (flush_loop k man meta w)
  unfolding flush_loop
  flush_loop-lookup_table zero man meta w = tt
  flush_loop-lookup_table (suc k) man meta w =
      let P : Manager T → Type 0 = λ m. m.lookup_table ≡ man.lookup_table in
      elim (Bool-cases (meta == 0)) [
        | inl e ↦ rw e refl
        | inr e ↦ rw e (
            outcome-IfReturns P _ (
              dereferenced P P (slot man meta) w _ λ i at.
                call P P (put_page (man.buffer i) man.store (man.metaframes i).index w) _ λ put w1.
                  elim (Bool-cases (is_ok put)) [
                    | inl good ↦ rw good (
                        last_call P _
                          (flush_loop-lookup_table k (set_state man i fs_unpinned) _ w1))
                    | inr bad ↦ rw bad (last_call P _ (flush_loop-lookup_table k man _ w1))
                  ]))
      ]

  -- A manager whose table has an entry.
  buff_destroy-filled :
      (man : Manager T) (w : W)
      → g.is_empty man.lookup_table ≡ false
      → IfReturns (λ _. ⊥) (buff_destroy (some (some man)) w)
  unfolding buff_destroy
  buff_destroy-filled man w filled =
      let P : Status × Option (Option (Manager T)) → Type 0 = λ _. ⊥ in
      outcome-IfReturns P _ (
        called P (λ m. m.lookup_table ≡ man.lookup_table) P
          (flush_loop (man.frames + 1) man man.writeback w) _
          (flush_loop-lookup_table (man.frames + 1) man man.writeback w)
          λ m w1 same. rw (same, filled) tt)

  copy_next-lookup_table :
      {R : Type 0} (P : R → Type 0) (man : Manager T) (w : W)
      → Leads P (λ m. m.lookup_table ≡ man.lookup_table) (copy_next {W = W} man w)
  unfolding copy_next
  copy_next-lookup_table P man w =
      dereferenced P (λ m. m.lookup_table ≡ man.lookup_table) (slot man man.freelist) w _
        λ i at.
          dereferenced P (λ m. m.lookup_table ≡ man.lookup_table)
            (slot man (man.metaframes i).next_free_or_dirty) w _ λ j next. refl

  -- Behind the lookup the table has the new key, whatever is returned.
  pub fetch_page-lookup_table :
      (laws : TableLaws g) (P : Status × Option ℕ × Manager T → Type 0) (key value : ℕ)
      (man : Manager T) (i : ℕ) (index : ℤ) (w : W)
      → g.lookup man.lookup_table key ≡ 0
      → ((code : Status) (out : Option ℕ) (m : Manager T)
          → m.lookup_table ≡ (g.insert man.lookup_table key value).1
          → P (code, out, m))
      → Leads P P (fetch_page key value man i index w)
  unfolding fetch_page
  fetch_page-lookup_table laws P key value man i index w new rest =
      let entered = record man { lookup_table = (g.insert man.lookup_table key value).1 } in
      let read = λ (d : Buffer). record entered { buffer = update man.buffer i d } in
      rw (laws.insert_new man.lookup_table key value new) (
        required P P (ltb i man.frames) w _ λ bounded.
          call P P (get_page (man.buffer i) man.store index w) _ λ r w1.
            guard P P (not (is_ok r.0)) (r.0, none, read r.1) w1 _ (rest _ _ _ refl)
              λ good.
                seq P (λ m. m.lookup_table ≡ entered.lookup_table) P (copy_next (read r.1) w1) _
                  (copy_next-lookup_table P (read r.1) w1) λ m w2 same. rest _ _ _ same)

  pin_in-Entered :
      (laws : TableLaws g) (key value : ℕ) (man : Manager T) (index : ℤ) (w : W)
      → g.lookup man.lookup_table key ≡ 0
      → IfReturns (Entered (g.insert man.lookup_table key value).1) (pin_in key value man index w)
  unfolding pin_in
  pin_in-Entered laws key value man index w new =
      let P = Entered (g.insert man.lookup_table key value).1 in
      outcome-IfReturns P _ (
        guard P P (index ==ℤ pos 0) (status_meta_page, none, man) w _ (λ e. cc)
          λ real.
            guard P P (man.freelist == 0) (status_no_free_frames, none, man) w _ (λ e. cc)
              λ some_free. rw new (
                fetch_page-lookup_table laws P key value man _ index w new
                  (λ code out m same e. same)))

  buff_pin-Entered :
      (laws : TableLaws g) (key value : ℕ) (man man' : Manager T) (index : ℤ) (frame : Option ℕ)
      (w w' : W)
      → g.lookup man.lookup_table key ≡ 0
      → buff_pin key value (some man) index w ≡ ret (status_ok, frame, some man') w'
      → man'.lookup_table ≡ (g.insert man.lookup_table key value).1
  unfolding buff_pin
  buff_pin-Entered laws key value man man' index frame w w' new run =
      let table = (g.insert man.lookup_table key value).1 in
      IfReturns-ret (Given table) (buff_pin key value (some man) index w)
        (outcome-IfReturns (Given table) _ (
          called (Given table) (Entered table) (Given table) (pin_in key value man index w) _
            (pin_in-Entered laws key value man index w new) λ r w1 h. h))
        run refl

  -- On any system: when buff_pin has returned STATUS_OK for a page whose key was not in the table, a
  -- call of buff_destroy with the manager that it left never returns. Its loop goes on for ever, or
  -- behaviour is undefined, since the table is made to free the address of a local variable.
  pub buff_destroy-after_pin :
      (laws : TableLaws g) (key value : ℕ) (man man' : Manager T) (index : ℤ) (frame : Option ℕ)
      (w w' v v' : W) (result : Status × Option (Option (Manager T)))
      → g.lookup man.lookup_table key ≡ 0
      → buff_pin key value (some man) index w ≡ ret (status_ok, frame, some man') w'
      → buff_destroy (some (some man')) v ≢ ret result v'
  buff_destroy-after_pin laws key value man man' index frame w w' v v' result new run ended =
      let filled : g.is_empty man'.lookup_table ≡ false =
        ap (λ t. g.is_empty t) (buff_pin-Entered laws key value man man' index frame w w' new run)
        ∙ laws.insert_filled man.lookup_table key value in
      IfReturns-ret (λ _. ⊥) (buff_destroy (some (some man')) v) (buff_destroy-filled man' v filled)
        ended
