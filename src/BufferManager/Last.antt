-- ===== src/BufferManager/Last.antt =====
-- buff_pin with one free frame left.
use nickdb.Base.{
  ℕ, suc, ◌*◌, ◌^◌, ◌<◌, ◌≤◌, ◌≡◌, refl, ◌≢◌, sym, subst, some, none, arith, false, true, ==_ne,
  ◌==◌, ltb, ℤ, pos,
}
use nickdb.Word.{overwrite}
use nickdb.Constants.{page_size, status_ok}
use nickdb.GLib.{HashTable, TableLaws}
use nickdb.Posix.{Posix, File, Documented, Reliable}
use nickdb.Proc.{ret, fault}
use nickdb.FileIo.Pages.{get_page}
use nickdb.FileIo.Pages.Access.{get_page-page}
use nickdb.FileIo.Pages.View.{page}
use nickdb.BufferManager.{
  Manager, update, slot, meta_at, get_frame_index_from_meta, copy_next, fetch_page, pin_in,
  buff_pin,
}
use nickdb.BufferManager.Address.{Placed, slot-some, slot_same}

-- NULL leads to no element.
slot-null : {T : Type 0} (man : Manager T) → Placed man → slot man 0 ≡ none
unfolding slot
slot-null man placed =
    let apart : (0 == meta_at man (get_frame_index_from_meta man 0)) ≡ false =
      ==_ne 0 (meta_at man (get_frame_index_from_meta man 0)) (omega (arith, placed.meta_above)) in
    rw apart

module _ {W T : Type 0} ⦃os : Posix W⦄ ⦃g : HashTable T⦄ (doc : Documented os)
    (rel : Reliable os doc) (laws : TableLaws g) where
  -- On a disk without I/O errors, buff_pin of a page of the store with a key that is not in the
  -- table, when the arrays end within 64 bits and the free list has one element, is undefined behaviour: it reads through NULL.
  pub buff_pin-last :
      (key value : ℕ) (man : Manager T) (fd : ℤ) (w : W) (f : File) (p i : ℕ)
      → man.store ≡ some (record { storefd = fd })
      → doc.file fd w ≡ some f
      → 1 ≤ p
      → p < 2 ^ 51
      → suc p * page_size ≤ f.size
      → Placed man
      → man.freelist ≢ 0
      → slot man man.freelist ≡ some i
      → (man.metaframes i).next_free_or_dirty ≡ 0
      → g.lookup man.lookup_table key ≡ 0
      → buff_pin key value (some man) (pos p) w ≡ fault
  unfolding buff_pin pin_in fetch_page copy_next
  buff_pin-last key value man fd w f p i store opened h few inside placed some_free at alone new =
      let d = overwrite (man.buffer i) 0 page_size (page f.bytes p) in
      let read = record man {
        buffer = update man.buffer i d;
        lookup_table = (g.insert man.lookup_table key value).1;
      } in
      let (index, here, lt) = slot-some man man.freelist i at in
      let (w1, f1, run, o1, e1) =
        get_page-page doc rel fd (man.buffer i) w f p opened h few inside in
      let got : get_page (man.buffer i) man.store (pos p) w ≡ ret (status_ok, d) w1 =
        subst (λ s. get_page (man.buffer i) s (pos p) w ≡ ret (status_ok, d) w1) (sym store) run in
      let real : (p == 0) ≡ false = ==_ne p 0 (omega arith) in
      let free_head : (man.freelist == 0) ≡ false = ==_ne man.freelist 0 some_free in
      let bounded : ltb i man.frames ≡ true = ground arith in
      rw (
        real,
        free_head,
        new,
        laws.insert_new man.lookup_table key value new,
        index,
        bounded,
        got,
        slot_same man read man.freelist refl refl,
        at,
        alone,
        slot_same man read 0 refl refl,
        slot-null man placed,
      )
