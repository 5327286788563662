-- ===== src/BufferManager/Dirty.antt =====
-- What becomes of the free list when a frame is given back dirty.
use nickdb.Base.{ℕ, suc, ◌*◌, ◌^◌, ◌≤◌, ◌<◌, ◌≡◌, ◌∙◌, sym, ap, subst, ◌≢◌, some, ℤ, pos}
use nickdb.Constants.{page_size, status_ok}
use nickdb.GLib.{HashTable, TableLaws}
use nickdb.Posix.{Posix, File, Documented, Reliable}
use nickdb.Proc.{ret, fault}
use nickdb.BufferManager.{Manager, frame_at, slot, buff_mark_page, buff_pin, buff_unpin}
use nickdb.BufferManager.Address.{Placed, slot_same}
use nickdb.BufferManager.Last.{buff_pin-last}
use nickdb.BufferManager.Round.{Placed-Round, buff_unpin-Round}

module _ {W T : Type 0} ⦃os : Posix W⦄ ⦃g : HashTable T⦄ (doc : Documented os)
    (rel : Reliable os doc) (laws : TableLaws g) where
  -- On a disk without I/O errors, with arrays that end within 64 bits, an empty write-back list and a
  -- free list of at least two elements: buff_pin of a page of the store, buff_mark_page and
  -- buff_unpin of the frame that it hands out all return STATUS_OK, and then buff_pin of any page of
  -- the store is undefined behaviour, where no two of the keys are the same and none is in the table.
  pub buff_pin-after_dirty :
      (key value fresh key2 value2 : ℕ) (man : Manager T) (fd : ℤ) (w : W) (f : File) (p q i j : ℕ)
      → man.store ≡ some (record { storefd = fd })
      → doc.file fd w ≡ some f
      → 1 ≤ p
      → p < 2 ^ 51
      → suc p * page_size ≤ f.size
      → 1 ≤ q
      → q < 2 ^ 51
      → suc q * page_size ≤ f.size
      → Placed man
      → man.freelist ≢ 0
      → slot man man.freelist ≡ some i
      → slot man (man.metaframes i).next_free_or_dirty ≡ some j
      → man.writeback ≡ 0
      → g.lookup man.lookup_table key ≡ 0
      → g.lookup man.lookup_table fresh ≡ 0
      → g.lookup man.lookup_table key2 ≡ 0
      → fresh ≢ key
      → key2 ≢ key
      → (w' : W) × (man1 man2 man3 : Manager T) × (buff_pin key value (some man) (pos p) w
          ≡ ret (status_ok, some (frame_at man i), some man1) w')
        × (buff_mark_page (some man1) (frame_at man i) w' ≡ ret (status_ok, some man2) w')
        × (buff_unpin fresh (some man2) (frame_at man i) w' ≡ ret (status_ok, some man3) w')
        × (buff_pin key2 value2 (some man3) (pos q) w' ≡ fault)
  buff_pin-after_dirty key value fresh key2 value2 man fd w f p q i j store opened some_p few_p
        inside_p some_q few_q inside_q placed some_free at next_at empty new unknown new2 ne ne2 =
      let (w1, man1, man2, man3, (pinned, marked, unpinned), o1, r, loaded, same, absent) =
        buff_unpin-Round doc rel laws (λ b. b) key value fresh man fd w f p i j store opened some_p
          few_p inside_p placed some_free at next_at new unknown ne in
      (
        w1,
        man1,
        man2,
        man3,
        pinned,
        marked,
        unpinned,
        buff_pin-last doc rel laws key2 value2 man3 fd w1 f q i (r.store ∙ store) o1 some_q few_q
            inside_q (Placed-Round man man3 i p r placed)
            (subst (λ a. a ≢ 0) (sym r.head) some_free)
            (slot_same man man3 man3.freelist r.metas r.frames ∙ ap (slot man) r.head ∙ at)
            (r.link ∙ empty) (absent key2 ne2 new2),
      )
