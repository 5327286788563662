-- ===== src/BufferManager/Cycle.antt =====
-- What becomes of the free list when a page is pinned and unpinned.
use nickdb.Base.{
  ℕ, suc, ◌*◌, ◌^◌, ◌≤◌, ◌<◌, ◌≡◌, refl, ◌∙◌, sym, ap, subst, ◌≢◌, true, some, List, ==_refl, ==_ne,
  ltb, arith, ℤ, pos,
}
use nickdb.Constants.{page_size, fs_pinned, status_ok}
use nickdb.GLib.{HashTable, TableLaws}
use nickdb.Posix.{Posix, File, Documented, Reliable}
use nickdb.Proc.{ret}
use nickdb.BufferManager.{
  Manager, frame_at, meta_at, slot, unpin_in, buff_pin, buff_unpin, get_frame_index_from_frame,
}
use nickdb.BufferManager.Address.{
  Placed, slot-some, slot_same, get_frame_index_from_frame_same,
  get_frame_index_from_frame-frame_at,
}
use nickdb.BufferManager.Release.{unpinned}
use nickdb.BufferManager.Unpin.{unpin_frame-unpinned}
use nickdb.BufferManager.Links.{Links, self-not-Links}
use nickdb.BufferManager.Load.{buff_pin-Loaded}

-- If the free list begins with the frame already, then the frame leads to itself.
unpinned-not-Links :
    {T : Type 0} ⦃g : HashTable T⦄ (fresh : ℕ) (man : Manager T) (i : ℕ) (xs : List ℕ)
    → slot man man.freelist ≡ some i
    → man.freelist ≢ 0
    → ¬ Links (unpinned fresh man i) (meta_at man i) xs
unpinned-not-Links fresh man i xs at ne =
    let (_, here, _) = slot-some man man.freelist i at in
    self-not-Links (unpinned fresh man i) (meta_at man i) i xs
      (slot_same man (unpinned fresh man i) (meta_at man i) refl refl
        ∙ subst (λ p. slot man p ≡ some i) here at)
      (subst (λ p. p ≢ 0) here ne) (rw (==_refl i) here)

module _ {W T : Type 0} ⦃os : Posix W⦄ ⦃g : HashTable T⦄ (laws : TableLaws g) where
  -- A pinned frame, and a key that is not in the table.
  pub buff_unpin-unpinned :
      (fresh : ℕ) (man : Manager T) (frame i : ℕ) (w : W)
      → get_frame_index_from_frame man frame ≡ i
      → i < man.frames
      → (man.metaframes i).state ≡ fs_pinned
      → g.lookup man.lookup_table fresh ≡ 0
      → buff_unpin fresh (some man) frame w ≡ ret (status_ok, some (unpinned fresh man i)) w
  unfolding buff_unpin unpin_in
  buff_unpin-unpinned fresh man frame i w index lt state unknown =
      let bounded : ltb i man.frames ≡ true = ground arith in
      rw (index, bounded, unpin_frame-unpinned laws fresh man i w state unknown)

  module _ (doc : Documented os) (rel : Reliable os doc) where
    -- On a disk without I/O errors, with arrays that end within 64 bits, buff_pin of a page of the
    -- store, with a free list of at least two elements and a key that is not in the table, and then buff_unpin of the frame that it
    -- hands out, with another key that is not in the table, both return STATUS_OK and leave a free
    -- list without an end: no sequence of elements leads from its head to NULL.
    pub buff_unpin-not_Links :
        (key value fresh : ℕ) (man : Manager T) (fd : ℤ) (w : W) (f : File) (p i j : ℕ)
        → man.store ≡ some (record { storefd = fd })
        → doc.file fd w ≡ some f
        → 1 ≤ p
        → p < 2 ^ 51
        → suc p * page_size ≤ f.size
        → Placed man
        → man.freelist ≢ 0
        → slot man man.freelist ≡ some i
        → slot man (man.metaframes i).next_free_or_dirty ≡ some j
        → g.lookup man.lookup_table key ≡ 0
        → g.lookup man.lookup_table fresh ≡ 0
        → fresh ≢ key
        → (w' : W) × (man1 man2 : Manager T) × (buff_pin key value (some man) (pos p) w
            ≡ ret (status_ok, some (frame_at man i), some man1) w')
          × (buff_unpin fresh (some man1) (frame_at man i) w' ≡ ret (status_ok, some man2) w')
          × ((xs : List ℕ) → ¬ Links man2 man2.freelist xs)
    buff_unpin-not_Links key value fresh man fd w f p i j store opened h few inside placed some_free
          at next_at new unknown other =
        let (w1, man1, run, _, loaded, table) =
          buff_pin-Loaded doc rel laws key value man fd w f p i j store opened h few inside
            some_free at next_at new in
        let (_, _, lt) = slot-some man man.freelist i at in
        let index : get_frame_index_from_frame man1 (frame_at man i) ≡ i =
          get_frame_index_from_frame_same man man1 (frame_at man i) loaded.buffers
          ∙ ap (get_frame_index_from_frame man) (omega arith)
          ∙ get_frame_index_from_frame-frame_at man placed i lt 0 (omega arith) in
        let absent : g.lookup man1.lookup_table fresh ≡ 0 =
          rw (table, laws.lookup-insert man.lookup_table key value fresh, ==_ne fresh key other)
            unknown in
        let at1 : slot man1 man1.freelist ≡ some i =
          slot_same man man1 man1.freelist loaded.metas loaded.frames
          ∙ ap (slot man) loaded.head
          ∙ at in
        (
          w1,
          man1,
          unpinned fresh man1 i,
          run,
          buff_unpin-unpinned fresh man1 (frame_at man i) i w1 index
              (subst (λ n. i < n) (sym loaded.frames) lt) (ap (λ m. m.state) loaded.meta) absent,
          λ xs.
              unpinned-not-Links fresh man1 i xs at1
                (subst (λ q. q ≢ 0) (sym loaded.head) some_free),
        )
