-- ===== src/BufferManager/Load.antt =====
-- buff_pin on a disk without I/O errors.
use nickdb.Base.{
  ℕ, suc, ◌*◌, ◌^◌, ◌≤◌, ◌<◌, ◌≡◌, refl, ◌∙◌, sym, ap, subst, ◌≢◌, true, false, some, ◌==◌, ==_refl,
  ==_ne, ltb, arith, ℤ, pos,
}
use nickdb.Word.{Buffer, overwrite}
use nickdb.Constants.{page_size, fs_pinned, status_ok}
use nickdb.GLib.{HashTable, TableLaws}
use nickdb.Posix.{Posix, File, Documented, Reliable}
use nickdb.Proc.{ret}
use nickdb.FileIo.Pages.{get_page}
use nickdb.FileIo.Pages.View.{page}
use nickdb.FileIo.Pages.Access.{get_page-page, filled_byte}
use nickdb.BufferManager.{
  Manager, update, set_meta, frame_at, slot, copy_next, fetch_page, pin_in, buff_pin,
}
use nickdb.BufferManager.Address.{slot-some, slot_same}

-- What the manager is after page `p` has been loaded into frame `i`, whose successor in the free
-- list was `j`.
pub record Loaded {T : Type 0} (man : Manager T) (i j p : ℕ) (bytes : Buffer) (man' : Manager T)
    : Type 0 where
  pub meta : man'.metaframes i ≡ record {
    state = fs_pinned;
    index = pos p;
    next_free_or_dirty = (man.metaframes j).next_free_or_dirty;
  }
  pub content : (k : ℕ) → k < page_size → man'.buffer i k ≡ page bytes p k
  pub others :
      (l : ℕ) → l ≢ i → (man'.metaframes l ≡ man.metaframes l) × (man'.buffer l ≡ man.buffer l)
  pub head : man'.freelist ≡ man.freelist
  pub metas : man'.metaframes_at ≡ man.metaframes_at
  pub buffers : man'.buffer_at ≡ man.buffer_at
  pub frames : man'.frames ≡ man.frames
  pub store : man'.store ≡ man.store
  pub written : man'.writeback ≡ man.writeback

module _ {W T : Type 0} ⦃os : Posix W⦄ ⦃g : HashTable T⦄ (doc : Documented os)
    (rel : Reliable os doc) (laws : TableLaws g) where
  pub pin_in-Loaded :
      (key value : ℕ) (man : Manager T) (fd : ℤ) (w : W) (f : File) (p i j : ℕ)
      → man.store ≡ some (record { storefd = fd })
      → doc.file fd w ≡ some f
      → 1 ≤ p
      → p < 2 ^ 51
      → suc p * page_size ≤ f.size
      → man.freelist ≢ 0
      → slot man man.freelist ≡ some i
      → slot man (man.metaframes i).next_free_or_dirty ≡ some j
      → g.lookup man.lookup_table key ≡ 0
      → (w' : W) × (man' : Manager T) × (pin_in key value man (pos p) w
          ≡ ret (status_ok, some (frame_at man i), man') w')
        × (doc.file fd w' ≡ some f)
        × Loaded man i j p f.bytes man'
        × (man'.lookup_table ≡ (g.insert man.lookup_table key value).1)
  unfolding pin_in fetch_page copy_next
  pin_in-Loaded key value man fd w f p i j store opened h few inside some_free at next_at new =
      let d = overwrite (man.buffer i) 0 page_size (page f.bytes p) in
      let read = record man {
        buffer = update man.buffer i d;
        lookup_table = (g.insert man.lookup_table key value).1;
      } in
      let moved = set_meta read i (man.metaframes j) in
      let pinned =
        set_meta moved i (record (moved.metaframes i) { state = fs_pinned; index = pos p }) in
      let (index, here, lt) = slot-some man man.freelist i at in
      let (w1, f1, run, o1, e1) =
        get_page-page doc rel fd (man.buffer i) w f p opened h few inside in
      let got : get_page (man.buffer i) man.store (pos p) w ≡ ret (status_ok, d) w1 =
        subst (λ s. get_page (man.buffer i) s (pos p) w ≡ ret (status_ok, d) w1) (sym store) run in
      let real : (p == 0) ≡ false = ==_ne p 0 (omega arith) in
      let free_head : (man.freelist == 0) ≡ false = ==_ne man.freelist 0 some_free in
      let bounded : ltb i man.frames ≡ true = ground arith in
      (
        w1,
        pinned,
        rw (
          real,
          free_head,
          new,
          laws.insert_new man.lookup_table key value new,
          index,
          bounded,
          got,
          slot_same man read man.freelist refl refl,
          at,
          slot_same man read (man.metaframes i).next_free_or_dirty refl refl,
          next_at,
        ),
        o1 ∙ ap some e1,
        record {
          meta = rw (==_refl i);
          content = λ k b. rw (==_refl i) (filled_byte (man.buffer i) (page f.bytes p) k b);
          others = λ l ne. rw (==_ne l i ne) (refl, refl);
          head = refl;
          metas = refl;
          buffers = refl;
          frames = refl;
          store = refl;
          written = refl;
        },
        refl,
      )

  -- On a disk without I/O errors, buff_pin of a page of the store, with a key that is not in the
  -- table, and a free list of at least two elements i and j, returns STATUS_OK and the frame i, which
  -- then holds the page and is FS_PINNED. The head of the free list stays the same, its element now
  -- leads to the successor of j, and no other frame changes.
  pub buff_pin-Loaded :
      (key value : ℕ) (man : Manager T) (fd : ℤ) (w : W) (f : File) (p i j : ℕ)
      → man.store ≡ some (record { storefd = fd })
      → doc.file fd w ≡ some f
      → 1 ≤ p
      → p < 2 ^ 51
      → suc p * page_size ≤ f.size
      → man.freelist ≢ 0
      → slot man man.freelist ≡ some i
      → slot man (man.metaframes i).next_free_or_dirty ≡ some j
      → g.lookup man.lookup_table key ≡ 0
      → (w' : W) × (man' : Manager T) × (buff_pin key value (some man) (pos p) w
          ≡ ret (status_ok, some (frame_at man i), some man') w')
        × (doc.file fd w' ≡ some f)
        × Loaded man i j p f.bytes man'
        × (man'.lookup_table ≡ (g.insert man.lookup_table key value).1)
  unfolding buff_pin
  buff_pin-Loaded key value man fd w f p i j store opened h few inside some_free at next_at new =
      let (w1, man1, run, o1, loaded, table) =
        pin_in-Loaded key value man fd w f p i j store opened h few inside some_free at next_at
          new in
      (w1, man1, rw run, o1, loaded, table)
