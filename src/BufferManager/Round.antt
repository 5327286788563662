-- ===== src/BufferManager/Round.antt =====
-- A page pinned, changed, marked and given back, on a disk without I/O errors.
use nickdb.Base.{
  ◌+◌, ℕ, suc, ◌*◌, ◌^◌, ◌≤◌, ◌<◌, ◌≡◌, refl, ◌∙◌, sym, ap, subst, ◌≢◌, true, some, ==_refl, ==_ne,
  ltb, arith, ℤ, pos,
}
use nickdb.Word.{Buffer}
use nickdb.Constants.{page_size, fs_pinned, fs_pinned_dirty, fs_unpinned_dirty, status_ok}
use nickdb.GLib.{HashTable, TableLaws}
use nickdb.Posix.{Posix, File, Documented, Reliable}
use nickdb.Proc.{ret}
use nickdb.BufferManager.{
  Manager, sizeof_meta_frame, meta_at, frame_at, slot, set_state, mark_frame, buff_mark_page,
  buff_pin, unpin_in, buff_unpin, get_frame_index_from_frame,
}
use nickdb.BufferManager.Address.{
  Placed, slot-some, get_frame_index_from_frame_same, get_frame_index_from_frame-frame_at,
}
use nickdb.BufferManager.Load.{Loaded, buff_pin-Loaded}
use nickdb.BufferManager.Release.{unpinned_dirty}
use nickdb.BufferManager.Unpin.{unpin_frame-unpinned_dirty}

-- The manager after page p has been pinned into frame i, and the frame marked and given back: it is
-- the head of both lists.
pub record Round {T : Type 0} (man : Manager T) (i p : ℕ) (man' : Manager T) : Type 0 where
  pub store : man'.store ≡ man.store
  pub head : man'.freelist ≡ man.freelist
  pub metas : man'.metaframes_at ≡ man.metaframes_at
  pub buffers : man'.buffer_at ≡ man.buffer_at
  pub frames : man'.frames ≡ man.frames
  pub written : man'.writeback ≡ meta_at man i
  pub link : (man'.metaframes i).next_free_or_dirty ≡ man.writeback
  pub index : (man'.metaframes i).index ≡ pos p
  pub state : (man'.metaframes i).state ≡ fs_unpinned_dirty

-- Both arrays are where they were.
pub Placed-Round :
    {T : Type 0} (man man' : Manager T) (i p : ℕ) → Round man i p man' → Placed man → Placed man'
Placed-Round man man' i p r placed = record {
  meta_above = subst (λ b. 0 < b) (sym r.metas) placed.meta_above;
  meta_below = rw (r.metas, r.frames) placed.meta_below;
  frame_above = subst (λ b. 0 < b) (sym r.buffers) placed.frame_above;
  frame_below = rw (r.buffers, r.frames) placed.frame_below;
}

module _ {W T : Type 0} ⦃os : Posix W⦄ ⦃g : HashTable T⦄ where
  -- A pinned frame is marked.
  buff_mark_page-pinned :
      (man : Manager T) (frame i : ℕ) (w : W)
      → get_frame_index_from_frame man frame ≡ i
      → i < man.frames
      → (man.metaframes i).state ≡ fs_pinned
      → buff_mark_page (some man) frame w
        ≡ ret (status_ok, some (set_state man i fs_pinned_dirty)) w
  unfolding buff_mark_page mark_frame
  buff_mark_page-pinned man frame i w index lt state =
      let bounded : ltb i man.frames ≡ true = ground arith in
      let run : mark_frame man i ≡ (status_ok, set_state man i fs_pinned_dirty) =
        rw (mark_frame, state) in
      rw (index, bounded, run)

  -- A marked frame is given back, with a key that is not in the table.
  buff_unpin-unpinned_dirty :
      (laws : TableLaws g) (fresh : ℕ) (man : Manager T) (frame i : ℕ) (w : W)
      → get_frame_index_from_frame man frame ≡ i
      → i < man.frames
      → (man.metaframes i).state ≡ fs_pinned_dirty
      → g.lookup man.lookup_table fresh ≡ 0
      → buff_unpin fresh (some man) frame w ≡ ret (status_ok, some (unpinned_dirty fresh man i)) w
  unfolding buff_unpin unpin_in
  buff_unpin-unpinned_dirty laws fresh man frame i w index lt state unknown =
      let bounded : ltb i man.frames ≡ true = ground arith in
      rw (index, bounded, unpin_frame-unpinned_dirty laws fresh man i w state unknown)

-- A program changes bytes of the frames.
abbrev pub changed : {T : Type 0} → ((ℕ → Buffer) → ℕ → Buffer) → Manager T → Manager T
changed change man = record man { buffer = change man.buffer }

module _ {W T : Type 0} ⦃os : Posix W⦄ ⦃g : HashTable T⦄ (doc : Documented os)
    (rel : Reliable os doc) (laws : TableLaws g) where
  -- Page p pinned into frame i, the bytes of the frames changed, the frame marked and given back, from
  -- the state `w` of the system to `w'` and from one manager to the last of three.
  abbrev pub Rounds :
      (change : (ℕ → Buffer) → ℕ → Buffer) (key value fresh : ℕ)
      → Manager T
      → (p i : ℕ) → W
      → W
      → (man1 man2 man3 : Manager T) → Type 0
  Rounds change key value fresh man p i w w' man1 man2 man3 =
      (buff_pin key value (some man) (pos p) w
        ≡ ret (status_ok, some (frame_at man i), some man1) w')
      × (buff_mark_page (some (changed change man1)) (frame_at man i) w'
          ≡ ret (status_ok, some man2) w')
      × (buff_unpin fresh (some man2) (frame_at man i) w' ≡ ret (status_ok, some man3) w')

  -- On a disk without I/O errors, from a free list of at least two elements, the three calls return.
  pub buff_unpin-Round :
      (change : (ℕ → Buffer) → ℕ → Buffer) (key value fresh : ℕ) (man : Manager T) (fd : ℤ) (w : W)
      (f : File) (p i j : ℕ)
      → man.store ≡ some (record { storefd = fd })
      → doc.file fd w ≡ some f
      → 1 ≤ p
      → p < 2 ^ 51
      → suc p * page_size ≤ f.size
      → Placed man
      → man.freelist ≢ 0
      → slot man man.freelist ≡ some i
      → slot man (man.metaframes i).next_free_or_dirty ≡ some j
      → g.lookup man.lookup_table key ≡ 0
      → g.lookup man.lookup_table fresh ≡ 0
      → fresh ≢ key
      → (w' : W) × (man1 man2 man3 : Manager T) × Rounds change key value fresh man p i w w' man1
          man2 man3
        × (doc.file fd w' ≡ some f)
        × Round man i p man3
        × Loaded man i j p f.bytes man1
        × (man3.buffer ≡ change man1.buffer)
        × ((k : ℕ) → k ≢ key → g.lookup man.lookup_table k ≡ 0 → g.lookup man3.lookup_table k ≡ 0)
  buff_unpin-Round change key value fresh man fd w f p i j store opened some_p few_p inside_p placed
        some_free at next_at new unknown ne =
      let (w1, man1, run, o1, loaded, table) =
        buff_pin-Loaded doc rel laws key value man fd w f p i j store opened some_p few_p inside_p
          some_free at next_at new in
      let (_, _, lt) = slot-some man man.freelist i at in
      let man2 = set_state (changed change man1) i fs_pinned_dirty in
      let man3 = unpinned_dirty fresh man2 i in
      let lt1 : i < man1.frames = subst (λ n. i < n) (sym loaded.frames) lt in
      let index : get_frame_index_from_frame man1 (frame_at man i) ≡ i =
        get_frame_index_from_frame_same man man1 (frame_at man i) loaded.buffers
        ∙ ap (get_frame_index_from_frame man) (omega arith)
        ∙ get_frame_index_from_frame-frame_at man placed i lt 0 (omega arith) in
      let index2 : get_frame_index_from_frame man2 (frame_at man i) ≡ i =
        get_frame_index_from_frame_same man1 man2 (frame_at man i) refl ∙ index in
      let absent : (k : ℕ)
          → k ≢ key
          → g.lookup man.lookup_table k ≡ 0
          → g.lookup man1.lookup_table k ≡ 0 =
        λ k other none.
          rw (table, laws.lookup-insert man.lookup_table key value k, ==_ne k key other) none in
      let same_table : man3.lookup_table ≡ man1.lookup_table =
        ap (λ r. r.1) (laws.remove_absent man1.lookup_table fresh (absent fresh ne unknown)) in
      (
        w1,
        man1,
        man2,
        man3,
        (
          run,
          buff_mark_page-pinned (changed change man1) (frame_at man i) i w1
              (get_frame_index_from_frame_same man1 (changed change man1) (frame_at man i) refl
                ∙ index)
              lt1 (ap (λ m. m.state) loaded.meta),
          buff_unpin-unpinned_dirty laws fresh man2 (frame_at man i) i w1 index2 lt1
              (rw (==_refl i)) (absent fresh ne unknown),
        ),
        o1,
        record {
          store = loaded.store;
          head = loaded.head;
          metas = loaded.metas;
          buffers = loaded.buffers;
          frames = loaded.frames;
          written = ap (λ b. b + sizeof_meta_frame * i) loaded.metas;
          link = rw (==_refl i) loaded.written;
          index = rw (==_refl i) (ap (λ m. m.index) loaded.meta);
          state = rw (==_refl i);
        },
        loaded,
        refl,
        λ k other none. ap (λ t. g.lookup t k) same_table ∙ absent k other none,
      )
