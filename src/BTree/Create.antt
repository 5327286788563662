-- ===== src/BTree/Create.antt =====
-- btree_create: the root and the leaf are given one frame.
mod Calls
pub mod Given
pub mod Never
use nickdb.Base.{
  ℕ, suc, ◌+◌, ◌*◌, ◌^◌, ◌<◌, ◌≡◌, refl, ◌∙◌, ◌≢◌, sym, ap, subst, Option, some, [], arith, true,
  ==_ne, ℤ, pos,
}
use nickdb.Word.{Buffer}
use nickdb.Constants.{page_size, dir_page_type, data_page_type, status_ok, status_err}
use nickdb.GLib.{HashTable, TableLaws}
use nickdb.Posix.{Posix, File, Documented, Reliable}
use nickdb.Proc.{ret}
use nickdb.FileIo.Pages.View.{IsStore}
use nickdb.BufferManager.{Manager, slot, frame_at, get_frame_index_from_frame}
use nickdb.BufferManager.Address.{
  Placed, slot-some, slot_same, get_frame_index_from_frame_same,
  get_frame_index_from_frame-frame_at,
}
use nickdb.BufferManager.AllocFrame.{buff_alloc_frame-Loaded}
use nickdb.BufferManager.Calls.{buff_alloc_frame}
use nickdb.BufferManager.Load.{Loaded}
use nickdb.BTree.{
  Config, Comparator, comparator_or_default, frame_slot, set_buffer, store_type, btree_create,
}
use nickdb.BTree.Nodes.{btree_alloc_node_calls, frame_slot-frame_at}
use nickdb.BTree.Create.Calls.{finish_create-one_frame, btree_create_calls}

-- A list of free frames, with their states of the table, after the head has been loaded once.
record Reloaded {T : Type 0} (man man1 : Manager T) (i l : ℕ) : Type 0 where
  head : slot man1 man1.freelist ≡ some i
  some_free : man1.freelist ≢ 0
  next_at : slot man1 (man1.metaframes i).next_free_or_dirty ≡ some l
  index : get_frame_index_from_frame man1 (frame_at man i) ≡ i
  inside : i < man1.frames
  same : frame_at man1 i ≡ frame_at man i
  place : frame_slot man1 (frame_at man i) ≡ some i

Loaded-Reloaded :
    {T : Type 0} (man man1 : Manager T) (i j l p : ℕ) (bytes b : Buffer)
    → Placed man
    → man.freelist ≢ 0
    → slot man man.freelist ≡ some i
    → slot man (man.metaframes j).next_free_or_dirty ≡ some l
    → Loaded man i j p bytes man1
    → Reloaded man (set_buffer man1 i b) i l
Loaded-Reloaded man man1 i j l p bytes b placed ne at next loaded =
    let typed = set_buffer man1 i b in
    let (_, _, lt) = slot-some man man.freelist i at in
    record {
      head =
          slot_same man typed typed.freelist loaded.metas loaded.frames
          ∙ ap (slot man) loaded.head
          ∙ at;
      some_free = subst (λ q. q ≢ 0) (sym loaded.head) ne;
      next_at =
          slot_same man typed (typed.metaframes i).next_free_or_dirty loaded.metas loaded.frames
          ∙ ap (λ m. slot man m.next_free_or_dirty) loaded.meta
          ∙ next;
      index =
          get_frame_index_from_frame_same man typed (frame_at man i) loaded.buffers
          ∙ ap (get_frame_index_from_frame man) (omega arith)
          ∙ get_frame_index_from_frame-frame_at man placed i lt 0 (omega arith);
      inside = subst (λ n. i < n) (sym loaded.frames) lt;
      same = ap (λ q. q + page_size * i) loaded.buffers;
      place = frame_slot-frame_at man typed i placed lt loaded.buffers loaded.frames;
    }

module _ {W T : Type 0} ⦃os : Posix W⦄ ⦃g : HashTable T⦄ (doc : Documented os)
    (rel : Reliable os doc) (laws : TableLaws g) where
  -- On a disk without I/O errors, btree_create on a store of n pages with none free and room for two
  -- more, with a free list of at least three elements and four distinct addresses as keys that are
  -- not in the table, returns STATUS_ERR, with page n as the root in the configuration: the second
  -- buff_unpin fails, since both nodes are in one frame. The store has grown by two pages.
  pub btree_create-one_frame :
      (key1 value1 key2 value2 fresh1 fresh2 : ℕ) (memcmp : Buffer → Buffer → ℕ → ℤ)
      (config : Config T) (man : Manager T) (key_size : ℕ) (comparator : Option Comparator) (fd : ℤ)
      (w : W) (f : File) (n i j l : ℕ)
      → man.store ≡ some (record { storefd = fd })
      → doc.file fd w ≡ some f
      → IsStore f n []
      → suc (suc n) < 2 ^ 51
      → Placed man
      → man.freelist ≢ 0
      → slot man man.freelist ≡ some i
      → slot man (man.metaframes i).next_free_or_dirty ≡ some j
      → slot man (man.metaframes j).next_free_or_dirty ≡ some l
      → g.lookup man.lookup_table key1 ≡ 0
      → g.lookup man.lookup_table key2 ≡ 0
      → g.lookup man.lookup_table fresh1 ≡ 0
      → key2 ≢ key1
      → fresh1 ≢ key1
      → fresh1 ≢ key2
      → (w' : W) × (f' : File) × (config' : Config T) × (btree_create key1 value1 key2 value2 fresh1
            fresh2 memcmp
            (some config)
            (some man)
            key_size
            comparator
            w
          ≡ ret (status_err, some config') w')
        × (doc.file fd w' ≡ some f')
        × IsStore f' (suc (suc n)) []
        × (config'.root ≡ pos n)
  btree_create-one_frame key1 value1 key2 value2 fresh1 fresh2 memcmp config man key_size comparator
        fd w f n i j l store opened st room placed ne at next_at next_next new1 new2 unknown other2
        other3 other4 =
      let (w1, f1, m1, alloc1, o1, st1, _, loaded1, table1) =
        buff_alloc_frame-Loaded doc rel laws key1 value1 man fd w f n i j store opened st
          (omega (arith, room)) ne at next_at new1 in
      let man1 = set_buffer m1 i (store_type (m1.buffer i) dir_page_type) in
      let r =
        Loaded-Reloaded man m1 i j l n f1.bytes (store_type (m1.buffer i) dir_page_type) placed ne
          at next_next loaded1 in
      let frame = frame_at man i in
      let (_, _, lt) = slot-some man man.freelist i at in
      let empty = record config { manager = some man; key_size = key_size } in
      let first =
        btree_alloc_node_calls doc rel laws key1 value1 empty dir_page_type man m1 (pos n) frame i w
          w1 refl refl alloc1
          (frame_slot-frame_at man m1 i placed lt loaded1.buffers loaded1.frames) in
      let absent : (k : ℕ)
          → g.lookup man.lookup_table k ≡ 0
          → k ≢ key1
          → g.lookup man1.lookup_table k ≡ 0 =
        λ k h d. rw (table1, laws.lookup-insert man.lookup_table key1 value1 k, ==_ne k key1 d) h in
      let (w2, f2, m2, alloc2, o2, st2, _, loaded2, table2) =
        buff_alloc_frame-Loaded doc rel laws key2 value2 man1 fd w1 f1 (suc n) i l
          (loaded1.store ∙ store) o1 st1 room r.some_free r.head r.next_at
          (absent key2 new2 other2) in
      let man2 = set_buffer m2 i (store_type (m2.buffer i) data_page_type) in
      let buffers = loaded2.buffers ∙ loaded1.buffers in
      let frames = loaded2.frames ∙ loaded1.frames in
      let rooted : Config T = record {
        manager = some man1;
        root = pos n;
        key_size = key_size;
        comparator = comparator_or_default memcmp comparator;
      } in
      let second =
        btree_alloc_node_calls doc rel laws key2 value2 rooted data_page_type man1 m2 (pos (suc n))
          frame i w1 w2 refl refl
          (subst
            (λ a.
              buff_alloc_frame key2 value2 (some man1) true w1
              ≡ ret (status_ok, some (record { page = pos (suc n); frame = a }), some m2) w2)
            r.same alloc2)
          (frame_slot-frame_at man m2 i placed lt buffers frames) in
      let calls =
        btree_create_calls key1 value1 key2 value2 fresh1 fresh2 memcmp config man man1 man2
          key_size comparator frame i (pos n) w w1 w2 first r.index r.inside
          (ap (λ m. m.index) loaded1.meta) second in
      let (man3, ends) =
        finish_create-one_frame laws fresh1 fresh2 (record rooted { manager = some man2 }) man2
          frame i w2 refl
          (get_frame_index_from_frame_same man man2 frame buffers
            ∙ ap (get_frame_index_from_frame man) (omega arith)
            ∙ get_frame_index_from_frame-frame_at man placed i lt 0 (omega arith))
          (frame_slot-frame_at man man2 i placed lt buffers frames)
          (subst (λ k. i < k) (sym frames) lt) (ap (λ m. m.state) loaded2.meta)
          (rw
            (
              table2,
              laws.lookup-insert man1.lookup_table key2 value2 fresh1,
              ==_ne fresh1 key2 other4,
            )
            (absent fresh1 unknown other3)) in
      (w2, f2, record rooted { manager = some man3 }, calls ∙ ends, o2, st2, refl)
