-- ===== src/BTree/Create/Calls.antt =====
-- btree_create as a run of its four calls, where the root and the leaf are in one frame.
use nickdb.Base.{ℕ, ◌<◌, ◌≡◌, refl, ◌∙◌, Option, some, arith, true, ==_refl, ltb, ℤ}
use nickdb.Word.{Buffer, store64}
use nickdb.Constants.{dir_page_type, data_page_type, fs_pinned, fs_unpinned, status_ok, status_err}
use nickdb.GLib.{HashTable, TableLaws}
use nickdb.Posix.{Posix}
use nickdb.Proc.{ret, outcome}
use nickdb.BufferManager.{Manager, get_frame_index_from_frame, unpin_frame, unpin_in, buff_unpin}
use nickdb.BufferManager.Address.{get_frame_index_from_frame_same}
use nickdb.BufferManager.Cycle.{buff_unpin-unpinned}
use nickdb.BufferManager.Release.{unpinned}
use nickdb.BTree.{
  Config, Comparator, comparator_or_default, frame_slot, set_buffer, btree_alloc_node,
  finish_create, btree_create,
}

module _ {W T : Type 0} ⦃os : Posix W⦄ ⦃g : HashTable T⦄ where
  -- A frame that is not pinned is not unpinned.
  buff_unpin-unpinned_before :
      (fresh : ℕ) (man : Manager T) (frame i : ℕ) (w : W)
      → get_frame_index_from_frame man frame ≡ i
      → i < man.frames
      → (man.metaframes i).state ≡ fs_unpinned
      → buff_unpin fresh (some man) frame w ≡ ret (status_err, some man) w
  unfolding buff_unpin unpin_in unpin_frame
  buff_unpin-unpinned_before fresh man frame i w index lt state =
      let bounded : ltb i man.frames ≡ true = ground arith in
      rw (index, bounded, unpin_frame, state)

  -- With both nodes in one frame, the second buff_unpin fails.
  pub finish_create-one_frame :
      (laws : TableLaws g) (fresh1 fresh2 : ℕ) (config : Config T) (man : Manager T) (frame i : ℕ)
      (w : W)
      → config.manager ≡ some man
      → get_frame_index_from_frame man frame ≡ i
      → frame_slot man frame ≡ some i
      → i < man.frames
      → (man.metaframes i).state ≡ fs_pinned
      → g.lookup man.lookup_table fresh1 ≡ 0
      → (man' : Manager T) × (outcome (finish_create fresh1 fresh2 config frame frame w)
          ≡ ret (status_err, some (record config { manager = some man' })) w)
  unfolding finish_create
  finish_create-one_frame laws fresh1 fresh2 config man frame i w has_manager index at lt state
        unknown =
      let bounded : ltb i man.frames ≡ true = ground arith in
      let linked = set_buffer man i (store64 (man.buffer i) 12 (man.metaframes i).index) in
      let leaf =
        buff_unpin-unpinned laws fresh1 linked frame i w
          (get_frame_index_from_frame_same man linked frame refl ∙ index) lt state unknown in
      let after = unpinned fresh1 linked i in
      let root =
        buff_unpin-unpinned_before fresh2 after frame i w
          (get_frame_index_from_frame_same man after frame refl ∙ index) lt (rw (==_refl i)) in
      (after, rw (has_manager, index, bounded, at, leaf, root))

  -- The calls put together, up to the end of the second allocation.
  pub btree_create_calls :
      (key1 value1 key2 value2 fresh1 fresh2 : ℕ) (memcmp : Buffer → Buffer → ℕ → ℤ)
      (config : Config T) (man man1 man2 : Manager T) (key_size : ℕ)
      (comparator : Option Comparator) (frame i : ℕ) (root : ℤ) (w w1 w2 : W)
      → btree_alloc_node key1 value1
          (some (record config { manager = some man; key_size = key_size }))
          dir_page_type
          w
        ≡ ret
            (
              status_ok,
              some frame,
              some (record config { manager = some man1; key_size = key_size }),
            )
            w1
      → get_frame_index_from_frame man1 frame ≡ i
      → i < man1.frames
      → (man1.metaframes i).index ≡ root
      → btree_alloc_node key2 value2
          (some (record {
            manager = some man1;
            root = root;
            key_size = key_size;
            comparator = comparator_or_default memcmp comparator;
          }))
          data_page_type
          w1
        ≡ ret
            (
              status_ok,
              some frame,
              some (record {
                manager = some man2;
                root = root;
                key_size = key_size;
                comparator = comparator_or_default memcmp comparator;
              }),
            )
            w2
      → btree_create key1 value1 key2 value2 fresh1 fresh2 memcmp
          (some config)
          (some man)
          key_size
          comparator
          w
        ≡ outcome (
            finish_create fresh1 fresh2
              (record {
                manager = some man2;
                root = root;
                key_size = key_size;
                comparator = comparator_or_default memcmp comparator;
              })
              frame
              frame
              w2)
  unfolding btree_create
  btree_create_calls key1 value1 key2 value2 fresh1 fresh2 memcmp config man man1 man2 key_size
        comparator frame i root w w1 w2 first index lt number second =
      let bounded : ltb i man1.frames ≡ true = ground arith in
      rw (first, index, bounded, number, second)
