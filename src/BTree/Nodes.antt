-- ===== src/BTree/Nodes.antt =====
-- btree_alloc_node on a disk without I/O errors.
use nickdb.Base.{
  ℕ, suc, ◌^◌, ◌<◌, ◌≡◌, ◌∙◌, ◌≢◌, ap, some, [], arith, true, ==_refl, ◌==◌, ltb, if◌then◌else◌, ℤ,
  pos,
}
use nickdb.Word.{Buffer, zeros, overwrite}
use nickdb.Constants.{page_size, PageType, fs_pinned, status_ok}
use nickdb.GLib.{HashTable, TableLaws}
use nickdb.Posix.{Posix, File, Documented, Reliable}
use nickdb.Proc.{ret}
use nickdb.FileIo.Pages.View.{IsStore}
use nickdb.FileIo.Pages.Written.{Written}
use nickdb.BufferManager.{Manager, slot, frame_at, get_frame_index_from_frame}
use nickdb.BufferManager.Address.{
  Placed, slot-some, get_frame_index_from_frame_same, get_frame_index_from_frame-frame_at,
}
use nickdb.BufferManager.AllocFrame.{buff_alloc_frame-grow}
use nickdb.BufferManager.Calls.{buff_alloc_frame}
use nickdb.BTree.{
  Config, page_type_code, is_node_type, store_type, frame_slot, set_buffer, btree_alloc_node,
}

pub frame_slot-frame_at :
    {T : Type 0} (man man' : Manager T) (i : ℕ)
    → Placed man
    → i < man.frames
    → man'.buffer_at ≡ man.buffer_at
    → man'.frames ≡ man.frames
    → frame_slot man' (frame_at man i) ≡ some i
unfolding frame_slot
frame_slot-frame_at man man' i placed lt buffers frames =
    let index : get_frame_index_from_frame man' (frame_at man i) ≡ i =
      get_frame_index_from_frame_same man man' (frame_at man i) buffers
      ∙ ap (get_frame_index_from_frame man) (omega arith)
      ∙ get_frame_index_from_frame-frame_at man placed i lt 0 (omega arith) in
    let bounded : ltb i man.frames ≡ true = ground arith in
    rw (index, buffers, frames, ==_refl (frame_at man i), bounded)

store_type-byte :
    (b : Buffer) (type : PageType) (k : ℕ)
    → b k ≡ 0
    → store_type b type k ≡ (if k == 0 then page_type_code type else 0)
unfolding store_type overwrite
store_type-byte b type k e = ground arith

module _ {W T : Type 0} ⦃os : Posix W⦄ ⦃g : HashTable T⦄ (doc : Documented os)
    (rel : Reliable os doc) (laws : TableLaws g) where
  pub btree_alloc_node_calls :
      (key value : ℕ) (config : Config T) (type : PageType) (man man' : Manager T) (page : ℤ)
      (frame i : ℕ) (w w' : W)
      → config.manager ≡ some man
      → is_node_type type ≡ true
      → buff_alloc_frame key value (some man) true w
        ≡ ret (status_ok, some (record { page = page; frame = frame }), some man') w'
      → frame_slot man' frame ≡ some i
      → btree_alloc_node key value (some config) type w
        ≡ ret
            (
              status_ok,
              some frame,
              some (record config {
                manager = some (set_buffer man' i (store_type (man'.buffer i) type));
              }),
            )
            w'
  unfolding btree_alloc_node
  btree_alloc_node_calls key value config type man man' page frame i w w' has_manager node alloc
        at =
      rw (node, has_manager, alloc, at)

  -- On a disk without I/O errors, btree_alloc_node of a node type on a store of n pages with none
  -- free and room for one more, with a free list of at least two elements i and j and a key that is
  -- not in the table, returns STATUS_OK and frame i. The store grows by one page and every other page
  -- but the metadata page is as it was; the frame is FS_PINNED, has page number n and holds the type
  -- in its first four bytes and zeros behind them.
  pub btree_alloc_node-grow :
      (key value : ℕ) (config : Config T) (type : PageType) (man : Manager T) (fd : ℤ) (w : W)
      (f : File) (n i j : ℕ)
      → config.manager ≡ some man
      → is_node_type type ≡ true
      → man.store ≡ some (record { storefd = fd })
      → doc.file fd w ≡ some f
      → IsStore f n []
      → suc n < 2 ^ 51
      → Placed man
      → man.freelist ≢ 0
      → slot man man.freelist ≡ some i
      → slot man (man.metaframes i).next_free_or_dirty ≡ some j
      → g.lookup man.lookup_table key ≡ 0
      → (w' : W) × (f' : File) × (man' : Manager T) × (btree_alloc_node key value
            (some config)
            type
            w
          ≡ ret (status_ok, some (frame_at man i), some (record config { manager = some man' })) w')
        × (doc.file fd w' ≡ some f')
        × IsStore f' (suc n) []
        × Written f f' n zeros
        × ((man'.metaframes i).state ≡ fs_pinned)
        × ((man'.metaframes i).index ≡ pos n)
        × ((k : ℕ) → k < page_size → man'.buffer i k ≡ (if k == 0 then page_type_code type else 0))
  btree_alloc_node-grow key value config type man fd w f n i j has_manager node store opened st room
        placed some_free at next_at new =
      let (w', f', man', alloc, o', st', written, loaded, blank) =
        buff_alloc_frame-grow doc rel laws key value man fd w f n i j store opened st room some_free
          at next_at new in
      let (_, _, lt) = slot-some man man.freelist i at in
      let there = frame_slot-frame_at man man' i placed lt loaded.buffers loaded.frames in
      (
        w',
        f',
        set_buffer man' i (store_type (man'.buffer i) type),
        btree_alloc_node_calls key value config type man man' (pos n) (frame_at man i) i w w'
            has_manager node alloc there,
        o',
        st',
        written,
        ap (λ m. m.state) loaded.meta,
        ap (λ m. m.index) loaded.meta,
        λ k b. rw (==_refl i) (store_type-byte (man'.buffer i) type k (blank k b)),
      )
