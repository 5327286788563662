-- ===== src/BufferManager/Calls.antt =====
-- The functions of src/lib/buffer_manager.c that call the others: frames with their pages, the
-- write-back loop, and the manager's creation and destruction.
use nickdb.Base.{
  ℕ, zero, suc, ◌+◌, Bool, not, Option, none, some, List, ◌==◌, ltb, if◌then◌else◌, ℤ, pos,
}
use nickdb.Word.{zeros}
use nickdb.Constants.{
  fs_pinned, fs_unpinned, Status, status_ok, status_err, status_no_backing, status_no_manager,
}
use nickdb.GLib.{HashTable}
use nickdb.Posix.{Posix}
use nickdb.Proc.{
  Proc, ret, fault, diverges, pure, ◌>>=◌, ◌>>◌, return_if, require, deref, run, invoke,
}
use nickdb.FileIo.{open_backing, close_backing}
use nickdb.FileIo.Pages.{alloc_page, free_page, put_page}
use nickdb.BufferManager.{
  MetaFrame, Manager, is_ok, update, meta_at, slot, set_state, get_frame_index_from_frame, unpin_in,
  pin_in,
}

-- struct page_frame_pair
pub record PageFramePair : Type 0 where
  pub page : ℤ
  pub frame : ℕ

abbrev pub or_null : Option ℕ → ℕ
or_null none = 0
or_null (some a) = a

module _ {T : Type 0} where
  -- The loop of buff_create from element `i` on, for the `k` elements left.
  unfoldable pub init_metaframes : ℕ → ℕ → Manager T → Manager T
  init_metaframes zero i man = man
  init_metaframes (suc k) i man =
      let next_free = if ltb (i + 1) man.frames then meta_at man (i + 1) else 0 in
      let m : MetaFrame = record (man.metaframes i) {
        state = fs_unpinned;
        next_free_or_dirty = next_free;
      } in
      init_metaframes k (suc i) (record man { metaframes = update man.metaframes i m })

module _ {W T : Type 0} ⦃os : Posix W⦄ ⦃g : HashTable T⦄ where
  -- The addresses are those that `calloc` returns for the two arrays. The pointer `store` is NULL
  -- when it is passed on.
  unfoldable pub buff_create :
      List ℕ → ℕ → (buffer_at metaframes_at : ℕ) → Proc W (Status × Option (Manager T))
  buff_create storename frames buffer_at metaframes_at = run do
    (backing_status, store) ← invoke (open_backing storename none)
    return_if (not (is_ok backing_status)) (status_no_backing, none)
    let blank : Manager T = record {
      store = store;
      frames = frames;
      buffer_at = buffer_at;
      buffer = λ _. zeros;
      metaframes_at = metaframes_at;
      metaframes = λ _. record { state = fs_pinned; index = pos 0; next_free_or_dirty = 0 };
      freelist = metaframes_at;
      writeback = 0;
      lookup_table = g.new;
    }
    pure (status_ok, some (init_metaframes frames 0 blank))

  -- The second part of the result is what is stored through `page_frame`, which is NULL unless
  -- `given`.
  unfoldable pub buff_alloc_frame :
      ℕ
      → ℕ
      → Option (Manager T)
      → (given : Bool) → Proc W (Status × Option PageFramePair × Option (Manager T))
  buff_alloc_frame key value none given = ret (status_no_manager, none, none)
  buff_alloc_frame key value (some man) given = run do
    return_if (not given) (status_err, none, some man)
    (pagealloc, page) ← invoke (alloc_page none man.store)
    return_if (not (is_ok pagealloc)) (pagealloc, none, some man)
    (framepin, frame, man') ← invoke (pin_in key value man page)
    return_if (not (is_ok framepin)) (framepin, none, some man')
    pure (status_ok, some (record { page = page; frame = or_null frame }), some man')

  -- The state is set to `FS_PINNED` whatever it was.
  unfoldable pub buff_free_frame : ℕ → Option (Manager T) → ℕ → Proc W (Status × Option (Manager T))
  buff_free_frame fresh none frame = ret (status_no_manager, none)
  buff_free_frame fresh (some man) frame = run do
    return_if (frame == 0) (status_err, some man)
    let i = get_frame_index_from_frame man frame
    require (ltb i man.frames)
    let page = (man.metaframes i).index
    (frame_unpin, man') ← invoke (unpin_in fresh (set_state man i fs_pinned) frame)
    return_if (not (is_ok frame_unpin)) (frame_unpin, some man')
    page_free ← invoke (free_page man'.store page)
    return_if (not (is_ok page_free)) (page_free, some man')
    pure (status_ok, some man')

  -- The loop over the write-back list, at the element `meta`, on fuel.
  unfoldable pub flush_loop : ℕ → Manager T → ℕ → Proc W (Manager T)
  flush_loop zero man meta = λ w. diverges
  flush_loop (suc k) man meta =
      if meta == 0
      then ret man
      else run do
        i ← deref (slot man meta)
        put ← invoke (put_page (man.buffer i) man.store (man.metaframes i).index)
        let man' = if is_ok put then set_state man i fs_unpinned else man
        invoke (flush_loop k man' (man'.metaframes i).next_free_or_dirty)

  -- A list without a cycle has at most `frames` elements.
  unfoldable pub buff_flush_all : Option (Manager T) → Proc W (Status × Option (Manager T))
  buff_flush_all none = ret (status_no_manager, none)
  buff_flush_all (some man) =
      run do
        man' ← invoke (flush_loop (man.frames + 1) man man.writeback)
        pure (status_ok, some man')

  -- The outer `none` is a NULL argument, the inner one a NULL manager. The table frees the pointers
  -- that it holds, and those are addresses of locals of buff_pin.
  unfoldable pub buff_destroy :
      Option (Option (Manager T)) → Proc W (Status × Option (Option (Manager T)))
  buff_destroy none = ret (status_no_manager, none)
  buff_destroy (some none) = λ w. fault
  buff_destroy (some (some man)) = run do
    man' ← invoke (flush_loop (man.frames + 1) man man.writeback)
    require (g.is_empty man'.lookup_table)
    closed ← invoke (close_backing man'.store)
    pure (status_ok, some none)
