-- ===== src/BufferManager.antt =====
-- src/lib/buffer_manager.c and src/lib/buffer_manager.h. Pointers are addresses, 0 is NULL: the
-- array `metaframes` begins at one, the array `buffer` at another. A manager that may be NULL is an
-- `Option`; a function returns the manager as it leaves it.
pub mod Address
pub mod Calls
pub mod Pin
pub mod Cycle
pub mod Links
pub mod Lists
pub mod Release
pub mod Unpin
pub mod Again
pub mod Keep
pub mod Last
pub mod Dirty
pub mod Round
pub mod WriteBack
pub mod Reopen
pub mod Destroy
pub mod Stale
pub mod Unused
pub mod AllocFrame
pub mod FreeFrame
pub mod Flush
pub mod Init
pub mod Mark
pub mod Pointers
pub mod Invariant
pub mod Steps
pub mod Load
pub mod Table
pub mod Tests
mod ListTests
pub mod FrameTests
mod StepTests
use nickdb.Base.{
  ℕ, ◌+◌, ◌-◌, ◌*◌, ◌/◌, ◌%◌, ◌^◌, Bool, true, false, not, ◌&&◌, Option, none, some, ◌==◌, ltb,
  if◌then◌else◌, ℤ, pos, ◌==ℤ◌,
}
use nickdb.Word.{Buffer}
use nickdb.Constants.{
  page_size, FrameState, fs_pinned, fs_unpinned, fs_pinned_dirty, fs_unpinned_dirty, Status,
  status_ok, status_err, status_meta_page, status_no_manager, status_no_free_frames,
  status_mark_err,
}
use nickdb.GLib.{HashTable}
use nickdb.Posix.{Posix}
use nickdb.Proc.{Proc, Body, ret, pure, ◌>>=◌, ◌>>◌, return_if, require, deref, run, invoke}
use nickdb.FileIo.{Backing}
use nickdb.FileIo.Pages.{get_page}

-- struct meta_frame, and its size
pub record MetaFrame : Type 0 where
  pub state : FrameState
  pub index : ℤ
  pub next_free_or_dirty : ℕ

abbrev pub sizeof_meta_frame : ℕ
sizeof_meta_frame = 24

-- struct buffer_manager; the two arrays with the addresses at which they begin
pub record Manager (T : Type 0) : Type 0 where
  pub store : Option Backing
  pub frames : ℕ
  pub buffer_at : ℕ
  pub buffer : ℕ → Buffer
  pub metaframes_at : ℕ
  pub metaframes : ℕ → MetaFrame
  pub freelist : ℕ
  pub writeback : ℕ
  pub lookup_table : T

abbrev pub is_ok : Status → Bool
is_ok status_ok = true
is_ok _ = false

abbrev pub update {ℓ} : {A : Type ℓ} → (ℕ → A) → ℕ → A → ℕ → A
update f i a j = if j == i then a else f j

module _ {T : Type 0} where
  -- The difference of two pointers is taken modulo 2^64, since `sizeof` is unsigned.
  unfoldable pub get_frame_index_from_meta : Manager T → ℕ → ℕ
  get_frame_index_from_meta man meta =
      (meta + 2 ^ 64 - man.metaframes_at) % 2 ^ 64 / sizeof_meta_frame

  unfoldable pub get_frame_index_from_frame : Manager T → ℕ → ℕ
  get_frame_index_from_frame man frame = (frame + 2 ^ 64 - man.buffer_at) % 2 ^ 64 / page_size

  -- `&manager->metaframes[i]` and `&manager->buffer[i]`
  abbrev pub meta_at : Manager T → ℕ → ℕ
  meta_at man i = man.metaframes_at + sizeof_meta_frame * i

  abbrev pub frame_at : Manager T → ℕ → ℕ
  frame_at man i = man.buffer_at + page_size * i

  -- The element to which a `meta_frame` pointer leads, if it leads to one.
  unfoldable pub slot : Manager T → ℕ → Option ℕ
  slot man meta =
      let i = get_frame_index_from_meta man meta in
      if meta == meta_at man i && ltb i man.frames then some i else none

  abbrev pub set_meta : Manager T → ℕ → MetaFrame → Manager T
  set_meta man i m = record man { metaframes = update man.metaframes i m }

  abbrev pub set_state : Manager T → ℕ → FrameState → Manager T
  set_state man i s = set_meta man i (record (man.metaframes i) { state = s })

  abbrev pub set_next : Manager T → ℕ → ℕ → Manager T
  set_next man i p = set_meta man i (record (man.metaframes i) { next_free_or_dirty = p })

  -- buff_mark_page, with a manager; an index outside the array is undefined behaviour.
  unfoldable pub mark_frame : Manager T → ℕ → Status × Manager T
  mark_frame man i = elim (man.metaframes i).state [
    | fs_pinned ↦ (status_ok, set_state man i fs_pinned_dirty)
    | fs_pinned_dirty ↦ (status_ok, man)
    | _ ↦ (status_mark_err, man)
  ]

  -- The frame goes to the head of the write-back list, or of the free list.
  unfoldable pub push_writeback : Manager T → ℕ → Manager T
  push_writeback man i =
      let moved = record man { writeback = meta_at man i } in
      if not (man.writeback == 0) then set_next moved i man.writeback else set_next moved i 0

  unfoldable pub push_free : Manager T → ℕ → Manager T
  push_free man i =
      let moved = record man { freelist = meta_at man i } in
      if not (man.freelist == 0) then set_next moved i man.freelist else set_next moved i 0

module _ {W T : Type 0} ⦃os : Posix W⦄ ⦃g : HashTable T⦄ where
  unfoldable pub buff_mark_page : Option (Manager T) → ℕ → Proc W (Status × Option (Manager T))
  buff_mark_page none frame = ret (status_no_manager, none)
  buff_mark_page (some man) frame =
      let i = get_frame_index_from_frame man frame in
      run do require (ltb i man.frames); pure ((mark_frame man i).0, some (mark_frame man i).1)

  -- The table is asked to remove the address of a new key. An entry would be freed, and what
  -- buff_pin has entered are addresses of its own variables.
  unfoldable pub forget_page : {R : Type 0} → ℕ → Manager T → Body W R (Unit {0})
  forget_page fresh man = require (not (g.remove man.lookup_table fresh).0)

  unfoldable pub unpin_frame : ℕ → Manager T → ℕ → Body W (Status × Manager T) (Status × Manager T)
  unpin_frame fresh man i = elim (man.metaframes i).state [
    | fs_pinned_dirty ↦ do
      let dirty = set_state man i fs_unpinned_dirty
      forget_page fresh dirty
      let removed = record dirty { lookup_table = (g.remove dirty.lookup_table fresh).1 }
      pure (status_ok, push_writeback removed i)
    | fs_pinned ↦ do
      let clean = set_state man i fs_unpinned
      forget_page fresh clean
      let removed = record clean { lookup_table = (g.remove clean.lookup_table fresh).1 }
      pure (status_ok, push_free removed i)
    | _ ↦ pure (status_err, man)
  ]

  -- `fresh` is the address that `calloc` returns for the key.
  unfoldable pub unpin_in : ℕ → Manager T → ℕ → Proc W (Status × Manager T)
  unpin_in fresh man frame =
      let i = get_frame_index_from_frame man frame in
      run do require (ltb i man.frames); unpin_frame fresh man i

  unfoldable pub buff_unpin : ℕ → Option (Manager T) → ℕ → Proc W (Status × Option (Manager T))
  buff_unpin fresh none frame = ret (status_no_manager, none)
  buff_unpin fresh (some man) frame =
      run do (status, man') ← invoke (unpin_in fresh man frame); pure (status, some man')

  -- `*manager->freelist = *manager->freelist->next_free_or_dirty`: the next element is copied over
  -- the first one.
  unfoldable pub copy_next : {R : Type 0} → Manager T → Body W R (Manager T)
  copy_next man = do
    i ← deref (slot man man.freelist)
    j ← deref (slot man (man.metaframes i).next_free_or_dirty)
    pure (set_meta man i (man.metaframes j))

  -- The part of buff_pin behind its lookup, for the frame `i`. The frame's address is the second
  -- part of the result, `none` where it is not stored.
  unfoldable pub fetch_page :
      ℕ
      → ℕ
      → Manager T
      → ℕ
      → ℤ
      → Body W (Status × Option ℕ × Manager T) (Status × Option ℕ × Manager T)
  fetch_page key value man i index = do
    let entered = record man { lookup_table = (g.insert man.lookup_table key value).1 }
    return_if (not (g.insert man.lookup_table key value).0) (status_err, none, entered)
    require (ltb i man.frames)
    (status, filled) ← invoke (get_page (man.buffer i) man.store index)
    let filled_in = record entered { buffer = update man.buffer i filled }
    return_if (not (is_ok status)) (status, none, filled_in)
    moved ← copy_next filled_in
    let pinned = set_meta moved i (record (moved.metaframes i) { state = fs_pinned; index = index })
    pure (status_ok, some (frame_at man i), pinned)

  -- `key` and `value` are the addresses of the locals `pageidxptr` and `frameidxptr`. Where the key
  -- is found, the address of the frame is formed, and not followed, whatever the index.
  unfoldable pub pin_in : ℕ → ℕ → Manager T → ℤ → Proc W (Status × Option ℕ × Manager T)
  pin_in key value man index = run do
    return_if (index ==ℤ pos 0) (status_meta_page, none, man)
    return_if (man.freelist == 0) (status_no_free_frames, none, man)
    let i = get_frame_index_from_meta man man.freelist
    return_if (not (g.lookup man.lookup_table key == 0)) (status_ok, some (frame_at man i), man)
    fetch_page key value man i index

  unfoldable pub buff_pin :
      ℕ → ℕ → Option (Manager T) → ℤ → Proc W (Status × Option ℕ × Option (Manager T))
  buff_pin key value none index = ret (status_no_manager, none, none)
  buff_pin key value (some man) index = run do
    (status, frame, man') ← invoke (pin_in key value man index)
    pure (status, frame, some man')
