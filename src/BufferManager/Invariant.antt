-- ===== src/BufferManager/Invariant.antt =====
-- What it takes of a predicate on managers to be kept by the functions of src/lib/buffer_manager.c, on
-- any system and with any table.
pub mod Runs
pub mod Sole
use nickdb.Base.{ℕ, ◌<◌, ◌≡◌, none, some, ℤ, Option}
use nickdb.Word.{Buffer}
use nickdb.Constants.{Status, fs_pinned, fs_unpinned, fs_pinned_dirty, fs_unpinned_dirty}
use nickdb.BufferManager.{Manager, slot, set_meta, set_state, push_free, push_writeback}

-- The manager after the element i, the first of the free list, has taken a page and the link of j.
abbrev pub loaded : {T : Type 0} → Manager T → ℕ → ℕ → ℤ → Manager T
loaded man i j index =
    let moved = set_meta man i (man.metaframes j) in
    set_meta moved i (record (moved.metaframes i) { state = fs_pinned; index = index })

-- `Q man p` is what is kept of the pointer `p` with which the write-back loop goes on.
pub record Invariant {T : Type 0} (P : Manager T → Type 0) (Q : Manager T → ℕ → Type 0)
    : Type 0 where
  pub filled : (man : Manager T) (b : ℕ → Buffer) → P man → P (record man { buffer = b })
  pub entered : (man : Manager T) (t : T) → P man → P (record man { lookup_table = t })
  pub pinned :
      (man : Manager T) (i j : ℕ) (index : ℤ)
      → slot man man.freelist ≡ some i
      → slot man (man.metaframes i).next_free_or_dirty ≡ some j
      → P man
      → P (loaded man i j index)
  pub marked :
      (man : Manager T) (i : ℕ)
      → i < man.frames
      → (man.metaframes i).state ≡ fs_pinned
      → P man
      → P (set_state man i fs_pinned_dirty)
  pub freed :
      (man : Manager T) (i : ℕ) (t : T)
      → i < man.frames
      → (man.metaframes i).state ≡ fs_pinned
      → P man
      → P (push_free (record (set_state man i fs_unpinned) { lookup_table = t }) i)
  pub written :
      (man : Manager T) (i : ℕ) (t : T)
      → i < man.frames
      → (man.metaframes i).state ≡ fs_pinned_dirty
      → P man
      → P (push_writeback (record (set_state man i fs_unpinned_dirty) { lookup_table = t }) i)
  pub head : (man : Manager T) → P man → Q man man.writeback
  pub flushed :
      (man : Manager T) (p i : ℕ)
      → slot man p ≡ some i
      → P man
      → Q man p
      → P (set_state man i fs_unpinned)
        × Q
            (set_state man i fs_unpinned)
            ((set_state man i fs_unpinned).metaframes i).next_free_or_dirty
  pub unflushed :
      (man : Manager T) (p i : ℕ)
      → slot man p ≡ some i
      → P man
      → Q man p
      → Q man (man.metaframes i).next_free_or_dirty

-- The state of any frame may be set to FS_PINNED.
abbrev pub Claims : {T : Type 0} → (Manager T → Type 0) → Type 0
Claims {T} P = (man : Manager T) (i : ℕ) → i < man.frames → P man → P (set_state man i fs_pinned)

-- What a function returns with the manager that it leaves.
module _ {T : Type 0} (P : Manager T → Type 0) where
  abbrev pub Left : Status × Manager T → Type 0
  Left (_, man) = P man

  abbrev pub Pinned : Status × Option ℕ × Manager T → Type 0
  Pinned (_, _, man) = P man

  -- The same where the manager may be NULL.
  abbrev pub Given : {A : Type 0} → A × Option (Manager T) → Type 0
  Given (a, none) = Unit
  Given (a, some man) = P man

  abbrev pub GivenToo : {A : Type 0} → Status × A × Option (Manager T) → Type 0
  GivenToo (_, a, man) = Given (a, man)
