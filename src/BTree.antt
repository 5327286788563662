-- ===== src/BTree.antt =====
-- src/lib/datastructures/btree.c and btree.h: configurations, and nodes as frames with a type.
pub mod Nodes
pub mod Layout
pub mod Create
pub mod Insert
pub mod Separators
pub mod Keys
mod Memcmp
mod Tests
use nickdb.Base.{
  ℕ, zero, suc, Bool, true, false, not, ◌&&◌, ◌||◌, Option, none, some, ◌==◌, ltb, if◌then◌else◌, ℤ,
  pos, negsuc,
}
use nickdb.Word.{Buffer, overwrite, store64}
use nickdb.Constants.{
  PageType, free_page_type, data_page_type, dir_page_type, Status, status_ok, status_err,
  status_no_config, status_no_manager,
}
use nickdb.GLib.{HashTable}
use nickdb.Posix.{Posix}
use nickdb.Proc.{Proc, Body, ret, pure, ◌>>=◌, ◌>>◌, return_if, require, deref, run, invoke}
use nickdb.BufferManager.{Manager, is_ok, update, frame_at, get_frame_index_from_frame, buff_unpin}
use nickdb.BufferManager.Calls.{or_null, buff_alloc_frame, buff_free_frame}

-- btree_cmp_keys
abbrev pub Comparator : Type 0
Comparator = Option Buffer → Option Buffer → ℕ → ℤ

-- struct btree_config
pub record Config (T : Type 0) : Type 0 where
  pub manager : Option (Manager T)
  pub root : ℤ
  pub key_size : ℕ
  pub comparator : Comparator

-- `memcmp` is a parameter.
unfoldable pub btree_default_cmp_keys : (Buffer → Buffer → ℕ → ℤ) → Comparator
btree_default_cmp_keys memcmp first second zero = pos 0
btree_default_cmp_keys memcmp none second (suc len) = pos 0
btree_default_cmp_keys memcmp (some a) none (suc len) = pos 0
btree_default_cmp_keys memcmp (some a) (some b) (suc len) = memcmp a b (suc len)

-- Anything but NULL is a comparator of the user's.
abbrev pub comparator_or_default : (Buffer → Buffer → ℕ → ℤ) → Option Comparator → Comparator
comparator_or_default memcmp none = btree_default_cmp_keys memcmp
comparator_or_default memcmp (some c) = c

abbrev pub page_type_code : PageType → ℕ
page_type_code free_page_type = 0
page_type_code data_page_type = 1
page_type_code dir_page_type = 2

abbrev pub is_node_type : PageType → Bool
is_node_type free_page_type = false
is_node_type data_page_type = true
is_node_type dir_page_type = true

-- The field `type` of struct int_btree_node, the first four bytes, the lowest first.
unfoldable pub store_type : Buffer → PageType → Buffer
store_type b type = overwrite b 0 4 (λ k. if k == 0 then page_type_code type else 0)

module _ {T : Type 0} where
  -- The frame to which a `btree_node` pointer leads, if it leads to one.
  unfoldable pub frame_slot : Manager T → ℕ → Option ℕ
  frame_slot man node =
      let i = get_frame_index_from_frame man node in
      if node == frame_at man i && ltb i man.frames then some i else none

  abbrev pub set_buffer : Manager T → ℕ → Buffer → Manager T
  set_buffer man i b = record man { buffer = update man.buffer i b }

module _ {W T : Type 0} ⦃os : Posix W⦄ ⦃g : HashTable T⦄ where
  -- The node is `none` where none is stored.
  unfoldable pub btree_alloc_node :
      ℕ → ℕ → Option (Config T) → PageType → Proc W (Status × Option ℕ × Option (Config T))
  btree_alloc_node key value none type = ret (status_no_config, none, none)
  btree_alloc_node key value (some config) type = run do
    return_if (not (is_node_type type)) (status_err, none, some config)
    (frame_alloc, pair, manager) ← invoke (buff_alloc_frame key value config.manager true)
    return_if (not (is_ok frame_alloc))
        (frame_alloc, none, some (record config { manager = manager }))
    page_frame ← deref pair
    man ← deref manager
    i ← deref (frame_slot man page_frame.frame)
    let typed = set_buffer man i (store_type (man.buffer i) type)
    pure (status_ok, some page_frame.frame, some (record config { manager = some typed }))

  unfoldable pub btree_free_node : ℕ → Option (Config T) → ℕ → Proc W (Status × Option (Config T))
  btree_free_node fresh none node = ret (status_no_config, none)
  btree_free_node fresh (some config) node = run do
    return_if (node == 0) (status_ok, some config)
    (node_free, manager) ← invoke (buff_free_frame fresh config.manager node)
    return_if (not (is_ok node_free)) (node_free, some (record config { manager = manager }))
    pure (status_ok, some (record config { manager = manager }))

  -- What follows the two allocations: the page of the leaf goes to the second place of the root's
  -- page list, `bytes` from 8 on, and both nodes are unpinned, the leaf first.
  unfoldable pub finish_create :
      ℕ → ℕ → Config T → ℕ → ℕ → Body W (Status × Option (Config T)) (Status × Option (Config T))
  finish_create fresh1 fresh2 config root_frame leaf_frame = do
    man ← deref config.manager
    let leaf = get_frame_index_from_frame man leaf_frame
    require (ltb leaf man.frames)
    i ← deref (frame_slot man root_frame)
    let linked = set_buffer man i (store64 (man.buffer i) 12 (man.metaframes leaf).index)
    (leaf_unpin, after_leaf) ← invoke (buff_unpin fresh1 (some linked) leaf_frame)
    return_if (not (is_ok leaf_unpin)) (leaf_unpin, some (record config { manager = after_leaf }))
    (root_unpin, after_root) ← invoke (buff_unpin fresh2 after_leaf root_frame)
    return_if (not (is_ok root_unpin)) (root_unpin, some (record config { manager = after_root }))
    pure (status_ok, some (record config { manager = after_root }))

  -- The addresses are those of the locals of the two calls of buff_pin, and of the two new keys of
  -- buff_unpin.
  unfoldable pub btree_create :
      (key1 value1 key2 value2 fresh1 fresh2 : ℕ) (memcmp : Buffer → Buffer → ℕ → ℤ)
      → Option (Config T)
      → Option (Manager T)
      → ℕ
      → Option Comparator
      → Proc W (Status × Option (Config T))
  btree_create key1 value1 key2 value2 fresh1 fresh2 memcmp none manager key_size comparator =
      ret (status_no_config, none)
  btree_create key1 value1 key2 value2 fresh1 fresh2 memcmp (some config) none key_size comparator =
      ret (status_no_manager, some config)
  btree_create key1 value1 key2 value2 fresh1 fresh2 memcmp (some config) (some man) key_size
        comparator =
      run do
        let empty = record config { manager = some man; key_size = key_size }
        (root_status, root_frame, with_root) ←
            invoke (btree_alloc_node key1 value1 (some empty) dir_page_type)
        return_if (not (is_ok root_status)) (root_status, with_root)
        config1 ← deref with_root
        man1 ← deref config1.manager
        let root = get_frame_index_from_frame man1 (or_null root_frame)
        require (ltb root man1.frames)
        let rooted = record config1 {
          root = (man1.metaframes root).index;
          comparator = comparator_or_default memcmp comparator;
        }
        (leaf_status, leaf_frame, with_leaf) ←
            invoke (btree_alloc_node key2 value2 (some rooted) data_page_type)
        return_if (not (is_ok leaf_status)) (leaf_status, with_leaf)
        config2 ← deref with_leaf
        finish_create fresh1 fresh2 config2 (or_null root_frame) (or_null leaf_frame)

-- A page below the lowest is zero or negative.
abbrev is_below_lowest : ℤ → Bool
is_below_lowest (pos n) = n == 0
is_below_lowest (negsuc n) = true

module _ {T : Type 0} where
  unfoldable pub btree_open :
      (Buffer → Buffer → ℕ → ℤ)
      → Option (Config T)
      → Option (Manager T)
      → ℤ
      → ℕ
      → Option Comparator
      → Status × Option (Config T)
  btree_open memcmp none manager root key_size comparator = (status_no_config, none)
  btree_open memcmp (some config) none root key_size comparator = (status_no_manager, some config)
  btree_open memcmp (some config) (some man) root key_size comparator =
      if is_below_lowest root || ltb key_size 1 then (status_err, some config) else (
        status_ok,
        some (record {
          manager = some man;
          root = root;
          key_size = key_size;
          comparator = comparator_or_default memcmp comparator;
        }),
      )

  unfoldable pub btree_remove : Option (Config T) → Status
  btree_remove none = status_no_config
  btree_remove (some config) = status_ok
