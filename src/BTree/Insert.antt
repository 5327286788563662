-- ===== src/BTree/Insert.antt =====
-- src/lib/datastructures/btree.c: btree_insert, as far as it is written, and btree_destroy.
use nickdb.Base.{ℕ, not, ◌&&◌, ◌||◌, Option, none, some, ◌==◌, if◌then◌else◌}
use nickdb.Word.{load64}
use nickdb.Constants.{Status, status_ok, status_err, status_no_config}
use nickdb.GLib.{HashTable}
use nickdb.Posix.{Posix}
use nickdb.Proc.{Proc, Body, ret, pure, ◌>>=◌, ◌>>◌, return_if, deref, run, invoke}
use nickdb.BufferManager.{Manager, is_ok, buff_pin}
use nickdb.BufferManager.Calls.{or_null}
use nickdb.BTree.{Config}
use nickdb.BTree.Layout.{btree_get_dir_list}
use nickdb.BTree.Separators.{bytes_from}

-- The page that the first pointer of the root leads to is pinned.
unfoldable pub first_data_page :
    {W T : Type 0} ⦃os : Posix W⦄ ⦃g : HashTable T⦄
    → ℕ
    → ℕ
    → Config T
    → Manager T
    → ℕ
    → Body W (Status × Option (Config T)) (Config T)
first_data_page key2 value2 config man root_node = do
  dir_list ← deref (bytes_from man (btree_get_dir_list root_node) 8)
  (datapage_pin, data_frame, manager) ← invoke (buff_pin key2 value2 (some man) (load64 dir_list 0))
  let pinned = record config { manager = manager }
  return_if (not (is_ok datapage_pin)) (datapage_pin, some pinned)
  pure pinned

-- The addresses are those of the locals of the two calls of buff_pin. The call of btree_get_sep_list
-- lacks its first argument, so the address that it returns, `root_sep_list`, is an argument.
unfoldable pub btree_insert :
    {W T : Type 0} ⦃os : Posix W⦄ ⦃g : HashTable T⦄
    → (key1 value1 key2 value2 root_sep_list : ℕ) → Option (Config T)
    → (key value value_length : ℕ) → Proc W (Status × Option (Config T))
btree_insert key1 value1 key2 value2 root_sep_list none key value value_length =
    ret (status_no_config, none)
btree_insert key1 value1 key2 value2 root_sep_list (some config) key value value_length = run do
  return_if (key == 0) (status_err, some config)
  return_if (value_length == 0 && not (value == 0)) (status_err, some config)
  (root_pin, root_frame, manager) ← invoke (buff_pin key1 value1 config.manager config.root)
  let rooted = record config { manager = manager }
  return_if (not (is_ok root_pin) || or_null root_frame == 0) (root_pin, some rooted)
  man ← deref manager
  first_sep ← deref (bytes_from man root_sep_list 1)
  pinned ←
      if first_sep 0 == 0
      then first_data_page key2 value2 rooted man (or_null root_frame)
      else pure rooted
  pure (status_ok, some pinned)

-- The array parameter is a pointer to the tree, and nothing is done with it.
unfoldable pub btree_destroy : ℕ → Status
btree_destroy tree = status_ok
