-- ===== src/BTree/Tests.antt =====
-- A node allocated on a store in memory, places in a node, and the theorems at them.
use nickdb.Base.{
  ltb, List, has, ◌∷◌, none, false, ◌⊎◌, ℕ, ◌+◌, ◌*◌, ◌≤◌, ◌≡◌, refl, ◌≢◌, some, [], if◌then◌else◌,
  arith, pos,
}
use nickdb.Word.{Buffer, zeros, overwrite}
use nickdb.Constants.{page_size, status_ok, status_err}
use nickdb.Posix.{File}
use nickdb.Posix.Ram.{Ram, ram, ram_fd, ram_documented, ram_reliable}
use nickdb.Proc.{ret, fault}
use nickdb.FileIo.Pages.View.{IsStore}
use nickdb.FileIo.Tests.{one_page, one_page-IsStore}
use nickdb.BufferManager.Table.{Entries, entries, entries_laws}
use nickdb.BufferManager.Tests.{
  three_frames, three_frames-Placed, three_pages, one_pinned, head_slot, next_slot,
}
use nickdb.FileIo.{index_to_offset}
use nickdb.FileIo.Pages.{get_page}
use nickdb.BufferManager.{slot, get_frame_index_from_meta, buff_pin, pin_in, fetch_page, copy_next}
use nickdb.BTree.{Config, btree_create}
use nickdb.BTree.Create.{btree_create-one_frame}
use nickdb.BTree.Create.Never.{btree_create_fails}
use nickdb.BTree.Insert.{btree_insert}
use nickdb.BTree.Keys.{btree_get_key_sep_size, IsText, btree_get_key_sep_size-IsText}
use nickdb.BTree.Memcmp.{compare_bytes, compare_bytes-MemcmpLaw}
use nickdb.BTree.Separators.{bytes_from, btree_insert_sep_value}
use nickdb.BTree.Separators.Scan.{Scan, btree_insert_sep_value-Scan}
use nickdb.BTree.Layout.{bytes_at, btree_get_sep, btree_get_sep_list, btree_get_sep-inside}

abbrev tree : Config Entries
tree = record {
  manager = some three_frames;
  root = pos 0;
  key_size = 8;
  comparator = λ a b len. pos 0;
}

btree_get_sep-inside_example :
    (bytes_at 65536 ≤ btree_get_sep 8 65536 2)
    × (btree_get_sep 8 65536 2 + 8 * 2 ≤ 65536 + page_size)
    × (btree_get_sep 8 65536 0 + 8 * 2 ≡ 65536 + page_size)
    × (8 * 2 * (2 + 2) ≤ 4092 → btree_get_sep 8 65536 (2 + 1) + 8 * 2 ≡ btree_get_sep 8 65536 2)
    × (btree_get_sep_list 8 65536 ≡ btree_get_sep 8 65536 0 + 8)
btree_get_sep-inside_example = btree_get_sep-inside 8 65536 2 (omega arith) (omega arith)

last_slot : slot three_frames 1048 ≡ some 2
unfolding slot get_frame_index_from_meta
last_slot = refl

abbrev key_ab : List ℕ
key_ab = b'a' ∷ b'b' ∷ 0 ∷ b'c' ∷ []

-- It begins with two zeros.
abbrev first_bytes : Buffer
first_bytes k = if ltb k 2 then 0 else k

btree_create-one_frame_example :
    (w' : Ram) × (f' : File) × (config' : Config Entries) × (btree_create 7000 7008 7016 7024 9000
        9008 compare_bytes
        (some tree)
        (some three_frames)
        8
        none
        (some one_page)
      ≡ ret (status_err, some config') w')
    × (ram_documented.file ram_fd w' ≡ some f')
    × IsStore f' 3 []
    × (config'.root ≡ pos 1)
btree_create-one_frame_example =
    btree_create-one_frame ram_documented ram_reliable entries_laws 7000 7008 7016 7024 9000 9008
      compare_bytes tree three_frames 8 none ram_fd (some one_page) one_page 1 0 1 2 refl refl
      one_page-IsStore (omega arith) three_frames-Placed (omega arith) head_slot next_slot last_slot
      refl refl refl (omega arith) (omega arith) (omega arith)

-- The run itself.
create_run :
    (w' : Ram) × (config' : Config Entries) × (btree_create 7000 7008 7016 7024 9000 9008
        compare_bytes
        (some tree)
        (some three_frames)
        8
        none
        (some one_page)
      ≡ ret (status_err, some config') w')
create_run =
    let (w', f', config', run, _, _, _) =
      btree_create-one_frame ram_documented ram_reliable entries_laws 7000 7008 7016 7024 9000 9008
        compare_bytes tree three_frames 8 none ram_fd (some one_page) one_page 1 0 1 2 refl refl
        one_page-IsStore (omega arith) three_frames-Placed (omega arith) head_slot next_slot
        last_slot refl refl refl (omega arith) (omega arith) (omega arith) in
    (w', config', run)

btree_create_fails_example : status_err ≢ status_ok
btree_create_fails_example =
    btree_create_fails 7000 7008 7016 7024 9000 9008 compare_bytes (some tree) (some three_frames) 8
      none (some one_page) create_run.0 status_err (some create_run.1) create_run.2

btree_get_key_sep_size-IsText_example :
    (btree_get_key_sep_size (some key_ab) ≡ some (pos 2) → IsText key_ab 2)
    × (IsText key_ab 2 → btree_get_key_sep_size (some key_ab) ≡ some (pos 2))
    × (btree_get_key_sep_size (some key_ab) ≡ none → has 0 key_ab ≡ false)
    × (has 0 key_ab ≡ false → btree_get_key_sep_size (some key_ab) ≡ none)
btree_get_key_sep_size-IsText_example = btree_get_key_sep_size-IsText key_ab 2

btree_insert_sep_value-Scan_example :
    (Scan three_frames 8 5000 (btree_get_sep 8 65536 0)
      × (btree_insert_sep_value compare_bytes 5000 8 three_frames 65536 (some zeros) tt
          ≡ ret status_ok tt))
    ⊎ ((¬ Scan three_frames 8 5000 (btree_get_sep 8 65536 0))
        × (btree_insert_sep_value compare_bytes 5000 8 three_frames 65536 (some zeros) tt ≡ fault))
btree_insert_sep_value-Scan_example =
    btree_insert_sep_value-Scan compare_bytes compare_bytes-MemcmpLaw 8 three_frames 65536 5000
      zeros (omega arith) tt (omega arith) (omega arith) (omega arith) (omega arith)

-- The root is page 2, which is loaded into frame 0.
abbrev rooted : Config Entries
rooted = record tree { root = pos 2 }

insert_run :
    btree_insert 7000 7008 7016 7024 65540 (some rooted) 4000 4100 3 (some three_pages)
    ≡ ret (status_ok, some (record rooted { manager = some one_pinned })) (some three_pages)
unfolding btree_insert bytes_from buff_pin pin_in fetch_page copy_next slot
    get_frame_index_from_meta get_page index_to_offset overwrite
insert_run = refl

abbrev node_at : ℕ
node_at = 65536

-- A record of no bytes, without data.
abbrev no_bytes : ℕ
no_bytes = 0
