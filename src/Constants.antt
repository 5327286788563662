-- ===== src/Constants.antt =====
-- src/lib/constants.h and src/lib/constants.c: sizes, enums and the table of status names.
pub mod Names
mod Tests
use Prim.Native.String.{String}
use nickdb.Base.{ℕ, Option, none, some, List, [], ◌∷◌, ℤ, negsuc}

-- PAGESIZE
abbrev pub page_size : ℕ
page_size = 4096

-- STOREEXT, ".store", and STOREEXTLEN
abbrev pub store_ext : List ℕ
store_ext = b'.' ∷ b's' ∷ b't' ∷ b'o' ∷ b'r' ∷ b'e' ∷ []

abbrev pub store_ext_len : ℕ
store_ext_len = 6

-- NULLLEN
abbrev pub null_len : ℕ
null_len = 1

-- ERR_SET
abbrev pub err_set : ℤ
err_set = negsuc 0

-- EMPTY_LIST
abbrev pub empty_list : ℤ
empty_list = negsuc 0

pub data PageType : Type 0 where
  free_page_type data_page_type dir_page_type : PageType

pub data FrameState : Type 0 where
  fs_pinned fs_unpinned fs_pinned_dirty fs_unpinned_dirty : FrameState

pub data Status : Type 0 where
  status_ok status_err : Status
  status_no_backing status_no_file status_bad_file status_bad_open : Status
  status_bad_close status_bad_remove : Status
  status_bad_read status_bad_write status_bad_seek : Status
  status_meta_page : Status
  status_no_manager : Status
  status_no_free_frames status_pin_err status_unpin_err status_mark_err status_flush_err : Status
  status_no_config : Status
  status_test_reset status_test_err : Status
  status_max : Status

-- The value of an enumerator, as C counts them.
unfoldable pub status_code : Status → ℕ
status_code status_ok = 0
status_code status_err = 1
status_code status_no_backing = 2
status_code status_no_file = 3
status_code status_bad_file = 4
status_code status_bad_open = 5
status_code status_bad_close = 6
status_code status_bad_remove = 7
status_code status_bad_read = 8
status_code status_bad_write = 9
status_code status_bad_seek = 10
status_code status_meta_page = 11
status_code status_no_manager = 12
status_code status_no_free_frames = 13
status_code status_pin_err = 14
status_code status_unpin_err = 15
status_code status_mark_err = 16
status_code status_flush_err = 17
status_code status_no_config = 18
status_code status_test_reset = 19
status_code status_test_err = 20
status_code status_max = 21

-- The array `status_str`: an enumerator that no designated initialiser names is a null pointer,
-- and `STATUS_MAX` is one past the end.
unfoldable pub status_str : Status → Option String
status_str status_ok = some "STATUS_OK"
status_str status_err = some "STATUS_ERR"
status_str status_no_backing = some "STATUS_NO_BACKING"
status_str status_no_file = some "STATUS_NO_FILE"
status_str status_bad_file = some "STATUS_BAD_FILE"
status_str status_bad_open = some "STATUS_BAD_OPEN"
status_str status_bad_close = some "STATUS_BAD_CLOSE"
status_str status_bad_remove = some "STATUS_BAD_REMOVE"
status_str status_bad_read = some "STATUS_BAD_READ"
status_str status_bad_write = some "STATUS_BAD_WRITE"
status_str status_bad_seek = some "STATUS_BAD_SEEK"
status_str status_no_manager = some "STATUS_NO_MANAGER"
status_str status_no_free_frames = some "STATUS_NO_FREE_FRAMES"
status_str status_unpin_err = some "STATUS_UNPIN_ERR"
status_str status_mark_err = some "STATUS_MARK_ERR"
status_str status_flush_err = some "STATUS_FLUSH_ERR"
status_str status_meta_page = some "STATUS_META_PAGE"
status_str status_test_reset = some "STATUS_TEST_RESET"
status_str status_test_err = some "STATUS_TEST_ERR"
status_str _ = none
