-- ===== src/BTree/Layout.antt =====
-- src/lib/datastructures/btree.c: where the parts of a node lie. Addresses are taken modulo 2^64.
use native.Mathlib.Nat.{mul-add}
use nickdb.Base.{
  ℕ, suc, ◌+◌, ◌-◌, ◌*◌, ◌%◌, ◌^◌, ◌<◌, ◌≤◌, ◌≡◌, Bool, true, not, ◌&&◌, ◌||◌, ◌==◌, leb,
  if◌then◌else◌, ℤ, pos, negsuc, arith,
}
use nickdb.Constants.{page_size, Status, status_ok, status_err}

-- END_OF_PAGE, the size of the field `bytes`, which begins behind the type
abbrev pub end_of_page : ℕ
end_of_page = 4092

abbrev pub bytes_at : ℕ → ℕ
bytes_at node = node + 4

unfoldable pub btree_get_dir_list : ℕ → ℕ
btree_get_dir_list node = bytes_at node

unfoldable pub btree_get_sep_list : (key_size node : ℕ) → ℕ
btree_get_sep_list key_size node =
    (bytes_at node + (end_of_page + 2 ^ 64 - key_size % 2 ^ 64) % 2 ^ 64) % 2 ^ 64

unfoldable pub btree_get_sep : (key_size node index : ℕ) → ℕ
btree_get_sep key_size node index =
    (bytes_at node + (end_of_page + 2 ^ 64 - key_size * 2 * (index + 1) % 2 ^ 64) % 2 ^ 64) % 2 ^ 64

unfoldable pub btree_get_record_list : ℕ → ℕ
btree_get_record_list node = bytes_at node

-- A record is a signed number of 16 bits.
unfoldable pub btree_get_record_data : ℕ → ℤ → ℕ
btree_get_record_data node (pos number) = (bytes_at node + number) % 2 ^ 64
btree_get_record_data node (negsuc n) = (bytes_at node + 2 ^ 64 - suc n) % 2 ^ 64

-- RECORD_BOUNDS
abbrev pub record_bounds : ℤ → Bool
record_bounds (pos n) = leb n 4 || leb end_of_page n
record_bounds (negsuc n) = true

unfoldable pub btree_insert_record_value : (node : ℕ) → ℤ → (data_at length : ℕ) → Status
btree_insert_record_value node number data_at length =
    if node == 0 || record_bounds number
    then status_err
    else if data_at == 0 && not (length == 0)
    then status_err
    else status_ok

-- An address that lies `x` before the end of the page.
before_end :
    (node x : ℕ)
    → node + page_size < 2 ^ 64
    → x ≤ end_of_page
    → (bytes_at node + (end_of_page + 2 ^ 64 - x % 2 ^ 64) % 2 ^ 64) % 2 ^ 64 + x ≡ node + page_size
before_end node x below fits = omega arith

-- In a node that ends below 2^64, for a key size and an index such that the pairs of separators up to
-- this one fit behind the type: the pair lies behind the type and before the end of the page, pair 0
-- ends where the page ends, the next pair of fitting size ends where this one begins, and the
-- separator list begins with the right separator of pair 0.
pub btree_get_sep-inside :
    (key_size node index : ℕ)
    → node + page_size < 2 ^ 64
    → key_size * 2 * (index + 1) ≤ end_of_page
    → (bytes_at node ≤ btree_get_sep key_size node index)
      × (btree_get_sep key_size node index + key_size * 2 ≤ node + page_size)
      × (btree_get_sep key_size node 0 + key_size * 2 ≡ node + page_size)
      × (key_size * 2 * (index + 2) ≤ end_of_page
          → btree_get_sep key_size node (index + 1) + key_size * 2
            ≡ btree_get_sep key_size node index)
      × (btree_get_sep_list key_size node ≡ btree_get_sep key_size node 0 + key_size)
unfolding btree_get_sep btree_get_sep_list
btree_get_sep-inside key_size node index below fits =
    let pair = key_size * 2 in
    let twice : key_size * 2 * (index + 2) ≡ key_size * 2 * (index + 1) + key_size * 2 =
      omega (arith, mul-add pair index 2, mul-add pair index 1) in
    let twice' : key_size * 2 * (index + 1 + 1) ≡ key_size * 2 * (index + 1) + key_size * 2 =
      omega (arith, mul-add pair (index + 1) 1) in
    let once : key_size * 2 * (0 + 1) ≡ key_size * 2 = omega arith in
    let least : key_size * 2 ≤ key_size * 2 * (index + 1) = omega (arith, mul-add pair index 1) in
    let here = before_end node (key_size * 2 * (index + 1)) below fits in
    let first = before_end node (key_size * 2) below (omega (arith, least, fits)) in
    let list = before_end node key_size below (omega (arith, least, fits)) in
    (
      omega (arith, here, fits),
      omega (arith, here, least),
      rw once first,
      λ more.
          let after =
            before_end node (key_size * 2 * (index + 1 + 1)) below
              (omega (arith, twice, twice', more)) in
          omega (arith, after, here, twice'),
      rw once (omega (arith, first, list)),
    )
