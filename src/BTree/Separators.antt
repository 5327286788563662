-- ===== src/BTree/Separators.antt =====
-- src/lib/datastructures/btree.c: btree_insert_sep_value. The nodes are frames of the buffer, which is
-- one block of memory.
pub mod Scan
use nickdb.Base.{
  ℕ, zero, suc, ◌+◌, ◌-◌, ◌*◌, ◌/◌, ◌%◌, ◌^◌, Bool, true, false, ◌&&◌, Option, none, some, ◌==◌,
  leb, if◌then◌else◌, ℤ, pos, negsuc, ◌==ℤ◌,
}
use nickdb.Word.{Buffer}
use nickdb.Constants.{page_size, Status, status_ok, status_err}
use nickdb.Proc.{Proc, ret, diverges, pure, ◌>>=◌, ◌>>◌, return_if, require, deref, run, invoke}
use nickdb.BufferManager.{Manager}
use nickdb.BTree.Layout.{btree_get_sep}

abbrev pub buffer_end : {T : Type 0} → Manager T → ℕ
buffer_end man = man.buffer_at + page_size * man.frames

-- The `n` bytes from an address in the buffer on, if they all lie in it.
unfoldable pub bytes_from : {T : Type 0} → Manager T → ℕ → ℕ → Option Buffer
bytes_from man a n =
    if leb man.buffer_at a && leb (a + n) (buffer_end man)
    then some (λ k.
      man.buffer ((a + k - man.buffer_at) / page_size) ((a + k - man.buffer_at) % page_size))
    else none

-- `&blank` is the address of the pointer itself: eight bytes, the lowest first.
abbrev pub pointer_bytes : ℕ → Buffer
pointer_bytes a k = a / 256 ^ k % 256

abbrev pub sizeof_pointer : ℕ
sizeof_pointer = 8

-- The two flags after a comparison.
abbrev pub less : ℤ → Bool → Bool
less (negsuc n) flag = true
less (pos n) flag = flag

abbrev pub greater : ℤ → Bool → Bool
greater (negsuc n) flag = flag
greater (pos n) flag = if n == 0 then flag else true

module _ {W T : Type 0} (memcmp : Buffer → Buffer → ℕ → ℤ) (key_size : ℕ) (man : Manager T)
    (node : ℕ) (blank : ℕ) (sep : Buffer) where
  -- The loop on fuel, at the address `sep_start`. At an even index the address moves on and the index
  -- does not. The two flags are set and never acted on.
  unfoldable pub sep_loop : ℕ → (index sep_start : ℕ) → (ltflag gtflag : Bool) → Proc W (Unit {0})
  sep_loop zero index sep_start ltflag gtflag = λ w. diverges
  sep_loop (suc fuel) index sep_start ltflag gtflag = run do
    here ← deref (bytes_from man sep_start key_size)
    let order = memcmp sep here key_size
    let left =
        invoke
          (sep_loop fuel index (sep_start + key_size) (less order ltflag) (greater order gtflag))
    let right = invoke (
        sep_loop fuel (index + 1) (btree_get_sep key_size node (index + 1)) (less order ltflag)
          (greater order gtflag))
    if memcmp (pointer_bytes blank) here key_size ==ℤ pos 0
        then pure tt
        else if index % 2 == 0
        then left
        else right

-- The address that `calloc` returns for `blank`. A comparison reads `key_size` bytes from the pointer
-- variable. Fuel: each round moves on in the buffer, unless the key size is 0 and the loop ends at
-- once.
unfoldable pub btree_insert_sep_value :
    {W T : Type 0}
    → (Buffer → Buffer → ℕ → ℤ)
    → ℕ
    → ℕ
    → Manager T
    → ℕ
    → Option Buffer
    → Proc W Status
btree_insert_sep_value memcmp blank key_size man node none = ret status_err
btree_insert_sep_value memcmp blank key_size man node (some sep) = run do
  return_if (node == 0) status_err
  require (leb key_size sizeof_pointer)
  invoke (
      sep_loop memcmp key_size man node blank sep (page_size * man.frames + 2) 0
        (btree_get_sep key_size node 0) false false)
  pure status_ok
