-- ===== src/BTree/Separators/Scan.antt =====
-- What the loop of btree_insert_sep_value searches for.
use nickdb.Base.{
  ℕ, zero, suc, ◌+◌, ◌*◌, ◌^◌, ◌<◌, ◌≤◌, ◌≡◌, ◌≢◌, ◌∙◌, sym, ap, subst, Bool, true, false, none,
  some, ◌==◌, leb, ◌⊎◌, inl, inr, Bool-cases, Option-cases, arith, ℤ, pos, ◌==ℤ◌,
}
use nickdb.Word.{Buffer}
use nickdb.Constants.{page_size, status_ok}
use nickdb.Proc.{ret, fault}
use nickdb.BufferManager.{Manager}
use nickdb.BTree.Layout.{btree_get_sep, btree_get_sep-inside}
use nickdb.BTree.Separators.{
  bytes_from, buffer_end, pointer_bytes, sizeof_pointer, less, greater, sep_loop,
  btree_insert_sep_value,
}

abbrev pub SameBytes : ℕ → Buffer → Buffer → Type 0
SameBytes n a b = (k : ℕ) → k < n → a k ≡ b k

-- What the standard says of memcmp: it returns 0 exactly for equal bytes.
pub record MemcmpLaw (memcmp : Buffer → Buffer → ℕ → ℤ) : Type 0 where
  pub same : (a b : Buffer) (n : ℕ) → memcmp a b n ≡ pos 0 → SameBytes n a b
  pub zero_of_same : (a b : Buffer) (n : ℕ) → SameBytes n a b → memcmp a b n ≡ pos 0

-- At some distance from the address `a`, a multiple of the key size, the buffer has the bytes of the
-- pointer `blank`.
pub data Scan {T : Type 0} (man : Manager T) (key_size blank : ℕ) : ℕ → Type 0 where
  found :
      {a : ℕ} (here : Buffer)
      → bytes_from man a key_size ≡ some here
      → SameBytes key_size (pointer_bytes blank) here
      → Scan man key_size blank a
  later :
      {a : ℕ} (here : Buffer)
      → bytes_from man a key_size ≡ some here
      → Scan man key_size blank (a + key_size)
      → Scan man key_size blank a

Scan-some :
    {T : Type 0} {man : Manager T} {key_size blank a : ℕ}
    → Scan man key_size blank a
    → bytes_from man a key_size ≢ none
Scan-some (found here at same) e = cc (sym at ∙ e)
Scan-some (later here at rest) e = cc (sym at ∙ e)

Scan-next :
    {T : Type 0} {man : Manager T} {key_size blank a : ℕ} (here : Buffer)
    → bytes_from man a key_size ≡ some here
    → ¬ SameBytes key_size (pointer_bytes blank) here
    → Scan man key_size blank a
    → Scan man key_size blank (a + key_size)
Scan-next {key_size} {blank} here at other (found here' at' same) =
    let one : here' ≡ here = cc (sym at' ∙ at) in
    absurd (other (subst (λ b. SameBytes key_size (pointer_bytes blank) b) one same))
Scan-next here at other (later here' at' rest) = rest

==ℤ_zero : (i : ℤ) → (i ==ℤ pos 0) ≡ true → i ≡ pos 0
==ℤ_zero i h = ground arith

bytes_from_inside :
    {T : Type 0} (man : Manager T) (a n : ℕ) (b : Buffer)
    → bytes_from man a n ≡ some b
    → a + n ≤ buffer_end man
unfolding bytes_from
bytes_from_inside man a n b h = ground arith

module _ {W T : Type 0} (memcmp : Buffer → Buffer → ℕ → ℤ) (law : MemcmpLaw memcmp) (key_size : ℕ)
    (man : Manager T) (node blank : ℕ) (sep : Buffer) (some_key : 1 ≤ key_size) where
  sep_loop-Scan :
      (fuel a : ℕ) (lt gt : Bool) (w : W)
      → buffer_end man < a + fuel
      → 1 ≤ fuel
      → (Scan man key_size blank a
          × (sep_loop memcmp key_size man node blank sep fuel 0 a lt gt w ≡ ret tt w))
        ⊎ ((¬ Scan man key_size blank a)
            × (sep_loop memcmp key_size man node blank sep fuel 0 a lt gt w ≡ fault))
  unfolding sep_loop
  sep_loop-Scan zero a lt gt w enough one = absurd (omega arith)
  sep_loop-Scan (suc fuel) a lt gt w enough one = elim (Option-cases (bytes_from man a key_size)) [
    | inl out ↦ inr (λ scan. Scan-some scan out, rw out)
    | inr (here, at) ↦ elim (Bool-cases (memcmp (pointer_bytes blank) here key_size ==ℤ pos 0)) [
      | inl e ↦ inl (
        found here at (
            law.same (pointer_bytes blank) here key_size
              (==ℤ_zero (memcmp (pointer_bytes blank) here key_size) e)),
        rw (at, e),
      )
      | inr e ↦
          let other : ¬ SameBytes key_size (pointer_bytes blank) here = λ same.
            let equal = law.zero_of_same (pointer_bytes blank) here key_size same in
            cc (sym e ∙ ap (λ i. i ==ℤ pos 0) equal) in
          let order = memcmp sep here key_size in
          let inside = bytes_from_inside man a key_size here at in
          elim (sep_loop-Scan fuel (a + key_size) (less order lt) (greater order gt) w
            (omega (arith, inside)) (omega (arith, inside))) [
              | inl (scan, run) ↦ inl (later here at scan, rw (at, e, run))
              | inr (no_scan, run) ↦
                  inr (λ scan. no_scan (Scan-next here at other scan), rw (at, e, run))
            ]
    ]
  ]

  -- btree_insert_sep_value with a key size from 1 to 8, a node that begins in the buffer, and a
  -- separator ends, within its fuel: it returns STATUS_OK exactly when, at some multiple of the key
  -- size from the separators of pair 0 on, the buffer has the bytes of the pointer `blank`, and else
  -- it reads behind the buffer.
  pub btree_insert_sep_value-Scan :
      (w : W)
      → key_size ≤ sizeof_pointer
      → node ≢ 0
      → man.buffer_at ≤ node
      → node + page_size < 2 ^ 64
      → (Scan man key_size blank (btree_get_sep key_size node 0)
          × (btree_insert_sep_value memcmp blank key_size man node (some sep) w ≡ ret status_ok w))
        ⊎ ((¬ Scan man key_size blank (btree_get_sep key_size node 0))
            × (btree_insert_sep_value memcmp blank key_size man node (some sep) w ≡ fault))
  unfolding btree_insert_sep_value
  btree_insert_sep_value-Scan w small real low below =
      let (above, _, _, _, _) = btree_get_sep-inside key_size node 0 below (omega (arith, small)) in
      let start = btree_get_sep key_size node 0 in
      let not_null : (node == 0) ≡ false = ground arith in
      let fits : leb key_size sizeof_pointer ≡ true = ground arith in
      elim (sep_loop-Scan (page_size * man.frames + 2) start false false w
        (omega (arith, above, low)) (omega arith)) [
          | inl (scan, run) ↦ inl (scan, rw (not_null, fits, run))
          | inr (no_scan, run) ↦ inr (no_scan, rw (not_null, fits, run))
        ]
