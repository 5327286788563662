-- ===== src/Word/Fields.antt =====
-- What a 64-bit field of a buffer holds after a write: of the field itself, of bytes around it, and
-- of bytes elsewhere.
use nickdb.Base.{ℕ, ◌+◌, ◌-◌, ◌≤◌, ◌<◌, ◌≡◌, ap, ◌∙◌, ◌⊎◌, arith, ℤ}
use nickdb.Word.{
  Buffer, overwrite, shift, to_u64, of_u64, FitsI64, digit, load64, store64, wrap64_fits, to_u64-lt,
  word_ext, word-digit,
}

-- A field is decided by its eight bytes.
pub load64_ext :
    (b c : Buffer) (a d : ℕ) → ((i : ℕ) → i < 8 → b (a + i) ≡ c (d + i)) → load64 b a ≡ load64 c d
unfolding load64
load64_ext b c a d h = ap of_u64 (word_ext 8 (shift b a) (shift c d) h)

-- A field that a write covers is the field of the source.
pub load64-overwrite_inside :
    (b : Buffer) (off n : ℕ) (src : Buffer) (a : ℕ)
    → a + 8 ≤ n
    → load64 (overwrite b off n src) (off + a) ≡ load64 src a
unfolding overwrite
load64-overwrite_inside b off n src a h =
    load64_ext (overwrite b off n src) src (off + a) a
      λ i p. let at : off + a + i - off ≡ a + i = omega arith in ground (arith, ap src at)

-- A field that a write misses is left alone.
pub load64-overwrite_outside :
    (b : Buffer) (off n : ℕ) (src : Buffer) (a : ℕ)
    → (a + 8 ≤ off) ⊎ (off + n ≤ a)
    → load64 (overwrite b off n src) a ≡ load64 b a
unfolding overwrite
load64-overwrite_outside b off n src a h =
    load64_ext (overwrite b off n src) b a a λ i p. ground arith

-- A field reads back what was stored in it.
pub load64-store64 : (b : Buffer) (a : ℕ) (v : ℤ) → FitsI64 v → load64 (store64 b a v) a ≡ v
unfolding load64 store64 overwrite
load64-store64 b a v h =
    ap of_u64 (
      word_ext 8 (shift (store64 b a v) a) (digit (to_u64 v))
        (λ i p. let at : a + i - a ≡ i = omega arith in ground (arith, ap (digit (to_u64 v)) at))
      ∙ word-digit 8 (to_u64 v) (to_u64-lt v))
    ∙ wrap64_fits v h

-- Another field keeps its value.
pub load64-store64_ne :
    (b : Buffer) (a : ℕ) (v : ℤ) (d : ℕ)
    → (d + 8 ≤ a) ⊎ (a + 8 ≤ d)
    → load64 (store64 b a v) d ≡ load64 b d
unfolding store64
load64-store64_ne b a v d h = load64-overwrite_outside b a 8 (digit (to_u64 v)) d h

pub load64-shift : (b : Buffer) (off a : ℕ) → load64 (shift b off) a ≡ load64 b (off + a)
load64-shift b off a =
    load64_ext (shift b off) b a (off + a)
      λ i p. let at : off + (a + i) ≡ off + a + i = omega arith in ap b at

-- A field of the first `n` bytes that were copied from offset `off`.
pub load64-copy :
    (b : Buffer) (n : ℕ) (src : Buffer) (off a : ℕ)
    → a + 8 ≤ n
    → load64 (overwrite b 0 n (shift src off)) a ≡ load64 src (off + a)
load64-copy b n src off a h =
    let at : a ≡ 0 + a = omega arith in
    ap (load64 (overwrite b 0 n (shift src off))) at
    ∙ load64-overwrite_inside b 0 n (shift src off) a h
    ∙ load64-shift src off a
