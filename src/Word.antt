-- ===== src/Word.antt =====
-- Byte buffers, and the 64-bit signed words that the structs of src/lib/fileio.h hold in them: two's
-- complement, little-endian, 8 bytes each.
pub mod Fields
use native.Mathlib.Nat.{pow-suc}
use nickdb.Base.{
  ℕ, zero, suc, ◌+◌, ◌-◌, ◌*◌, ◌/◌, ◌%◌, ◌^◌, ◌<◌, ◌≡◌, refl, Bool, ◌&&◌, arith, ltb, leb,
  if◌then◌else◌, ℤ, pos, negsuc,
}

-- A buffer of bytes, by index. How many of them are real is the business of each use.
abbrev pub Buffer : Type 0
Buffer = ℕ → ℕ

-- `calloc`
abbrev pub zeros : Buffer
zeros _ = 0

abbrev pub within : ℕ → ℕ → ℕ → Bool
within off n i = leb off i && ltb i (off + n)

-- `memcpy(&b[off], src, n)`
unfoldable pub overwrite : Buffer → ℕ → ℕ → Buffer → Buffer
overwrite b off n src i = if within off n i then src (i - off) else b i

-- `&b[off]`
abbrev pub shift : Buffer → ℕ → Buffer
shift b off i = b (off + i)

-- The residue of a signed 64-bit integer, and the integer of a residue.
abbrev pub to_u64 : ℤ → ℕ
to_u64 (pos n) = n % 2 ^ 64
to_u64 (negsuc n) = 2 ^ 64 - 1 - n % 2 ^ 64

abbrev pub of_u64 : ℕ → ℤ
of_u64 u = if ltb u (2 ^ 63) then pos u else negsuc (2 ^ 64 - 1 - u)

-- Signed 64-bit arithmetic wraps around.
abbrev pub wrap64 : ℤ → ℤ
wrap64 v = of_u64 (to_u64 v)

abbrev pub FitsI64 : ℤ → Type 0
FitsI64 (pos n) = n < 2 ^ 63
FitsI64 (negsuc n) = n < 2 ^ 63

digit : ℕ → ℕ → ℕ
digit u zero = u % 256
digit u (suc i) = digit (u / 256) i

word : ℕ → Buffer → ℕ
word zero b = 0
word (suc n) b = b 0 + 256 * word n (λ i. b (suc i))

unfoldable pub load64 : Buffer → ℕ → ℤ
unfolding word
load64 b a = of_u64 (word 8 (shift b a))

unfoldable pub store64 : Buffer → ℕ → ℤ → Buffer
unfolding digit overwrite
store64 b a v = overwrite b a 8 (digit (to_u64 v))

pub wrap64_fits : (v : ℤ) → FitsI64 v → wrap64 v ≡ v
wrap64_fits (pos n) h = ground arith
wrap64_fits (negsuc n) h = ground arith

to_u64-lt : (v : ℤ) → to_u64 v < 2 ^ 64
to_u64-lt (pos n) = omega arith
to_u64-lt (negsuc n) = omega arith

word_ext : (n : ℕ) (f g : Buffer) → ((i : ℕ) → i < n → f i ≡ g i) → word n f ≡ word n g
unfolding word
word_ext zero f g h = refl
word_ext (suc n) f g h =
    let rest = word_ext n (λ i. f (suc i)) (λ i. g (suc i)) (λ i p. h (suc i) (omega arith)) in
    omega (arith, h 0 (omega arith), rest)

word-digit : (n u : ℕ) → u < 256 ^ n → word n (digit u) ≡ u
unfolding word digit
word-digit zero u h = omega arith
word-digit (suc n) u h =
    let below : u < 256 ^ n * 256 = rw pow-suc at h in
    omega (arith, word-digit n (u / 256) (omega arith))
