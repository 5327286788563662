-- ===== src/BTree/Memcmp.antt =====
-- A memcmp that meets what the standard says of it.
use nickdb.Base.{
  ℕ, zero, suc, ◌≡◌, refl, true, ◌==◌, ltb, if◌then◌else◌, Bool-cases, inl, inr, arith, ℤ, pos,
  negsuc,
}
use nickdb.Word.{Buffer}
use nickdb.BTree.Separators.Scan.{SameBytes, MemcmpLaw}

abbrev tail : Buffer → Buffer
tail a k = a (suc k)

-- The first bytes that differ decide.
pub compare_bytes : Buffer → Buffer → ℕ → ℤ
compare_bytes a b zero = pos 0
compare_bytes a b (suc n) =
    if a 0 == b 0
    then compare_bytes (tail a) (tail b) n
    else if ltb (a 0) (b 0)
    then negsuc 0
    else pos 1

compare_bytes-same : (a b : Buffer) (n : ℕ) → compare_bytes a b n ≡ pos 0 → SameBytes n a b
unfolding compare_bytes
compare_bytes-same a b zero h k lt = elim lt [ ]
compare_bytes-same a b (suc n) h zero lt = ground arith
compare_bytes-same a b (suc n) h (suc k) lt = elim (Bool-cases (a 0 == b 0)) [
  | inl e ↦ compare_bytes-same (tail a) (tail b) n (rw e at h) k (omega (arith, lt))
  | inr e ↦ ground arith
]

compare_bytes-zero : (a b : Buffer) (n : ℕ) → SameBytes n a b → compare_bytes a b n ≡ pos 0
unfolding compare_bytes
compare_bytes-zero a b zero h = refl
compare_bytes-zero a b (suc n) h =
    let first : (a 0 == b 0) ≡ true = ground (arith, h 0 (omega arith)) in
    rw first (compare_bytes-zero (tail a) (tail b) n (λ k lt. h (suc k) (omega (arith, lt))))

pub compare_bytes-MemcmpLaw : MemcmpLaw compare_bytes
compare_bytes-MemcmpLaw = record { same = compare_bytes-same; zero_of_same = compare_bytes-zero }
