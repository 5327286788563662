-- ===== src/FileIo/Pages/View.antt =====
-- What a file stands for: a number of pages, and the list of the free ones, in the order in which
-- they are linked.
use nickdb.Base.{
  ℕ, ◌+◌, ◌*◌, ◌^◌, ◌≤◌, ◌<◌, ◌≡◌, refl, ◌≢◌, ap, inl, inr, false, List, [], ◌∷◌, arith, ltb,
  Bool-cases, ℤ, pos, negsuc, ◌∙◌, true,
}
pub use nickdb.Base.{has}
use nickdb.Word.{Buffer, overwrite, shift, load64}
use nickdb.Word.Fields.{load64-overwrite_outside}
use nickdb.Constants.{page_size}
use nickdb.Posix.{File, write_at}
use nickdb.FileIo.{size_field, head_field, tail_field}

-- The bytes of a page.
abbrev pub page : Buffer → ℕ → Buffer
page bytes p = shift bytes (p * page_size)

-- The offsets of the first and of the last free page, -1 if there is none.
abbrev pub first : List ℕ → ℤ
first [] = negsuc 0
first (p ∷ free) = pos (p * page_size)

abbrev pub last : List ℕ → ℤ
last [] = negsuc 0
last (p ∷ []) = pos (p * page_size)
last (p ∷ q ∷ free) = last (q ∷ free)

-- Each free page begins with the offset of the next one.
abbrev pub Chain : Buffer → List ℕ → Type 0
Chain bytes [] = Unit
Chain bytes (p ∷ free) = (load64 bytes (p * page_size) ≡ first free) × Chain bytes free

-- Distinct pages of the first `n`, the metadata page apart.
abbrev pub Free : ℕ → List ℕ → Type 0
Free n [] = Unit
Free n (p ∷ free) = (1 ≤ p) × (p < n) × (has p free ≡ false) × Free n free

-- A file that holds a store of `n` pages with these free ones.
pub record IsStore (f : File) (n : ℕ) (free : List ℕ) : Type 0 where
  pub size : load64 f.bytes size_field ≡ pos n
  pub head : load64 f.bytes head_field ≡ first free
  pub tail : load64 f.bytes tail_field ≡ last free
  pub chain : Chain f.bytes free
  pub distinct : Free n free
  pub some_page : 1 ≤ n
  pub few : n < 2 ^ 51
  pub whole : n * page_size ≤ f.size

-- A field of a page after another page has been written.
pub load64-page_other :
    (bytes : Buffer) (q : ℕ) (content : Buffer) (p a : ℕ)
    → p ≢ q
    → a + 8 ≤ page_size
    → load64 (overwrite bytes (q * page_size) page_size content) (p * page_size + a)
      ≡ load64 bytes (p * page_size + a)
load64-page_other bytes q content p a ne fits =
    load64-overwrite_outside bytes (q * page_size) page_size content (p * page_size + a)
      (elim (Bool-cases (ltb p q)) [
        | inl below ↦ inl (ground arith)
        | inr above ↦ inr (ground arith)
      ])

pub load64-page_first :
    (bytes : Buffer) (q : ℕ) (content : Buffer) (p : ℕ)
    → p ≢ q
    → load64 (overwrite bytes (q * page_size) page_size content) (p * page_size)
      ≡ load64 bytes (p * page_size)
load64-page_first bytes q content p ne =
    load64-overwrite_outside bytes (q * page_size) page_size content (p * page_size)
      (elim (Bool-cases (ltb p q)) [
        | inl below ↦ inl (ground arith)
        | inr above ↦ inr (ground arith)
      ])

-- A write to a page that is not in the list leaves the links alone.
pub Chain-write :
    (bytes : Buffer) (q : ℕ) (content : Buffer) (free : List ℕ)
    → has q free ≡ false
    → Chain bytes free
    → Chain (overwrite bytes (q * page_size) page_size content) free
Chain-write bytes q content [] out c = tt
Chain-write bytes q content (p ∷ free) out (link, rest) = (
  load64-page_first bytes q content p (ground arith) ∙ link,
  Chain-write bytes q content free (ground arith) rest,
)

-- The metadata page is in no free list.
pub has-zero : (n : ℕ) (free : List ℕ) → Free n free → has 0 free ≡ false
has-zero n [] h = refl
has-zero n (p ∷ free) h = ground (arith, has-zero n free h.3)

pub Free-bounds : (n z : ℕ) (free : List ℕ) → Free n free → has z free ≡ true → (1 ≤ z) × (z < n)
Free-bounds n z [] d mem = cc
Free-bounds n z (p ∷ free) d mem = ground (arith, Free-bounds n z free d.3)

pub has-ne : (p q : ℕ) (free : List ℕ) → has p free ≡ false → has q free ≡ true → p ≢ q
has-ne p q free out mem e = cc (ap (λ r. has r free) e)

-- Pages at one offset are one page.
pub offset-injective : (p q : ℕ) → ◌≡◌ {A = ℤ} (pos (p * page_size)) (pos (q * page_size)) → p ≡ q
offset-injective p q e = ground arith

-- A file never gets shorter.
pub size-write_at :
    (f : File) (off n : ℕ) (src : Buffer) (k : ℕ) → k ≤ f.size → k ≤ (write_at f off n src).size
size-write_at f off n src k h = ground arith
