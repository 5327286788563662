-- ===== src/FileIo/Pages/Metadata.antt =====
-- The metadata page: its fields after an update, and the view once it is written.
use Prim.Native.Nat.add
use nickdb.Base.{ℕ, ◌+◌, ◌*◌, ◌^◌, ◌≤◌, ◌<◌, ◌≡◌, refl, ◌∙◌, ap, true, List, [], ◌∷◌, arith, ℤ, pos}
use nickdb.Word.{Buffer, zeros, overwrite, shift, load64, store64, FitsI64}
use nickdb.Word.Fields.{load64-overwrite_inside, load64-store64, load64-store64_ne, load64-copy}
use nickdb.Constants.{page_size}
use nickdb.Posix.{File, write_at}
use nickdb.FileIo.{size_field, head_field, tail_field}
use nickdb.FileIo.Pages.View.{first, last, has, Chain, Free, IsStore, Chain-write, has-zero}

-- The metadata page is written last, over a file whose free pages are already linked.
pub write_metadata-IsStore :
    (f : File) (metadata : Buffer) (n : ℕ) (free : List ℕ)
    → load64 metadata size_field ≡ pos n
    → load64 metadata head_field ≡ first free
    → load64 metadata tail_field ≡ last free
    → Chain f.bytes free
    → Free n free
    → 1 ≤ n
    → n < 2 ^ 51
    → n * page_size ≤ f.size
    → IsStore (write_at f 0 page_size metadata) n free
write_metadata-IsStore f metadata n free s h t chain distinct some_page few whole = record {
  size = load64-overwrite_inside f.bytes 0 page_size metadata size_field (omega arith) ∙ s;
  head = load64-overwrite_inside f.bytes 0 page_size metadata head_field (omega arith) ∙ h;
  tail = load64-overwrite_inside f.bytes 0 page_size metadata tail_field (omega arith) ∙ t;
  chain = Chain-write f.bytes 0 metadata free (has-zero n free distinct) chain;
  distinct = distinct;
  some_page = some_page;
  few = few;
  whole = ground arith;
}

-- The ends of the list are offsets that fit 64 bits.
pub first-FitsI64 : (n : ℕ) (free : List ℕ) → Free n free → n < 2 ^ 51 → FitsI64 (first free)
first-FitsI64 n [] h few = omega arith
first-FitsI64 n (p ∷ free) h few = omega arith

pub last_mem :
    (p : ℕ) (free : List ℕ)
    → (z : ℕ) × (last (p ∷ free) ≡ pos (z * page_size)) × (has z (p ∷ free) ≡ true)
last_mem p [] = (p, refl, ground arith)
last_mem p (q ∷ free) = let (z, at, mem) = last_mem q free in (z, at, ground arith)

-- The metadata page after its head, and perhaps its tail, is set.
pub store_head-fields :
    (metadata : Buffer) (h : ℤ)
    → FitsI64 h
    → (load64 (store64 metadata head_field h) size_field ≡ load64 metadata size_field)
      × (load64 (store64 metadata head_field h) head_field ≡ h)
      × (load64 (store64 metadata head_field h) tail_field ≡ load64 metadata tail_field)
store_head-fields metadata h fits = (
  load64-store64_ne metadata head_field h size_field (omega arith),
  load64-store64 metadata head_field h fits,
  load64-store64_ne metadata head_field h tail_field (omega arith),
)

pub store_tail-fields :
    (metadata : Buffer) (t : ℤ)
    → FitsI64 t
    → (load64 (store64 metadata tail_field t) size_field ≡ load64 metadata size_field)
      × (load64 (store64 metadata tail_field t) head_field ≡ load64 metadata head_field)
      × (load64 (store64 metadata tail_field t) tail_field ≡ t)
store_tail-fields metadata t fits = (
  load64-store64_ne metadata tail_field t size_field (omega arith),
  load64-store64_ne metadata tail_field t head_field (omega arith),
  load64-store64 metadata tail_field t fits,
)

pub store_ends-fields :
    (metadata : Buffer) (h t : ℤ)
    → FitsI64 h
    → FitsI64 t
    → let m = store64 (store64 metadata head_field h) tail_field t in
      (load64 m size_field ≡ load64 metadata size_field)
      × (load64 m head_field ≡ h)
      × (load64 m tail_field ≡ t)
store_ends-fields metadata h t fits_h fits_t =
    let (s, h', t') = store_head-fields metadata h fits_h in
    let (s2, h2, t2) = store_tail-fields (store64 metadata head_field h) t fits_t in
    (s2 ∙ s, h2 ∙ h', t2)

-- A field of the metadata page as it is read into memory.
pub metadata_field :
    (bytes : Buffer) (a : ℕ)
    → a + 8 ≤ page_size
    → load64 (overwrite zeros 0 page_size (shift bytes 0)) a ≡ load64 bytes a
metadata_field bytes a h = load64-copy zeros page_size bytes 0 a h ∙ ap (load64 bytes) (add.zero a)
