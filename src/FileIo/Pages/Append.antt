-- ===== src/FileIo/Pages/Append.antt =====
-- A page behind the last free one: the links, and the pages in the list.
use nickdb.Base.{
  ℕ, ◌*◌, ◌≤◌, ◌<◌, ◌≡◌, refl, ◌∙◌, ◌≢◌, true, false, List, [], ◌∷◌, ◌++◌, sym, arith, pos, negsuc,
}
use nickdb.Word.{Buffer, load64}
use nickdb.Constants.{page_size}
use nickdb.FileIo.Pages.View.{last, has, Chain, Free}
use nickdb.FileIo.Pages.Metadata.{last_mem}

-- The links once the last free page leads to page `p`, which ends the list.
pub append-Chain :
    (b b' : Buffer) (n p x : ℕ) (free : List ℕ)
    → Chain b (x ∷ free)
    → Free n (x ∷ free)
    → load64 b' (p * page_size) ≡ negsuc 0
    → ((z : ℕ)
        → last (x ∷ free) ≡ pos (z * page_size)
        → load64 b' (z * page_size) ≡ pos (p * page_size))
    → ((q : ℕ)
        → has q (x ∷ free) ≡ true
        → last (x ∷ free) ≢ pos (q * page_size)
        → load64 b' (q * page_size) ≡ load64 b (q * page_size))
    → Chain b' ((x ∷ free) ++ p ∷ [])
append-Chain b b' n p x [] c d ends link same = (link x refl, (ends, tt))
append-Chain b b' n p x (y ∷ free) c d ends link same =
    let (z, at, mem) = last_mem y free in
    let ne : last (y ∷ free) ≢ pos (x * page_size) = λ e. ground (arith, sym at ∙ e) in
    (
      same x (ground arith) ne ∙ c.0,
      append-Chain b b' n p y free c.1 d.3 ends link (λ q m. same q (ground arith)),
    )

has-append : (x p : ℕ) (free : List ℕ) → x ≢ p → has x free ≡ false → has x (free ++ p ∷ []) ≡ false
has-append x p [] ne out = ground arith
has-append x p (q ∷ free) ne out = ground (arith, has-append x p free ne)

pub append-Free :
    (n p : ℕ) (free : List ℕ)
    → Free n free
    → 1 ≤ p
    → p < n
    → has p free ≡ false
    → Free n (free ++ p ∷ [])
append-Free n p [] d h lt out = (h, lt, refl, tt)
append-Free n p (x ∷ free) d h lt out =
    (d.0, d.1, has-append x p free (ground arith) d.2, append-Free n p free d.3 h lt (ground arith))

pub last-append : (p : ℕ) (free : List ℕ) → last (free ++ p ∷ []) ≡ pos (p * page_size)
last-append p [] = refl
last-append p (x ∷ []) = refl
last-append p (x ∷ y ∷ free) = last-append p (y ∷ free)
