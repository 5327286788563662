-- ===== src/FileIo/Pages/Pool.antt =====
-- What the page operations promise: a pool of page numbers, in which the page that has been free for
-- longest is handed out first, and a client's sequence of requests against it.
use nickdb.Base.{ℕ, suc, ◌≤◌, ◌<◌, ◌^◌, ◌≡◌, false, List, [], ◌∷◌, ◌++◌}
use nickdb.Word.{Buffer}
use nickdb.FileIo.Pages.View.{has}

pub record Pool : Type 0 where
  pub pages : ℕ
  pub free : List ℕ

abbrev pool : ℕ → List ℕ → Pool
pool n free = record { pages = n; free = free }

-- The page that is handed out, and the pool without it.
abbrev take_from : ℕ → List ℕ → ℕ × Pool
take_from n [] = (n, pool (suc n) [])
take_from n (p ∷ free) = (p, pool n free)

unfoldable pub take : Pool → ℕ × Pool
take s = take_from s.pages s.free

unfoldable pub give : ℕ → Pool → Pool
give p s = pool s.pages (s.free ++ p ∷ [])

-- In use: a page of the store that is neither the metadata page nor free.
abbrev pub IsLive : Pool → ℕ → Type 0
IsLive s p = (1 ≤ p) × (p < s.pages) × (has p s.free ≡ false)

pub data Request : Type 0 where
  allocate : Buffer → Request
  release : ℕ → Request

abbrev pub step : Request → Pool → List ℕ × Pool
step (allocate content) s = ((take s).0 ∷ [], (take s).1)
step (release p) s = ([], give p s)

-- The page numbers that the client is given.
unfoldable pub answers : List Request → Pool → List ℕ
answers [] s = []
answers (r ∷ rs) s = (step r s).0 ++ answers rs (step r s).1

-- The pool at the end.
unfoldable pub after : List Request → Pool → Pool
after [] s = s
after (r ∷ rs) s = after rs (step r s).1

-- The client releases only what is in use, and the store stays below 2^51 pages.
abbrev pub Allowed : Request → Pool → Type 0
Allowed (allocate content) s = suc s.pages < 2 ^ 51
Allowed (release p) s = IsLive s p

unfoldable pub AllAllowed : List Request → Pool → Type 0
AllAllowed [] s = Unit
AllAllowed (r ∷ rs) s = Allowed r s × AllAllowed rs (step r s).1
