-- ===== src/FileIo/Pages/Written.antt =====
-- Which pages a sequence of page writes changes.
use nickdb.Base.{ℕ, ◌+◌, ◌-◌, ◌*◌, ◌≤◌, ◌<◌, ◌≡◌, ◌∙◌, ap, ◌≢◌, arith}
use nickdb.Word.{Buffer, overwrite}
use nickdb.Constants.{page_size}
use nickdb.Posix.{File, write_at}
use nickdb.FileIo.Pages.View.{page}

-- Page `p` of the new file holds `content`; every other page but the metadata page is as it was.
pub record Written (f f' : File) (p : ℕ) (content : Buffer) : Type 0 where
  pub own : (i : ℕ) → i < page_size → page f'.bytes p i ≡ content i
  pub others :
      (q : ℕ) → 1 ≤ q → q ≢ p → (i : ℕ) → i < page_size → page f'.bytes q i ≡ page f.bytes q i

-- The bytes of a page that is written, and of the others.
pub page-write_self :
    (f : File) (p : ℕ) (content : Buffer) (i : ℕ)
    → i < page_size
    → page (write_at f (p * page_size) page_size content).bytes p i ≡ content i
unfolding overwrite
page-write_self f p content i h =
    let at : p * page_size + i - p * page_size ≡ i = omega arith in ground (arith, ap content at)

pub page-write_ne :
    (f : File) (p : ℕ) (content : Buffer) (q i : ℕ)
    → q ≢ p
    → i < page_size
    → page (write_at f (p * page_size) page_size content).bytes q i ≡ page f.bytes q i
unfolding overwrite
page-write_ne f p content q i ne h = ground arith

pub write-Written :
    (f : File) (p : ℕ) (content : Buffer)
    → Written f (write_at f (p * page_size) page_size content) p content
write-Written f p content = record {
  own = page-write_self f p content;
  others = λ q h ne i. page-write_ne f p content q i ne;
}

module _ (f f1 : File) (p : ℕ) (content : Buffer) (w : Written f f1 p content) where
  -- The page is written once more.
  pub rewrite-Written :
      (again : Buffer) → Written f (write_at f1 (p * page_size) page_size again) p again
  rewrite-Written again = record {
    own = page-write_self f1 p again;
    others = λ q h ne i b. page-write_ne f1 p again q i ne b ∙ w.others q h ne i b;
  }

  -- The metadata page is written behind it.
  pub metadata-Written :
      1 ≤ p → (metadata : Buffer) → Written f (write_at f1 0 page_size metadata) p content
  metadata-Written h metadata = record {
    own = λ i b. page-write_ne f1 0 metadata p i (omega arith) b ∙ w.own i b;
    others = λ q hq ne i b. page-write_ne f1 0 metadata q i (omega arith) b ∙ w.others q hq ne i b;
  }
