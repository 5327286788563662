-- ===== src/FileIo/Pages/Attempt/Access.antt =====
-- What STATUS_OK of the page operations is worth on a disk that may have I/O errors.
use nickdb.Base.{
  ℕ, suc, ◌*◌, ◌^◌, ◌≤◌, ◌<◌, ◌≡◌, ◌∙◌, false, not, some, arith, ◌==◌, ==_ne, ℤ, pos, ◌==ℤ◌, ==ℤ_eq,
  Bool-cases, inl, inr,
}
use nickdb.Word.{Buffer}
use nickdb.Constants.{page_size, Status, status_ok}
use nickdb.Posix.{Posix, File, Documented}
use nickdb.Proc.{Returns}
use nickdb.FileIo.Pages.{alloc_page, free_page, get_page, put_page}
use nickdb.FileIo.Pages.Access.{filled_byte}
use nickdb.FileIo.Pages.Attempt.{holds_of_not, attempt_seek, attempt_write}
use nickdb.FileIo.Pages.Attempt.Alloc.{Allocated, alloc_page-Allocated}
use nickdb.FileIo.Pages.Attempt.Free.{Freed, free_page-Freed}
use nickdb.FileIo.Pages.Pool.{Pool, IsLive}
use nickdb.FileIo.Pages.Refine.{IsPool}
use nickdb.FileIo.Pages.Run.{index_to_offset-pos}
use nickdb.FileIo.Pages.View.{page}
use nickdb.FileIo.Pages.Written.{Written, write-Written}

module _ {W : Type 0} ⦃os : Posix W⦄ (doc : Documented os) (fd : ℤ) where
  -- The same for put_page and get_page.
  abbrev pub Put : Buffer → File → ℕ → Status → W → Type 0
  Put src f p code w =
      code ≡ status_ok → (f' : File) × (doc.file fd w ≡ some f') × Written f f' p src

  abbrev pub Got : File → ℕ → Status × Buffer → W → Type 0
  Got f p (code, d) w =
      code ≡ status_ok
      → (doc.file fd w ≡ some f) × ((k : ℕ) → k < page_size → d k ≡ page f.bytes p k)

  module _ (w : W) (f : File) (p : ℕ) (opened : doc.file fd w ≡ some f) (h : 1 ≤ p)
      (few : p < 2 ^ 51) where
    put_page-Put :
        (src : Buffer)
        → Returns (Put src f p) (put_page src (some (record { storefd = fd })) (pos p) w)
    unfolding put_page
    put_page-Put src =
        let P = Put src f p in
        let real : (p * page_size == 0) ≡ false = ==_ne (p * page_size) 0 (omega arith) in
        rw (index_to_offset-pos p few, real)
          (attempt_seek doc P fd _ _ w f _ opened (λ w1 e. cc)
            λ w1 o1.
              attempt_write doc P fd _ _ _ _ w1 f _ o1 (λ w2 e. cc)
                λ w2 o2 e. (_, o2, write-Written f p src))

    get_page-Got :
        (dest : Buffer)
        → Returns (Got f p) (get_page dest (some (record { storefd = fd })) (pos p) w)
    unfolding get_page
    get_page-Got dest =
        let P = Got f p in
        let off = p * page_size in
        let real : (off == 0) ≡ false = ==_ne off 0 (omega arith) in
        rw (index_to_offset-pos p few, real)
          (attempt_seek doc P fd _ _ w f _ opened (λ w1 e. cc)
            λ w1 o1.
              let call = os.pread fd dest page_size (pos off) w1 in
              elim (Bool-cases (not (call.0 ==ℤ pos page_size))) [
                | inl short ↦ rw short (λ e. cc)
                | inr full ↦
                    let all =
                      ==ℤ_eq call.0 (pos page_size)
                        (holds_of_not (call.0 ==ℤ pos page_size) full) in
                    rw (full, doc.pread_full fd dest page_size off w1 f o1 all)
                      (λ e. (
                        doc.pread-file fd fd dest page_size (pos off) w1 ∙ o1,
                        filled_byte dest (page f.bytes p),
                      ))
              ])

  -- On a documented disk that may have I/O errors, the page operations end without undefined
  -- behaviour, and STATUS_OK is worth what it is worth on a disk without: of alloc_page with data on
  -- a store with room for one more page below 2^51, that the page is the one that the pool hands out,
  -- the file stands for the pool without it, the page holds the data and every other page but the
  -- metadata page is as it was; of free_page of a page in use, that the file stands for the pool with
  -- the page behind the last free one and every other page in use is as it was; of put_page, that the
  -- page has the bytes put and every other page but the metadata page is as it was; of get_page, that
  -- the buffer has the bytes of the page and the file is as it was.
  pub page_calls_ok :
      (content dest : Buffer) (w : W) (f : File) (s : Pool) (p : ℕ)
      → doc.file fd w ≡ some f
      → IsPool f s
      → suc s.pages < 2 ^ 51
      → IsLive s p
      → Returns
          (Allocated doc fd content f s)
          (alloc_page (some content) (some (record { storefd = fd })) w)
        × Returns
            (Freed doc fd f s.pages s.free p)
            (free_page (some (record { storefd = fd })) (pos p) w)
        × Returns (Put content f p) (put_page content (some (record { storefd = fd })) (pos p) w)
        × Returns (Got f p) (get_page dest (some (record { storefd = fd })) (pos p) w)
  page_calls_ok content dest w f s p opened st room (h, lt, out) =
      let few : p < 2 ^ 51 = omega (arith, lt, room) in
      (
        alloc_page-Allocated doc fd content w f s.pages s.free opened st room,
        free_page-Freed doc fd w f s.pages p s.free opened st h lt out,
        put_page-Put w f p opened h few content,
        get_page-Got w f p opened h few dest,
      )
