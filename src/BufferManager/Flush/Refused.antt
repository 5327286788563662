-- ===== src/BufferManager/Flush/Refused.antt =====
-- buff_flush_all where writes may be refused: which frames are clean after it.
use nickdb.Base.{
  ℕ, zero, suc, ◌+◌, ◌*◌, ◌<◌, ◌≡◌, refl, ◌≢◌, sym, ap, subst, some, List, [], ◌∷◌, arith, false,
  true, length, ==_ne, ◌==◌, inl, inr, ℤ,
}
use nickdb.Constants.{page_size, fs_unpinned, fs_unpinned_dirty, Status, status_ok}
use nickdb.GLib.{HashTable}
use nickdb.Posix.{Posix, File, Documented, WholeWrites, write_at}
use nickdb.Proc.{Returns}
use nickdb.Proc.Stays.{after_call, last_call}
use nickdb.FileIo.Pages.{put_page}
use nickdb.FileIo.Pages.Attempt.Whole.{AllOrNothing, put_page-AllOrNothing}
use nickdb.FileIo.Pages.Written.{page-write_self, page-write_ne}
use nickdb.BufferManager.{Manager, set_state, is_ok}
use nickdb.BufferManager.Calls.{flush_loop, buff_flush_all}
use nickdb.BufferManager.Flush.{Holds, Holds-same, set_state-index, set_state-link}
use nickdb.BufferManager.Flush.Attempt.{
  state_of, Attempted, Attempted-step, Holds-fresh, set_state-same,
}
use nickdb.BufferManager.Links.{Links, Links-same, Listed-Links, Links-length_bound}
use nickdb.BufferManager.Lists.{WellFormed}

is_ok-false : (s : Status) → s ≢ status_ok → is_ok s ≡ false
is_ok-false status_ok h = absurd (h refl)
is_ok-false _ h = refl

module _ {W T : Type 0} ⦃os : Posix W⦄ ⦃g : HashTable T⦄ (doc : Documented os)
    (whole : WholeWrites os doc) (fd : ℤ) where
  abbrev pub Tried : Manager T → List ℕ → List ℕ → File → Manager T → W → Type 0
  Tried man ys ps f man' w = (f' : File) × (doc.file fd w ≡ some f') × Attempted man ys ps f f' man'

  flush_loop-Tried :
      (k : ℕ) (man : Manager T) (meta : ℕ) (ys ps : List ℕ) (w : W) (f : File)
      → man.store ≡ some (record { storefd = fd })
      → doc.file fd w ≡ some f
      → Links man meta ys
      → length ys < k
      → Holds (λ l. (man.metaframes l).index) ys ps
      → Returns (Tried man ys ps f) (flush_loop k man meta w)
  unfolding flush_loop
  flush_loop-Tried zero man meta ys ps w f store opened h fuel holds = absurd (omega (arith, fuel))
  flush_loop-Tried (suc k) man meta [] [] w f store opened h fuel holds =
      let null : (meta == 0) ≡ true = ground arith in
      rw null (
        f,
        opened,
        record {
          each = tt;
          others = λ q out j b. refl;
          states = λ l out. refl;
          indices = λ l. refl;
          links = λ l. refl;
          content = refl;
          freelist = refl;
          writeback = refl;
        },
      )
  flush_loop-Tried (suc k) man meta [] (p ∷ ps) w f store opened h fuel holds = elim holds [ ]
  flush_loop-Tried (suc k) man meta (i ∷ ys) [] w f store opened h fuel holds = elim holds [ ]
  flush_loop-Tried (suc k) man meta (i ∷ ys) (p ∷ ps) w f store opened (real, at, rest) fuel
        (index, some_page, few, new, holds) =
      let P = Tried man (i ∷ ys) (p ∷ ps) f in
      let fresh = Holds-fresh (λ l. (man.metaframes l).index) i p ys ps index new holds in
      let not_null : (meta == 0) ≡ false = ==_ne meta 0 real in
      rw (not_null, at)
        (after_call P (AllOrNothing doc whole fd (man.buffer i) f p)
          (put_page (man.buffer i) man.store (man.metaframes i).index w) _
          (rw (store, index)
            (put_page-AllOrNothing doc whole fd (man.buffer i) w f p opened some_page few))
          λ put w1 result. elim result [
            | inl (ok, o1) ↦
                let cleaned = set_state man i fs_unpinned in
                let good : is_ok put ≡ true = ap is_ok ok in
                rw good (
                  last_call P
                    (Tried cleaned ys ps (write_at f (p * page_size) page_size (man.buffer i))) _
                    (flush_loop-Tried k cleaned (cleaned.metaframes i).next_free_or_dirty ys ps w1 _
                      store o1
                      (subst (λ q. Links cleaned q ys) (sym (set_state-link man i fs_unpinned i))
                        (Links-same man cleaned (man.metaframes i).next_free_or_dirty ys refl refl
                          (set_state-link man i fs_unpinned) rest))
                      (omega (arith, fuel))
                      (Holds-same (λ l. (man.metaframes l).index)
                        (λ l. (cleaned.metaframes l).index) ys ps
                        (set_state-index man i fs_unpinned) holds))
                    λ m w2 (f', o2, h). (
                      f',
                      o2,
                      Attempted-step man i p fs_unpinned ys ps f _ f' m fresh new
                          (λ q ne k lt. page-write_ne f p (man.buffer i) q k ne lt)
                          (inl (refl, page-write_self f p (man.buffer i))) h,
                    ))
            | inr (bad, o1) ↦
                let failed : is_ok put ≡ false = is_ok-false put bad in
                rw failed (
                  last_call P (Tried man ys ps f) _
                    (flush_loop-Tried k man (man.metaframes i).next_free_or_dirty ys ps w1 f store
                      o1 rest (omega (arith, fuel)) holds)
                    λ m w2 (f', o2, h). (
                      f',
                      o2,
                      Attempted-step man i p (state_of man i) ys ps f f f' m fresh new
                          (λ q ne k lt. refl) (inr (refl, λ k lt. refl))
                          (subst (λ man1. Attempted man1 ys ps f f' m) (sym (set_state-same man i))
                            h),
                    ))
          ])

  -- On a disk that may have I/O errors, on which each write transfers all its bytes or changes nothing,
  -- buff_flush_all of a well-formed manager whose frames to write back hold distinct pages, none of
  -- them the metadata page and all below 2^51, terminates and returns STATUS_OK, whatever is refused.
  -- Each of these frames is then FS_UNPINNED and its page has its bytes on disk, or both its state
  -- and its page on disk are as they were. Every other page, all other states, the page numbers, the
  -- links, the bytes of the frames and the heads of both lists are as they were.
  pub buff_flush_all-Attempted :
      (man : Manager T) (free dirty ps : List ℕ) (w : W) (f : File)
      → man.store ≡ some (record { storefd = fd })
      → doc.file fd w ≡ some f
      → WellFormed man free dirty
      → Holds (λ l. (man.metaframes l).index) dirty ps
      → Returns
          (λ r w'.
            (man' : Manager T) × (f' : File) × (r ≡ (status_ok, some man'))
            × (doc.file fd w' ≡ some f')
            × Attempted man dirty ps f f' man')
          (buff_flush_all (some man) w)
  unfolding buff_flush_all
  buff_flush_all-Attempted man free dirty ps w f store opened wf holds =
      let links = Listed-Links man fs_unpinned_dirty man.writeback dirty wf.dirty_listed in
      let fuel : length dirty < man.frames + 1 =
        omega (arith, Links-length_bound man man.writeback dirty links) in
      after_call _ (Tried man dirty ps f) (flush_loop (man.frames + 1) man man.writeback w) _
        (flush_loop-Tried (man.frames + 1) man man.writeback dirty ps w f store opened links fuel
          holds)
        λ man' w' (f', o', h). (man', f', refl, o', h)
