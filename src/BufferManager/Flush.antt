-- ===== src/BufferManager/Flush.antt =====
-- buff_flush_all on a disk without I/O errors.
pub mod Attempt
pub mod Refused
use nickdb.Base.{
  ℕ, zero, suc, ◌+◌, ◌*◌, ◌^◌, ◌<◌, ◌≤◌, ◌≡◌, refl, ◌∙◌, ◌≢◌, sym, ap, subst, some, List, [], ◌∷◌,
  arith, false, true, has, length, ==_ne, ◌==◌, Bool-cases, inl, inr, if◌then◌else◌, ℤ, pos,
}
use nickdb.Word.{Buffer}
use nickdb.Constants.{page_size, FrameState, fs_unpinned, fs_unpinned_dirty, status_ok}
use nickdb.GLib.{HashTable}
use nickdb.Posix.{Posix, File, Documented, Reliable, write_at}
use nickdb.Proc.{ret}
use nickdb.FileIo.Pages.{put_page}
use nickdb.FileIo.Pages.Access.{put_page-page}
use nickdb.FileIo.Pages.View.{page}
use nickdb.FileIo.Pages.Written.{page-write_self, page-write_ne}
use nickdb.BufferManager.{Manager, set_state, slot}
use nickdb.BufferManager.Calls.{flush_loop, buff_flush_all}
use nickdb.BufferManager.Links.{Links, Links-same, Listed-Links, Links-length_bound}
use nickdb.BufferManager.Lists.{WellFormed}

-- The frames `ys` hold the pages `ps`, which are distinct and no metadata page.
abbrev pub Holds : (ℕ → ℤ) → List ℕ → List ℕ → Type 0
Holds index [] [] = Unit
Holds index [] (p ∷ ps) = ⊥
Holds index (i ∷ ys) [] = ⊥
Holds index (i ∷ ys) (p ∷ ps) =
    (index i ≡ pos p) × (1 ≤ p) × (p < 2 ^ 51) × (has p ps ≡ false) × Holds index ys ps

-- On disk the pages `ps` have the bytes of the frames `ys`.
abbrev pub Stored : (ℕ → Buffer) → Buffer → List ℕ → List ℕ → Type 0
Stored buffer bytes [] ps = Unit
Stored buffer bytes (i ∷ ys) [] = Unit
Stored buffer bytes (i ∷ ys) (p ∷ ps) =
    ((k : ℕ) → k < page_size → page bytes p k ≡ buffer i k) × Stored buffer bytes ys ps

-- The file and the manager after the frames `ys` with the pages `ps` have been flushed.
pub record Flushed {T : Type 0} (man : Manager T) (ys ps : List ℕ) (f f' : File) (man' : Manager T)
    : Type 0 where
  pub size : f.size ≤ f'.size
  pub stored : Stored man.buffer f'.bytes ys ps
  pub others :
      (q : ℕ) → has q ps ≡ false → (k : ℕ) → k < page_size → page f'.bytes q k ≡ page f.bytes q k
  pub states :
      (l : ℕ)
      → (man'.metaframes l).state ≡ (if has l ys then fs_unpinned else (man.metaframes l).state)
  pub indices : (l : ℕ) → (man'.metaframes l).index ≡ (man.metaframes l).index
  pub links :
      (l : ℕ) → (man'.metaframes l).next_free_or_dirty ≡ (man.metaframes l).next_free_or_dirty
  pub content : man'.buffer ≡ man.buffer
  pub freelist : man'.freelist ≡ man.freelist
  pub writeback : man'.writeback ≡ man.writeback

-- What `set_state` leaves alone.
set_state-index :
    {T : Type 0} (man : Manager T) (i : ℕ) (s : FrameState) (l : ℕ)
    → ((set_state man i s).metaframes l).index ≡ (man.metaframes l).index
set_state-index man i s l = elim (Bool-cases (l == i)) [
  | inl e ↦ let same : l ≡ i = ground arith in rw e (ap (λ n. (man.metaframes n).index) (sym same))
  | inr e ↦ rw e
]

set_state-link :
    {T : Type 0} (man : Manager T) (i : ℕ) (s : FrameState) (l : ℕ)
    → ((set_state man i s).metaframes l).next_free_or_dirty ≡ (man.metaframes l).next_free_or_dirty
set_state-link man i s l = elim (Bool-cases (l == i)) [
  | inl e ↦
      let same : l ≡ i = ground arith in
      rw e (ap (λ n. (man.metaframes n).next_free_or_dirty) (sym same))
  | inr e ↦ rw e
]

set_state-states :
    {T : Type 0} (man : Manager T) (i : ℕ) (ys : List ℕ) (l : ℕ)
    → (if has l ys then fs_unpinned else ((set_state man i fs_unpinned).metaframes l).state)
      ≡ (if has l (i ∷ ys) then fs_unpinned else (man.metaframes l).state)
set_state-states man i ys l = elim (Bool-cases (l == i)) [ inl e ↦ ground arith | inr e ↦ rw e ]

Holds-same :
    (index index' : ℕ → ℤ) (ys ps : List ℕ)
    → ((l : ℕ) → index' l ≡ index l)
    → Holds index ys ps
    → Holds index' ys ps
Holds-same index index' [] [] same h = h
Holds-same index index' [] (p ∷ ps) same h = h
Holds-same index index' (i ∷ ys) [] same h = h
Holds-same index index' (i ∷ ys) (p ∷ ps) same (at, real, few, new, rest) =
    (same i ∙ at, real, few, new, Holds-same index index' ys ps same rest)

-- One frame is flushed before the others.
Flushed-step :
    {T : Type 0} (man : Manager T) (i p : ℕ) (ys ps : List ℕ) (f f' : File) (man' : Manager T)
    → has p ps ≡ false
    → Flushed
        (set_state man i fs_unpinned)
        ys
        ps
        (write_at f (p * page_size) page_size (man.buffer i))
        f'
        man'
    → Flushed man (i ∷ ys) (p ∷ ps) f f' man'
Flushed-step man i p ys ps f f' man' new h = record {
  size = ground (arith, h.size);
  stored = (λ k b. h.others p new k b ∙ page-write_self f p (man.buffer i) k b, h.stored);
  others = λ q out k b.
      h.others q (ground arith) k b ∙ page-write_ne f p (man.buffer i) q k (ground arith) b;
  states = λ l. h.states l ∙ set_state-states man i ys l;
  indices = λ l. h.indices l ∙ set_state-index man i fs_unpinned l;
  links = λ l. h.links l ∙ set_state-link man i fs_unpinned l;
  content = h.content;
  freelist = h.freelist;
  writeback = h.writeback;
}

module _ {W T : Type 0} ⦃os : Posix W⦄ ⦃g : HashTable T⦄ (doc : Documented os)
    (rel : Reliable os doc) (fd : ℤ) where
  flush_loop_step :
      (k : ℕ) (man man' : Manager T) (meta i : ℕ) (w w1 w' : W)
      → meta ≢ 0
      → slot man meta ≡ some i
      → put_page (man.buffer i) man.store (man.metaframes i).index w ≡ ret status_ok w1
      → flush_loop k
          (set_state man i fs_unpinned)
          ((set_state man i fs_unpinned).metaframes i).next_free_or_dirty
          w1
        ≡ ret man' w'
      → flush_loop (suc k) man meta w ≡ ret man' w'
  unfolding flush_loop
  flush_loop_step k man man' meta i w w1 w' real at put run =
      let not_null : (meta == 0) ≡ false = ==_ne meta 0 real in rw (not_null, at, put, run)

  pub flush_loop-Flushed :
      (k : ℕ) (man : Manager T) (meta : ℕ) (ys ps : List ℕ) (w : W) (f : File)
      → man.store ≡ some (record { storefd = fd })
      → doc.file fd w ≡ some f
      → Links man meta ys
      → length ys < k
      → Holds (λ l. (man.metaframes l).index) ys ps
      → (w' : W) × (f' : File) × (man' : Manager T) × (flush_loop k man meta w ≡ ret man' w')
        × (doc.file fd w' ≡ some f')
        × Flushed man ys ps f f' man'
  unfolding flush_loop
  flush_loop-Flushed zero man meta ys ps w f store opened h fuel holds = ground arith
  flush_loop-Flushed (suc k) man meta [] [] w f store opened h fuel holds =
      let null : (meta == 0) ≡ true = ground arith in
      (
        w,
        f,
        man,
        rw null,
        opened,
        record {
          size = omega arith;
          stored = tt;
          others = λ q out j b. refl;
          states = λ l. refl;
          indices = λ l. refl;
          links = λ l. refl;
          content = refl;
          freelist = refl;
          writeback = refl;
        },
      )
  flush_loop-Flushed (suc k) man meta [] (p ∷ ps) w f store opened h fuel holds = elim holds [ ]
  flush_loop-Flushed (suc k) man meta (i ∷ ys) [] w f store opened h fuel holds = elim holds [ ]
  flush_loop-Flushed (suc k) man meta (i ∷ ys) (p ∷ ps) w f store opened (real, at, rest) fuel
        (index, some_page, few, new, holds) =
      let (w1, f1, put, o1, e1) =
        put_page-page doc rel fd (man.buffer i) w f p opened some_page few in
      let cleaned = set_state man i fs_unpinned in
      let (w', f', man', run, o', flushed) =
        flush_loop-Flushed k cleaned (cleaned.metaframes i).next_free_or_dirty ys ps w1
          (write_at f (p * page_size) page_size (man.buffer i)) store (o1 ∙ ap some e1)
          (subst (λ q. Links cleaned q ys) (sym (set_state-link man i fs_unpinned i))
            (Links-same man cleaned (man.metaframes i).next_free_or_dirty ys refl refl
              (set_state-link man i fs_unpinned) rest))
          (omega (arith, fuel))
          (Holds-same (λ l. (man.metaframes l).index) (λ l. (cleaned.metaframes l).index) ys ps
            (set_state-index man i fs_unpinned) holds) in
      (
        w',
        f',
        man',
        flush_loop_step k man man' meta i w w1 w' real at (rw (store, index) put) run,
        o',
        Flushed-step man i p ys ps f f' man' new flushed,
      )

  -- On a disk without I/O errors, buff_flush_all of a well-formed manager whose frames to write back
  -- hold distinct pages, none of them the metadata page and all below 2^51, terminates and returns
  -- STATUS_OK. Then each of these pages has the bytes of its frame on disk, every other page is as
  -- it was, and the file is no shorter; these frames are FS_UNPINNED, and all other states, the page
  -- numbers, the links, the bytes of the frames and the heads of both lists are as they were.
  pub buff_flush_all-Flushed :
      (man : Manager T) (free dirty ps : List ℕ) (w : W) (f : File)
      → man.store ≡ some (record { storefd = fd })
      → doc.file fd w ≡ some f
      → WellFormed man free dirty
      → Holds (λ l. (man.metaframes l).index) dirty ps
      → (w' : W) × (f' : File) × (man' : Manager T) × (buff_flush_all (some man) w
          ≡ ret (status_ok, some man') w')
        × (doc.file fd w' ≡ some f')
        × Flushed man dirty ps f f' man'
  unfolding buff_flush_all
  buff_flush_all-Flushed man free dirty ps w f store opened wf holds =
      let links = Listed-Links man fs_unpinned_dirty man.writeback dirty wf.dirty_listed in
      let fuel : length dirty < man.frames + 1 =
        omega (arith, Links-length_bound man man.writeback dirty links) in
      let (w', f', man', run, o', flushed) =
        flush_loop-Flushed (man.frames + 1) man man.writeback dirty ps w f store opened links fuel
          holds in
      (w', f', man', rw run, o', flushed)
