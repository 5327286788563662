-- ===== src/BufferManager/Flush/Attempt.antt =====
-- buff_flush_all on a disk that may have I/O errors, on which a write transfers all its bytes or none.
use mathlib.Core.Path.{fun_ext}
use nickdb.Base.{
  ℕ, ◌<◌, ◌≡◌, refl, ◌∙◌, ◌≢◌, sym, ap, List, [], ◌∷◌, ◌⊎◌, arith, false, true, has, ==_ne, ==_refl,
  ◌==◌, Bool-cases, inl, inr, ℤ, pos,
}
use nickdb.Word.{Buffer}
use nickdb.Constants.{page_size, FrameState, fs_unpinned}
use nickdb.Posix.{File}
use nickdb.FileIo.Pages.View.{page, has-ne}
use nickdb.BufferManager.{Manager, set_state}
use nickdb.BufferManager.Flush.{Holds, set_state-index, set_state-link}

-- Frame `i` is FS_UNPINNED and its page has its bytes, or neither has changed.
abbrev pub Cleaned :
    (st st' : ℕ → FrameState) (buffer : ℕ → Buffer) (b b' : Buffer) (i p : ℕ) → Type 0
Cleaned st st' buffer b b' i p =
    ((st' i ≡ fs_unpinned) × ((k : ℕ) → k < page_size → page b' p k ≡ buffer i k))
    ⊎ ((st' i ≡ st i) × ((k : ℕ) → k < page_size → page b' p k ≡ page b p k))

abbrev pub Each :
    (st st' : ℕ → FrameState) (buffer : ℕ → Buffer) (b b' : Buffer) (ys ps : List ℕ) → Type 0
Each st st' buffer b b' [] ps = Unit
Each st st' buffer b b' (i ∷ ys) [] = Unit
Each st st' buffer b b' (i ∷ ys) (p ∷ ps) =
    Cleaned st st' buffer b b' i p × Each st st' buffer b b' ys ps

abbrev pub state_of : {T : Type 0} → Manager T → ℕ → FrameState
state_of man l = (man.metaframes l).state

-- The file and the manager after an attempt to flush the frames `ys` with the pages `ps`.
pub record Attempted {T : Type 0} (man : Manager T) (ys ps : List ℕ) (f f' : File)
    (man' : Manager T) : Type 0 where
  pub each : Each (state_of man) (state_of man') man.buffer f.bytes f'.bytes ys ps
  pub others :
      (q : ℕ) → has q ps ≡ false → (k : ℕ) → k < page_size → page f'.bytes q k ≡ page f.bytes q k
  pub states : (l : ℕ) → has l ys ≡ false → state_of man' l ≡ state_of man l
  pub indices : (l : ℕ) → (man'.metaframes l).index ≡ (man.metaframes l).index
  pub links :
      (l : ℕ) → (man'.metaframes l).next_free_or_dirty ≡ (man.metaframes l).next_free_or_dirty
  pub content : man'.buffer ≡ man.buffer
  pub freelist : man'.freelist ≡ man.freelist
  pub writeback : man'.writeback ≡ man.writeback

-- Where the frames and pages in question are the same before.
Each-same :
    (st st1 st' : ℕ → FrameState) (buffer : ℕ → Buffer) (b b1 b' : Buffer) (ys ps : List ℕ)
    → ((l : ℕ) → has l ys ≡ true → st1 l ≡ st l)
    → ((q : ℕ) → has q ps ≡ true → (k : ℕ) → k < page_size → page b1 q k ≡ page b q k)
    → Each st1 st' buffer b1 b' ys ps
    → Each st st' buffer b b' ys ps
Each-same st st1 st' buffer b b1 b' [] ps states pages h = tt
Each-same st st1 st' buffer b b1 b' (i ∷ ys) [] states pages h = tt
Each-same st st1 st' buffer b b1 b' (i ∷ ys) (p ∷ ps) states pages (here, rest) = (
  elim here [
    | inl done ↦ inl done
    | inr (state, kept) ↦
        inr (state ∙ states i (ground arith), λ k lt. kept k lt ∙ pages p (ground arith) k lt)
  ],
  Each-same st st1 st' buffer b b1 b' ys ps (λ l m. states l (ground arith))
      (λ q m. pages q (ground arith)) rest,
)

-- A frame whose page is none of `ps` is none of `ys`.
pub Holds-fresh :
    (index : ℕ → ℤ) (i p : ℕ) (ys ps : List ℕ)
    → index i ≡ pos p
    → has p ps ≡ false
    → Holds index ys ps
    → has i ys ≡ false
Holds-fresh index i p [] ps at new h = refl
Holds-fresh index i p (j ∷ ys) [] at new h = elim h [ ]
Holds-fresh index i p (j ∷ ys) (q ∷ ps) at new (at', _, _, _, rest) =
    let later = Holds-fresh index i p ys ps at (ground arith) rest in
    elim (Bool-cases (i == j)) [
      | inl e ↦
          let same : i ≡ j = ground arith in
          let one : ◌≡◌ {A = ℤ} (pos p) (pos q) = sym at ∙ ap index same ∙ at' in
          absurd (ground (arith, one))
      | inr e ↦ ground (arith, later)
    ]

-- One frame before the others: `s` is its state after the attempt, `f1` the file.
pub Attempted-step :
    {T : Type 0} (man : Manager T) (i p : ℕ) (s : FrameState) (ys ps : List ℕ) (f f1 f' : File)
    (man' : Manager T)
    → has i ys ≡ false
    → has p ps ≡ false
    → ((q : ℕ) → q ≢ p → (k : ℕ) → k < page_size → page f1.bytes q k ≡ page f.bytes q k)
    → ((s ≡ fs_unpinned) × ((k : ℕ) → k < page_size → page f1.bytes p k ≡ man.buffer i k))
      ⊎ ((s ≡ state_of man i) × ((k : ℕ) → k < page_size → page f1.bytes p k ≡ page f.bytes p k))
    → Attempted (set_state man i s) ys ps f1 f' man'
    → Attempted man (i ∷ ys) (p ∷ ps) f f' man'
Attempted-step man i p s ys ps f f1 f' man' fresh new pages here h =
    let at_i : state_of man' i ≡ s = h.states i fresh ∙ rw (==_refl i, state_of) in
    record {
      each = (
        elim here [
          | inl (clean, stored) ↦ inl (at_i ∙ clean, λ k lt. h.others p new k lt ∙ stored k lt)
          | inr (kept, same) ↦ inr (at_i ∙ kept, λ k lt. h.others p new k lt ∙ same k lt)
        ],
        Each-same (state_of man) (state_of (set_state man i s)) (state_of man') man.buffer f.bytes
            f1.bytes f'.bytes ys ps
            (λ l m. rw (==_ne l i (λ e. has-ne i l ys fresh m (sym e)), state_of))
            (λ q m. pages q (λ e. has-ne p q ps new m (sym e))) h.each,
      );
      others = λ q out k lt. h.others q (ground arith) k lt ∙ pages q (ground arith) k lt;
      states = λ l out.
          h.states l (ground arith)
          ∙ (let apart : l ≢ i = ground arith in rw (==_ne l i apart, state_of));
      indices = λ l. h.indices l ∙ set_state-index man i s l;
      links = λ l. h.links l ∙ set_state-link man i s l;
      content = h.content;
      freelist = h.freelist;
      writeback = h.writeback;
    }

-- A state that is set to what it was.
pub set_state-same : {T : Type 0} (man : Manager T) (i : ℕ) → set_state man i (state_of man i) ≡ man
set_state-same man i =
    ap (λ cells. record man { metaframes = cells })
      (fun_ext λ l. elim (Bool-cases (l == i)) [
        | inl e ↦ let same : l ≡ i = ground arith in rw e (ap man.metaframes (sym same))
        | inr e ↦ rw e
      ])
