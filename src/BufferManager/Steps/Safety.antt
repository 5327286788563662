-- ===== src/BufferManager/Steps/Safety.antt =====
-- In every state that is reached the pointers of the manager can be followed.
use nickdb.Base.{
  not, pos, ◌==ℤ◌, ℕ, zero, suc, ◌-◌, ◌%◌, ◌/◌, ◌+◌, ◌*◌, ◌^◌, ◌<◌, ◌≤◌, ◌≡◌, refl, ◌∙◌, sym, subst,
  ◌≢◌, inl, inr, Option, none, some, ◌==◌, ltb, arith, true, false, ==_refl, ==_ne, Bool-cases,
  Option-cases, ◌⊎◌, ℤ, scale,
}
use nickdb.Word.{Buffer, FitsI64}
use nickdb.Constants.{page_size, Status, status_err, status_ok, status_meta_page, fs_unpinned}
use nickdb.GLib.{HashTable}
use nickdb.Posix.{Posix}
use nickdb.Proc.{fault, outcome}
use nickdb.Proc.Fine.{Fine, Fine-Returns, Fine-called, Fine-fault, Fine-guarded, Fine-outcome}
use nickdb.FileIo.Pages.{put_page, get_page}
use nickdb.FileIo.Pages.Results.{put_page-PageResult, get_page-PageResult}
use nickdb.BufferManager.Address.{Placed, slot-some, slot_same}
use nickdb.BufferManager.{
  update, fetch_page, pin_in, frame_at, copy_next, Manager, is_ok, slot, get_frame_index_from_meta,
  set_state, sizeof_meta_frame, buff_pin,
}
use nickdb.BufferManager.Init.{init_metaframes-Linked}
use nickdb.BufferManager.Calls.{init_metaframes, flush_loop, buff_flush_all}
use nickdb.BufferManager.Steps.{Reach}
use nickdb.BufferManager.Invariant.{Given}
use nickdb.BufferManager.Steps.Kept.{Reach-kept}
use nickdb.BufferManager.Pointers.{
  IsPointer, Pointers, set_state-Pointers, Pointers-Invariant, Pointers-Claims,
}

module _ {T : Type 0} (base n : ℕ) (above : 0 < base)
    (below : base + sizeof_meta_frame * n ≤ 2 ^ 64) where
  -- A pointer to an element that is not NULL can be followed.
  slot-element :
      (man : Manager T) (p : ℕ)
      → Pointers base n man
      → IsPointer base n p
      → (p == 0) ≡ false
      → (i : ℕ) × (i < n) × (slot man p ≡ some i)
  unfolding slot get_frame_index_from_meta
  slot-element man p h (inl e) real = ground arith
  slot-element man p h (inr (i, lt, e)) real =
      let index : (base + sizeof_meta_frame * i + 2 ^ 64 - base) % 2 ^ 64 / sizeof_meta_frame ≡ i =
        omega arith in
      let bounded : ltb i n ≡ true = ground arith in
      (i, lt, rw (h.at, h.count, e, index, ==_refl (base + sizeof_meta_frame * i), bounded))

module _ {W T : Type 0} ⦃os : Posix W⦄ ⦃g : HashTable T⦄ (base n : ℕ) (above : 0 < base)
    (below : base + sizeof_meta_frame * n ≤ 2 ^ 64) where
  flush_loop-Fine :
      (k : ℕ) (man : Manager T) (meta : ℕ) (w : W)
      → Pointers base n man
      → IsPointer base n meta
      → Fine (Pointers base n) (flush_loop k man meta w)
  unfolding flush_loop
  flush_loop-Fine zero man meta w h at = tt
  flush_loop-Fine (suc k) man meta w h at = elim (Bool-cases (meta == 0)) [
    | inl e ↦ rw e h
    | inr e ↦
        let (i, lt, slotted) = slot-element base n above below man meta h at e in
        rw (e, slotted)
          (Fine-Returns (Pointers base n) _
            (put_page (man.buffer i) man.store (man.metaframes i).index w) _
            (put_page-PageResult (man.buffer i) man.store (man.metaframes i).index w)
            λ put w1. elim (Bool-cases (is_ok put)) [
              | inl good ↦
                  let h' = set_state-Pointers base n man i fs_unpinned lt h in
                  rw good (
                    Fine-outcome (Pointers base n) _
                      (flush_loop-Fine k (set_state man i fs_unpinned) _ w1 h' (h'.links i lt)))
              | inr bad ↦
                  rw bad
                    (Fine-outcome (Pointers base n) _ (flush_loop-Fine k man _ w1 h (h.links i lt)))
            ])
  ]

  buff_flush_all-Fine :
      (man : Manager T) (w : W)
      → Pointers base n man
      → Fine (Given (Pointers base n)) (buff_flush_all (some man) w)
  unfolding buff_flush_all
  buff_flush_all-Fine man w h =
      Fine-called (Given (Pointers base n)) (Pointers base n) _ _
        (flush_loop-Fine (man.frames + 1) man man.writeback w h h.written_head) λ man' h'. h'

  fetch_page-Fine :
      (key value : ℕ) (man : Manager T) (i j : ℕ) (index : ℤ) (w : W)
      → slot man man.freelist ≡ some i
      → slot man (man.metaframes i).next_free_or_dirty ≡ some j
      → Fine (λ _. Unit {0}) (outcome (fetch_page key value man i index w))
  unfolding fetch_page copy_next
  fetch_page-Fine key value man i j index w at next =
      let P : Status × Option ℕ × Manager T → Type 0 = λ _. Unit {0} in
      let (inserted, table) = g.insert man.lookup_table key value in
      let entered = record man { lookup_table = table } in
      let read = λ (d : Buffer). record entered { buffer = update man.buffer i d } in
      let (_, _, lt) = slot-some man man.freelist i at in
      let bounded : ltb i man.frames ≡ true = ground arith in
      Fine-guarded P (not inserted) (status_err, none, entered) w _ tt
        (rw bounded (
          Fine-Returns P _ (get_page (man.buffer i) man.store index w) _
            (get_page-PageResult (man.buffer i) man.store index w)
            λ r w1.
              Fine-guarded P (not (is_ok r.0)) (r.0, none, read r.1) w1 _ tt
                (rw
                  (
                    slot_same man (read r.1) man.freelist refl refl,
                    at,
                    slot_same man (read r.1) (man.metaframes i).next_free_or_dirty refl refl,
                    next,
                  )
                  tt)))

  buff_pin-Fine :
      (key value : ℕ) (man : Manager T) (index : ℤ) (w : W)
      → Pointers base n man
      → ((i : ℕ) → slot man man.freelist ≡ some i → (man.metaframes i).next_free_or_dirty ≢ 0)
      → Fine (λ _. Unit {0}) (buff_pin key value (some man) index w)
  unfolding buff_pin pin_in
  buff_pin-Fine key value man index w h more =
      let P : Status × Option ℕ × Manager T → Type 0 = λ _. Unit {0} in
      let i = get_frame_index_from_meta man man.freelist in
      Fine-called (λ _. Unit {0}) P _ _
        (Fine-guarded P (index ==ℤ pos 0) (status_meta_page, none, man) w _ tt
          (elim (Bool-cases (man.freelist == 0)) [
            | inl e ↦ rw e tt
            | inr e ↦
                let (k, lt, at) =
                  slot-element base n above below man man.freelist h h.free_head e in
                let (j, _, next) =
                  slot-element base n above below man (man.metaframes k).next_free_or_dirty h
                    (h.links k lt) (==_ne _ 0 (more k at)) in
                let (head, _, _) = slot-some man man.freelist k at in
                rw (e, head)
                  (Fine-guarded P (not (g.lookup man.lookup_table key == 0))
                    (status_ok, some (frame_at man k), man) w _ tt
                    (fetch_page-Fine key value man k j index w at next))
          ]))
        λ r u. tt

init_metaframes-Pointers :
    {T : Type 0} (man : Manager T)
    → 1 ≤ man.frames
    → man.freelist ≡ man.metaframes_at
    → man.writeback ≡ 0
    → Pointers man.metaframes_at man.frames (init_metaframes man.frames 0 man)
init_metaframes-Pointers man some_frame head empty =
    let h = init_metaframes-Linked man.frames 0 man (omega arith) in
    record {
      at = h.metas;
      count = h.frames;
      free_head = inr (0, some_frame, h.head ∙ head ∙ omega arith);
      written_head = inl (h.written ∙ empty);
      links = λ l lt.
          subst (IsPointer man.metaframes_at man.frames) (sym (h.cells l (omega arith) lt).1)
            (elim (Bool-cases (ltb (l + 1) man.frames)) [
              | inl e ↦ rw e (inr (l + 1, ground arith, refl))
              | inr e ↦ rw e (inl refl)
            ]);
    }

module _ {W T : Type 0} ⦃os : Posix W⦄ ⦃g : HashTable T⦄ (first man : Manager T)
    (placed : Placed first) (some_frame : 1 ≤ first.frames)
    (head : first.freelist ≡ first.metaframes_at) (empty : first.writeback ≡ 0)
    (reach : Reach W (init_metaframes first.frames 0 first) man) where
  -- On any system and with any table: whatever calls of the functions of the buffer manager return,
  -- in whatever order and with whatever arguments, and whatever is written in the frames in between,
  -- from a manager as the loop of buff_create leaves it on, with at least one frame and arrays that
  -- end within 64 bits, the array of elements stays the same, and the heads of both lists and the
  -- links of all elements are NULL or lead to an element.
  pub Reach-Pointers : Pointers first.metaframes_at first.frames man
  Reach-Pointers =
      Reach-kept _ _ (Pointers-Invariant first.metaframes_at first.frames)
        (init_metaframes first.frames 0 first) man
        (Pointers-Claims first.metaframes_at first.frames)
        (init_metaframes-Pointers first some_frame head empty) reach

  buff_flush_all_safe : (w : W) → buff_flush_all (some man) w ≢ fault
  buff_flush_all_safe w = Fine-fault (Given (Pointers first.metaframes_at first.frames)) _ (
      buff_flush_all-Fine first.metaframes_at first.frames placed.meta_above placed.meta_below man w
        Reach-Pointers)

  buff_pin_safe :
      (key value : ℕ) (index : ℤ) (w : W)
      → ((i : ℕ) → slot man man.freelist ≡ some i → (man.metaframes i).next_free_or_dirty ≢ 0)
      → buff_pin key value (some man) index w ≢ fault
  buff_pin_safe key value index w more =
      Fine-fault (λ _. Unit {0}) _
        (buff_pin-Fine first.metaframes_at first.frames placed.meta_above placed.meta_below key
          value man index w Reach-Pointers more)

  -- On any system and with any table: in every state that calls of the functions of the buffer
  -- manager that return, and writes in the frames, lead to from a manager as the loop of buff_create
  -- leaves it, with at least one frame and arrays that end within 64 bits, and where the products of
  -- PAGESIZE with the pages of all frames and with the page asked for fit 64 bits: buff_flush_all is
  -- not undefined behaviour, and buff_pin is not either, for whatever keys, unless the first element
  -- of the free list leads to NULL.
  pub buff_flush_all-buff_pin_safe :
      (key value : ℕ) (index : ℤ) (w : W)
      → ((l : ℕ) → l < man.frames → FitsI64 (scale (man.metaframes l).index page_size))
      → FitsI64 (scale index page_size)
      → (buff_flush_all (some man) w ≢ fault)
        × (((i : ℕ) × (slot man man.freelist ≡ some i)
              × ((man.metaframes i).next_free_or_dirty ≡ 0))
            ⊎ (buff_pin key value (some man) index w ≢ fault))
  buff_flush_all-buff_pin_safe key value index w pages_fit page_fits = (
    buff_flush_all_safe w,
    elim (Option-cases (slot man man.freelist)) [
      | inl e ↦ inr (buff_pin_safe key value index w (λ i at. cc))
      | inr (i, e) ↦ elim (Bool-cases ((man.metaframes i).next_free_or_dirty == 0)) [
        | inl null ↦ inl (i, e, ground arith)
        | inr leads ↦ inr (
            buff_pin_safe key value index w (λ k at.
              let same : i ≡ k = cc (sym e ∙ at) in
              subst (λ l. (man.metaframes l).next_free_or_dirty ≢ 0) same (ground arith)))
      ]
    ],
  )
