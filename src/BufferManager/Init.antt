-- ===== src/BufferManager/Init.antt =====
-- The loop of buff_create that links all frames into the free list.
use nickdb.Base.{
  ℕ, zero, suc, ◌+◌, ◌*◌, ◌<◌, ◌≤◌, ◌≡◌, refl, ◌∙◌, ◌≢◌, sym, ap, subst, List, [], ◌∷◌, arith,
  false, true, ==_ne, ==_refl, ltb, if◌then◌else◌, Bool-cases, inl, inr,
}
use nickdb.Constants.{fs_unpinned}
use nickdb.BufferManager.{Manager, MetaFrame, sizeof_meta_frame, slot, update, meta_at}
use nickdb.BufferManager.Address.{Placed, meta_at-ne-zero, slot-meta_at}
use nickdb.BufferManager.Calls.{init_metaframes}
use nickdb.BufferManager.Lists.{Listed, WellFormed}

-- The numbers from `i` on, `k` of them.
abbrev pub from : ℕ → ℕ → List ℕ
from i zero = []
from i (suc k) = i ∷ from (suc i) k

-- The pointer to element `l`, NULL behind the last one.
abbrev pub at_or_null : {T : Type 0} → Manager T → ℕ → ℕ
at_or_null man l = if ltb l man.frames then meta_at man l else 0

-- The elements from `i` on are linked in their order, those below are as they were.
pub record Linked {T : Type 0} (i : ℕ) (man man' : Manager T) : Type 0 where
  pub metas : man'.metaframes_at ≡ man.metaframes_at
  pub buffers : man'.buffer_at ≡ man.buffer_at
  pub frames : man'.frames ≡ man.frames
  pub head : man'.freelist ≡ man.freelist
  pub written : man'.writeback ≡ man.writeback
  pub store : man'.store ≡ man.store
  pub table : man'.lookup_table ≡ man.lookup_table
  pub below : (l : ℕ) → l < i → man'.metaframes l ≡ man.metaframes l
  pub cells :
      (l : ℕ)
      → i ≤ l
      → l < man.frames
      → ((man'.metaframes l).state ≡ fs_unpinned)
        × ((man'.metaframes l).next_free_or_dirty ≡ at_or_null man (l + 1))

pub init_metaframes-Linked :
    {T : Type 0} (k i : ℕ) (man : Manager T)
    → i + k ≡ man.frames
    → Linked i man (init_metaframes k i man)
unfolding init_metaframes
init_metaframes-Linked zero i man e = record {
  metas = refl;
  buffers = refl;
  frames = refl;
  head = refl;
  written = refl;
  store = refl;
  table = refl;
  below = λ l h. refl;
  cells = λ l h lt. ground arith;
}
init_metaframes-Linked (suc k) i man e =
    let m : MetaFrame = record (man.metaframes i) {
      state = fs_unpinned;
      next_free_or_dirty = at_or_null man (i + 1);
    } in
    let man1 = record man { metaframes = update man.metaframes i m } in
    let rest = init_metaframes-Linked k (suc i) man1 (omega (arith, e)) in
    let here : (init_metaframes k (suc i) man1).metaframes i ≡ m =
      rest.below i (omega arith) ∙ rw (==_refl i) in
    record {
      metas = rest.metas;
      buffers = rest.buffers;
      frames = rest.frames;
      head = rest.head;
      written = rest.written;
      store = rest.store;
      table = rest.table;
      below = λ l h. rest.below l (omega (arith, h)) ∙ rw (==_ne l i (omega (arith, h)));
      cells = λ l h lt. elim (Bool-cases (ltb i l)) [
        | inl above ↦ rest.cells l (ground arith) lt
        | inr not_above ↦
            let same : i ≡ l = ground arith in
            subst
              (λ n.
                (((init_metaframes k (suc i) man1).metaframes n).state ≡ fs_unpinned)
                × (((init_metaframes k (suc i) man1).metaframes n).next_free_or_dirty
                    ≡ at_or_null man (n + 1)))
              same (ap (λ c. c.state) here, ap (λ c. c.next_free_or_dirty) here)
      ];
    }

Linked-Listed :
    {T : Type 0} (man man' : Manager T) (k i : ℕ)
    → Placed man'
    → Linked 0 man man'
    → i + k ≡ man.frames
    → Listed man' fs_unpinned (at_or_null man i) (from i k)
Linked-Listed man man' zero i placed h e =
    let behind : ltb i man.frames ≡ false = ground arith in rw behind
Linked-Listed man man' (suc k) i placed h e =
    let lt : i < man'.frames = subst (λ n. i < n) (sym h.frames) (omega (arith, e)) in
    let inside : ltb i man.frames ≡ true = ground arith in
    let start : at_or_null man i ≡ meta_at man' i =
      rw inside (ap (λ b. b + sizeof_meta_frame * i) (sym h.metas)) in
    let (state, link) = h.cells i (omega arith) (omega (arith, e)) in
    let after : i + 1 ≡ suc i = omega arith in
    (
      subst (λ p. p ≢ 0) (sym start) (meta_at-ne-zero man' placed i lt),
      ap (slot man') start ∙ slot-meta_at man' placed i lt,
      state,
      subst (λ p. Listed man' fs_unpinned p (from (suc i) k))
          (sym (link ∙ ap (at_or_null man) after))
          (Linked-Listed man man' k (suc i) placed h (omega (arith, e))),
    )

-- The loop of buff_create, on at least one frame, with the free list at the first element and no
-- write-back list, makes the manager well-formed: every frame is free, in the order of the array.
pub init_metaframes-WellFormed :
    {T : Type 0} (man : Manager T)
    → Placed man
    → 1 ≤ man.frames
    → man.freelist ≡ man.metaframes_at
    → man.writeback ≡ 0
    → WellFormed (init_metaframes man.frames 0 man) (from 0 man.frames) []
init_metaframes-WellFormed man placed some_frame head empty =
    let h = init_metaframes-Linked man.frames 0 man (omega arith) in
    let man' = init_metaframes man.frames 0 man in
    let placed' : Placed man' = record {
      meta_above = subst (λ b. 0 < b) (sym h.metas) placed.meta_above;
      meta_below = rw (h.metas, h.frames) placed.meta_below;
      frame_above = subst (λ b. 0 < b) (sym h.buffers) placed.frame_above;
      frame_below = rw (h.buffers, h.frames) placed.frame_below;
    } in
    let inside : ltb 0 man.frames ≡ true = ground arith in
    let start : at_or_null man 0 ≡ man'.freelist =
      rw inside (omega arith) ∙ sym head ∙ sym h.head in
    record {
      placed = placed';
      free_listed =
          subst (λ p. Listed man' fs_unpinned p (from 0 man.frames)) start
            (Linked-Listed man man' man.frames 0 placed' h (omega arith));
      dirty_listed = h.written ∙ empty;
    }
