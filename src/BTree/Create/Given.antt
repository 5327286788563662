-- ===== src/BTree/Create/Given.antt =====
-- Which frame a new node is given, on any system: the head of the free list, which does not move.
use nickdb.Base.{ℕ, ◌≡◌, refl, sym, subst, ◌≢◌, Option, none, some, true, false, not}
use nickdb.Constants.{PageType, Status, status_ok, status_err}
use nickdb.GLib.{HashTable}
use nickdb.Posix.{Posix}
use nickdb.Proc.Partial.{IfReturns, guard, guard_if, dereferenced, call, called, outcome-IfReturns}
use nickdb.FileIo.Pages.{alloc_page}
use nickdb.BufferManager.{Manager, is_ok, pin_in}
use nickdb.BufferManager.Calls.{PageFramePair, or_null, buff_alloc_frame}
use nickdb.BufferManager.Pin.{Handed, Pinned, not_ok, pin_in-Pinned}
use nickdb.BTree.{Config, is_node_type, frame_slot, set_buffer, store_type, btree_alloc_node}

pub is_ok_true : (s : Status) → not (is_ok s) ≡ false → s ≡ status_ok
is_ok_true status_ok e = refl
is_ok_true _ e = cc

-- A frame with its page, and one with its manager, where the status is STATUS_OK.
abbrev AllocGives :
    {T : Type 0} → Manager T → Status × Option PageFramePair × Option (Manager T) → Type 0
AllocGives man (s, none, m) = s ≢ status_ok
AllocGives man (s, some pair, none) = s ≢ status_ok
AllocGives man (s, some pair, some m) = Handed man (some pair.frame) m

abbrev pub NodeGives : {T : Type 0} → Manager T → Status × Option ℕ × Option (Config T) → Type 0
NodeGives man (s, none, c) = s ≢ status_ok
NodeGives man (s, some node, none) = s ≢ status_ok
NodeGives {T} man (s, some node, some config) =
    (m : Manager T) × (config.manager ≡ some m) × Handed man (some node) m

pub NodeGives-some :
    {T : Type 0} (man : Manager T) (s : Status) (node : Option ℕ) (c : Option (Config T))
    (config : Config T)
    → NodeGives man (s, node, c)
    → s ≡ status_ok
    → c ≡ some config
    → (a : ℕ) × (m : Manager T) × (node ≡ some a)
      × (config.manager ≡ some m)
      × Handed man (some a) m
NodeGives-some man s none c config h ok e = absurd (h ok)
NodeGives-some man s (some a) none config h ok e = absurd (h ok)
NodeGives-some {T} man s (some a) (some c) config (m, at, h) ok e =
    let same : c ≡ config = cc in
    (a, m, refl, subst (λ (x : Config T). x.manager ≡ some m) same at, h)

AllocGives-some :
    {T : Type 0} (man : Manager T) (s : Status) (pair : Option PageFramePair)
    (mm : Option (Manager T)) (pr : PageFramePair) (m : Manager T)
    → AllocGives man (s, pair, mm)
    → s ≡ status_ok
    → pair ≡ some pr
    → mm ≡ some m
    → Handed man (some pr.frame) m
AllocGives-some man s none mm pr m h ok e e' = absurd (h ok)
AllocGives-some man s (some x) none pr m h ok e e' = absurd (h ok)
AllocGives-some man s (some x) (some y) pr m h ok e e' =
    let same : x ≡ pr = cc in
    let same' : y ≡ m = cc in
    subst (λ z. Handed man (some pr.frame) z) same'
      (subst (λ (z : PageFramePair). Handed man (some z.frame) y) same h)

-- What pin_in hands out with STATUS_OK, with NULL for no frame.
Pinned-or_null :
    {T : Type 0} (man : Manager T) (s : Status) (frame : Option ℕ) (man' : Manager T)
    → Pinned man (s, frame, man')
    → s ≡ status_ok
    → Handed man (some (or_null frame)) man'
Pinned-or_null man s none man' (h, real) ok = absurd (real ok refl)
Pinned-or_null man s (some a) man' (h, real) ok = h

module _ {W T : Type 0} ⦃os : Posix W⦄ ⦃g : HashTable T⦄ where
  buff_alloc_frame-AllocGives :
      (key value : ℕ) (man : Manager T) (w : W)
      → IfReturns (AllocGives man) (buff_alloc_frame key value (some man) true w)
  unfolding buff_alloc_frame
  buff_alloc_frame-AllocGives key value man w =
      let P : Status × Option PageFramePair × Option (Manager T) → Type 0 = AllocGives man in
      outcome-IfReturns P _ (
        call P P (alloc_page none man.store w) _ λ r w1.
          guard_if P P (not (is_ok r.0)) (r.0, none, some man) w1 _ (not_ok r.0)
            λ good.
              called P (Pinned man) P (pin_in key value man r.1 w1) _
                (pin_in-Pinned key value man r.1 w1)
                λ r2 w2 h2.
                  guard_if P P (not (is_ok r2.0)) (r2.0, none, some r2.2) w2 _ (not_ok r2.0)
                    λ good2. Pinned-or_null man r2.0 r2.1 r2.2 h2 (is_ok_true r2.0 good2))

  pub btree_alloc_node-NodeGives :
      (key value : ℕ) (config : Config T) (man : Manager T) (type : PageType) (w : W)
      → config.manager ≡ some man
      → IfReturns (NodeGives man) (btree_alloc_node key value (some config) type w)
  unfolding btree_alloc_node
  btree_alloc_node-NodeGives key value config man type w managed =
      let P : Status × Option ℕ × Option (Config T) → Type 0 = NodeGives man in
      let alloc : IfReturns (AllocGives man) (buff_alloc_frame key value config.manager true w) =
        subst (λ m. IfReturns (AllocGives man) (buff_alloc_frame key value m true w)) (sym managed)
          (buff_alloc_frame-AllocGives key value man w) in
      outcome-IfReturns P _ (
        guard P P (not (is_node_type type)) (status_err, none, some config) w _ (λ e. cc)
          λ node_type.
            called P (AllocGives man) P (buff_alloc_frame key value config.manager true w) _ alloc
              λ r w1 h.
                guard_if P P (not (is_ok r.0)) (r.0, none, some (record config { manager = r.2 }))
                  w1 _ (not_ok r.0)
                  λ good. dereferenced P P r.1 w1 _ λ pair e. dereferenced P P r.2 w1 _ λ m e'.
                    dereferenced P P (frame_slot m pair.frame) w1 _ λ i at.
                      let given =
                        AllocGives-some man r.0 r.1 r.2 pair m h (is_ok_true r.0 good) e e' in
                      (
                        set_buffer m i (store_type (m.buffer i) type),
                        refl,
                        record {
                          head = given.head;
                          metas = given.metas;
                          buffers = given.buffers;
                          frames = given.frames;
                          out = given.out;
                        },
                      ))
