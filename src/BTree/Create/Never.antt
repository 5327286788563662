-- ===== src/BTree/Create/Never.antt =====
-- btree_create on any system.
use nickdb.Base.{ℕ, ◌≡◌, refl, sym, subst, ◌∙◌, ap, ◌≢◌, Option, none, some, not, ltb, ℤ}
use nickdb.Word.{Buffer, store64}
use nickdb.Constants.{Status, status_ok, dir_page_type, data_page_type}
use nickdb.GLib.{HashTable}
use nickdb.Posix.{Posix}
use nickdb.Proc.{ret}
use nickdb.Proc.Partial.{
  IfReturns, IfReturns-ret, Leads, guard_if, required, dereferenced, called, outcome-IfReturns,
}
use nickdb.BufferManager.{Manager, is_ok, get_frame_index_from_frame, buff_unpin}
use nickdb.BufferManager.Again.{Back, Refused, buff_unpin-Back, buff_unpin-Refused}
use nickdb.BufferManager.Calls.{or_null}
use nickdb.BufferManager.Pin.{Handed, Handed-frame, not_ok}
use nickdb.BTree.{
  Config, Comparator, comparator_or_default, frame_slot, set_buffer, btree_alloc_node,
  finish_create, btree_create,
}
use nickdb.BTree.Create.Given.{is_ok_true, NodeGives, NodeGives-some, btree_alloc_node-NodeGives}

module _ {W T : Type 0} ⦃os : Posix W⦄ ⦃g : HashTable T⦄ where
  -- Both nodes are in one frame.
  finish_create-Refused :
      (fresh1 fresh2 : ℕ) (config : Config T) (frame : ℕ) (w : W)
      → Leads Refused Refused (finish_create fresh1 fresh2 config frame frame w)
  unfolding finish_create
  finish_create-Refused fresh1 fresh2 config frame w =
      let P : Status × Option (Config T) → Type 0 = Refused in
      dereferenced P P config.manager w _ λ man e.
        let leaf = get_frame_index_from_frame man frame in
        required P P (ltb leaf man.frames) w _ λ bounded.
          dereferenced P P (frame_slot man frame) w _ λ i at.
            let linked = set_buffer man i (store64 (man.buffer i) 12 (man.metaframes leaf).index) in
            called P (Back (get_frame_index_from_frame linked frame) linked) P
              (buff_unpin fresh1 (some linked) frame w) _ (buff_unpin-Back fresh1 linked frame w)
              λ r w1 h.
                guard_if P P (not (is_ok r.0)) (r.0, some (record config { manager = r.1 })) w1 _
                  (not_ok r.0)
                  λ good.
                    called P Refused P (buff_unpin fresh2 r.1 frame w1) _
                      (buff_unpin-Refused fresh2 linked r.0 r.1 frame w1 h (is_ok_true r.0 good))
                      λ r2 w2 h2.
                        guard_if P P (not (is_ok r2.0))
                          (r2.0, some (record config { manager = r2.1 })) w2 _ (λ bad. h2)
                          λ good2. absurd (h2 (is_ok_true r2.0 good2))

  btree_create-Refused :
      (key1 value1 key2 value2 fresh1 fresh2 : ℕ) (memcmp : Buffer → Buffer → ℕ → ℤ)
      (config : Option (Config T)) (manager : Option (Manager T)) (key_size : ℕ)
      (comparator : Option Comparator) (w : W)
      → IfReturns Refused (
          btree_create key1 value1 key2 value2 fresh1 fresh2 memcmp config manager key_size
            comparator w)
  unfolding btree_create
  btree_create-Refused key1 value1 key2 value2 fresh1 fresh2 memcmp none manager key_size comparator
        w =
      λ e. cc
  btree_create-Refused key1 value1 key2 value2 fresh1 fresh2 memcmp (some config) none key_size
        comparator w =
      λ e. cc
  btree_create-Refused key1 value1 key2 value2 fresh1 fresh2 memcmp (some config) (some man)
        key_size comparator w =
      let P : Status × Option (Config T) → Type 0 = Refused in
      let empty = record config { manager = some man; key_size = key_size } in
      outcome-IfReturns P _ (
        called P (NodeGives man) P (btree_alloc_node key1 value1 (some empty) dir_page_type w) _
          (btree_alloc_node-NodeGives key1 value1 empty man dir_page_type w refl)
          λ r w1 h.
            guard_if P P (not (is_ok r.0)) (r.0, r.2) w1 _ (not_ok r.0)
              λ good. dereferenced P P r.2 w1 _ λ config1 e1.
                dereferenced P P config1.manager w1 _ λ man1 managed1.
                  let (a, m, out1, at1, given1) =
                    NodeGives-some man r.0 r.1 r.2 config1 h (is_ok_true r.0 good) e1 in
                  let root = get_frame_index_from_frame man1 (or_null r.1) in
                  required P P (ltb root man1.frames) w1 _ λ bounded.
                    let rooted = record config1 {
                      root = (man1.metaframes root).index;
                      comparator = comparator_or_default memcmp comparator;
                    } in
                    called P (NodeGives man1) P
                      (btree_alloc_node key2 value2 (some rooted) data_page_type w1) _
                      (btree_alloc_node-NodeGives key2 value2 rooted man1 data_page_type w1
                        managed1)
                      λ r2 w2 h2.
                        guard_if P P (not (is_ok r2.0)) (r2.0, r2.2) w2 _ (not_ok r2.0)
                          λ good2. dereferenced P P r2.2 w2 _ λ config2 e2.
                            let (b, m2, out2, at2, given2) =
                              NodeGives-some man1 r2.0 r2.1 r2.2 config2 h2 (is_ok_true r2.0 good2)
                                e2 in
                            let same : m ≡ man1 = cc (sym at1 ∙ managed1) in
                            let one_frame : a ≡ b =
                              Handed-frame man man1 m2 a b
                                (subst (λ x. Handed man (some a) x) same given1) given2 in
                            let frames : or_null r2.1 ≡ or_null r.1 =
                              ap or_null out2 ∙ sym one_frame ∙ ap or_null (sym out1) in
                            subst
                              (λ x.
                                Leads P P (finish_create fresh1 fresh2 config2 (or_null r.1) x w2))
                              (sym frames)
                              (finish_create-Refused fresh1 fresh2 config2 (or_null r.1) w2))

  -- On any system, with any table, manager and configuration, whatever btree_create returns, its
  -- status is not STATUS_OK: where both nodes are allocated, they are in one frame, and buff_unpin
  -- refuses to give it back twice.
  pub btree_create_fails :
      (key1 value1 key2 value2 fresh1 fresh2 : ℕ) (memcmp : Buffer → Buffer → ℕ → ℤ)
      (config : Option (Config T)) (manager : Option (Manager T)) (key_size : ℕ)
      (comparator : Option Comparator) (w w' : W) (code : Status) (config' : Option (Config T))
      → btree_create key1 value1 key2 value2 fresh1 fresh2 memcmp config manager key_size comparator
          w
        ≡ ret (code, config') w'
      → code ≢ status_ok
  btree_create_fails key1 value1 key2 value2 fresh1 fresh2 memcmp config manager key_size comparator
        w w' code config' run =
      IfReturns-ret Refused _
        (btree_create-Refused key1 value1 key2 value2 fresh1 fresh2 memcmp config manager key_size
          comparator w)
        run
