-- ===== src/BufferManager/Table.antt =====
-- A hash table in memory, as an association list.
use nickdb.Base.{ℕ, refl, true, false, Bool, List, [], ◌∷◌, ◌==◌, if◌then◌else◌}
use nickdb.GLib.{HashTable, TableLaws}

-- A table is the list of its entries, the latest first.
abbrev pub Entries : Type 0
Entries = List (ℕ × ℕ)

abbrev find : Entries → ℕ → ℕ
find [] k = 0
find ((j, v) ∷ t) k = if k == j then v else find t k

abbrev erase : Entries → ℕ → Entries
erase [] k = []
erase ((j, v) ∷ t) k = let rest = erase t k in if k == j then rest else (j, v) ∷ rest

abbrev drop : Entries → ℕ → Bool × Entries
drop t k = if find t k == 0 then (false, t) else (true, erase t k)

abbrev nothing_in : Entries → Bool
nothing_in [] = true
nothing_in (e ∷ t) = false

instance abbrev pub entries : HashTable Entries
entries = record {
  new = [];
  insert = λ t k v. (find t k == 0, (k, v) ∷ t);
  lookup = find;
  remove = drop;
  is_empty = nothing_in;
}

pub entries_laws : TableLaws entries
entries_laws = record {
  lookup-new = λ k. refl;
  empty-new = refl;
  insert_new = λ t k v e. rw e refl;
  lookup-insert = λ t k v j. refl;
  insert_filled = λ t k v. refl;
  remove_absent = λ t k e. rw e refl;
}
