-- ===== src/GLib.antt =====
-- The calls of GLib's hash table that src/lib/buffer_manager.c makes, on a table with neither hash
-- nor comparison function: its keys are the pointers themselves. A null pointer is 0.
use nickdb.Base.{ℕ, ◌≡◌, Bool, true, false, ◌==◌, if◌then◌else◌}

-- `T` is the type of tables without a NULL value: what is put in them here are the addresses of
-- variables. So `lookup` is NULL where a key is absent, and there alone. `insert` says whether the key is new, `remove` whether it was there.
pub record HashTable (T : Type 0) : Type 0 where
  pub new : T
  pub insert : T → ℕ → ℕ → Bool × T
  pub lookup : T → ℕ → ℕ
  pub remove : T → ℕ → Bool × T
  -- whether `destroy` has an entry whose pointers it frees
  pub is_empty : T → Bool

-- What the documentation says of them, on such tables.
pub record TableLaws {T : Type 0} (g : HashTable T) : Type 0 where
  pub lookup-new : (k : ℕ) → g.lookup g.new k ≡ 0
  pub empty-new : g.is_empty g.new ≡ true
  pub insert_new : (t : T) (k v : ℕ) → g.lookup t k ≡ 0 → (g.insert t k v).0 ≡ true
  pub lookup-insert :
      (t : T) (k v j : ℕ) → g.lookup (g.insert t k v).1 j ≡ (if j == k then v else g.lookup t j)
  pub insert_filled : (t : T) (k v : ℕ) → g.is_empty (g.insert t k v).1 ≡ false
  pub remove_absent : (t : T) (k : ℕ) → g.lookup t k ≡ 0 → g.remove t k ≡ (false, t)
