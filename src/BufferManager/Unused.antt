-- ===== src/BufferManager/Unused.antt =====
-- A manager through which no page is pinned, from the loop of buff_create to buff_destroy.
use nickdb.Base.{ℕ, zero, suc, ◌==◌, ◌+◌, ◌≤◌, ◌≡◌, ◌∙◌, ap, none, some, List, [], arith, true, ℤ}
use nickdb.Constants.{status_ok}
use nickdb.GLib.{HashTable, TableLaws}
use nickdb.Posix.{Posix, Documented, File}
use nickdb.Posix.Paths.{Paths, ReliablePaths}
use nickdb.Proc.{ret}
use nickdb.FileIo.Reopen.{close_backing-stored}
use nickdb.BufferManager.{Manager}
use nickdb.BufferManager.Address.{Placed}
use nickdb.BufferManager.Calls.{init_metaframes, flush_loop, buff_flush_all, buff_destroy}
use nickdb.BufferManager.Init.{from, init_metaframes-Linked, init_metaframes-WellFormed}
use nickdb.BufferManager.Lists.{WellFormed}

module _ {W T : Type 0} ⦃os : Posix W⦄ ⦃g : HashTable T⦄ where
  flush_loop-null :
      (k : ℕ) (man : Manager T) (meta : ℕ) (w : W)
      → 1 ≤ k
      → meta ≡ 0
      → flush_loop k man meta w ≡ ret man w
  unfolding flush_loop
  flush_loop-null zero man meta w some_fuel null = absurd (omega (arith, some_fuel))
  flush_loop-null (suc k) man meta w some_fuel null =
      let e : (meta == 0) ≡ true = ground arith in rw e

  module _ (laws : TableLaws g) (doc : Documented os) (paths : Paths os doc)
      (available : ReliablePaths os doc paths) where
    -- On a disk without failures, with at least one frame, arrays that end within 64 bits, an open
    -- store, a new table, the free list at the first element and no write-back list: the loop of
    -- buff_create makes the manager well-formed, with every frame free, in the order of the array.
    -- buff_flush_all of this manager returns STATUS_OK and changes nothing. buff_destroy of it
    -- returns STATUS_OK and stores NULL, and leaves the file of the store as it was.
    pub buff_destroy-init_metaframes :
        (man : Manager T) (fd : ℤ) (path : List ℕ) (w : W) (f : File)
        → Placed man
        → 1 ≤ man.frames
        → man.freelist ≡ man.metaframes_at
        → man.writeback ≡ 0
        → man.lookup_table ≡ g.new
        → man.store ≡ some (record { storefd = fd })
        → paths.name fd w ≡ some path
        → doc.file fd w ≡ some f
        → let made = init_metaframes man.frames 0 man in
          WellFormed made (from 0 man.frames) []
          × (buff_flush_all (some made) w ≡ ret (status_ok, some made) w)
          × ((w' : W) × (buff_destroy (some (some made)) w ≡ ret (status_ok, some none) w')
              × (paths.stored path w' ≡ some f))
    unfolding buff_flush_all buff_destroy
    buff_destroy-init_metaframes man fd path w f placed some_frame head empty new store named
          opened =
        let made = init_metaframes man.frames 0 man in
        let h = init_metaframes-Linked man.frames 0 man (omega arith) in
        let run =
          flush_loop-null (made.frames + 1) made made.writeback w (omega arith)
            (h.written ∙ empty) in
        let bare : g.is_empty made.lookup_table ≡ true =
          ap (λ t. g.is_empty t) (h.table ∙ new) ∙ laws.empty-new in
        let (w', closed, there) =
          close_backing-stored doc paths available fd path w f named opened in
        (
          init_metaframes-WellFormed man placed some_frame head empty,
          rw run,
          (w', rw (run, bare, h.store, store, closed), there),
        )
