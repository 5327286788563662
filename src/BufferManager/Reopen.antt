-- ===== src/BufferManager/Reopen.antt =====
-- A page changed through the buffer manager, the store closed and opened again.
use nickdb.Base.{
  ℕ, zero, suc, ◌+◌, ◌*◌, ◌^◌, ◌≤◌, ◌<◌, ◌≡◌, ◌∙◌, ap, ◌≢◌, some, List, ◌==◌, arith, ℤ, pos,
  if◌then◌else◌,
}
use nickdb.Word.{Buffer, overwrite}
use nickdb.Constants.{page_size, status_ok, fs_unpinned}
use nickdb.GLib.{HashTable, TableLaws}
use nickdb.Posix.{Posix, Documented, File, Reliable}
use nickdb.Posix.Paths.{Paths, ReliablePaths}
use nickdb.Proc.{ret}
use nickdb.Proc.Keeps.{Keeps, Keeps-ret, calls, called, derefs, either, outcome-Keeps}
use nickdb.FileIo.{Backing, store_filename, open_backing, close_backing}
use nickdb.FileIo.Pages.{get_page, put_page}
use nickdb.FileIo.Pages.Access.{get_page-page, filled_byte}
use nickdb.FileIo.Pages.Keep.{KeptByReads, KeptByWrites, put_page-Keeps}
use nickdb.FileIo.Pages.View.{page}
use nickdb.FileIo.Reopen.{
  Named, Named-reads, Named-writes, close_backing-stored, open_backing-stored,
}
use nickdb.BufferManager.{Manager, slot, is_ok, set_state}
use nickdb.BufferManager.Address.{Placed}
use nickdb.BufferManager.Calls.{flush_loop, buff_flush_all}
use nickdb.BufferManager.Keep.{buff_pin-Keeps}
use nickdb.BufferManager.Round.{Rounds}
use nickdb.BufferManager.WriteBack.{buff_flush_all-changed}

module _ {W T : Type 0} ⦃os : Posix W⦄ ⦃g : HashTable T⦄ (I : W → Type 0) (reads : KeptByReads os I)
    (writes : KeptByWrites os I) where
  flush_loop-Keeps :
      (k : ℕ) (man : Manager T) (meta : ℕ) (w : W) → I w → Keeps I (flush_loop k man meta w)
  unfolding flush_loop
  flush_loop-Keeps zero man meta w h = tt
  flush_loop-Keeps (suc k) man meta w h = either I (meta == 0) _ _ w h (
      outcome-Keeps I _ (
        derefs I (slot man meta) w _ h λ i w1 h1.
          calls I (put_page (man.buffer i) man.store (man.metaframes i).index w1) _
            (put_page-Keeps I reads writes (man.buffer i) man.store (man.metaframes i).index w1 h1)
            λ put w2 h2.
              let man' = if is_ok put then set_state man i fs_unpinned else man in
              called I _ (flush_loop k man' (man'.metaframes i).next_free_or_dirty w2)
                (flush_loop-Keeps k man' (man'.metaframes i).next_free_or_dirty w2 h2)))

  buff_flush_all-Keeps : (man : Manager T) (w : W) → I w → Keeps I (buff_flush_all (some man) w)
  unfolding buff_flush_all
  buff_flush_all-Keeps man w h = outcome-Keeps I _ (
      calls I (flush_loop (man.frames + 1) man man.writeback w) _
        (flush_loop-Keeps (man.frames + 1) man man.writeback w h) λ m w1 h1. h1)

module _ {W T : Type 0} ⦃os : Posix W⦄ ⦃g : HashTable T⦄ (doc : Documented os)
    (paths : Paths os doc) (available : ReliablePaths os doc paths) (rel : Reliable os doc)
    (laws : TableLaws g) where
  -- On a disk without failures, with arrays that end within 64 bits, an empty write-back list, a free
  -- list of at least two elements, and two different keys that are not in the table: buff_pin of a page
  -- of the open store hands out a frame with the bytes of the page; after any change of the bytes of
  -- frames, buff_mark_page and buff_unpin of that frame, buff_flush_all, close_backing of the store
  -- and open_backing of the same name all return STATUS_OK. get_page of the page in the store that is
  -- open then returns STATUS_OK and the changed bytes of the frame, and every other page is as it was
  -- at the beginning.
  pub get_page-changed :
      (change : (ℕ → Buffer) → ℕ → Buffer) (key value fresh : ℕ) (man : Manager T)
      (filename : List ℕ) (spare : Backing) (dest : Buffer) (fd : ℤ) (w : W) (f : File) (p i j : ℕ)
      → man.store ≡ some (record { storefd = fd })
      → paths.name fd w ≡ some (store_filename filename)
      → doc.file fd w ≡ some f
      → 1 ≤ p
      → p < 2 ^ 51
      → suc p * page_size ≤ f.size
      → Placed man
      → man.freelist ≢ 0
      → slot man man.freelist ≡ some i
      → slot man (man.metaframes i).next_free_or_dirty ≡ some j
      → man.writeback ≡ 0
      → g.lookup man.lookup_table key ≡ 0
      → g.lookup man.lookup_table fresh ≡ 0
      → fresh ≢ key
      → (w1 w2 w3 w4 w5 : W) × (man1 man2 man3 man4 : Manager T) × (fd' : ℤ) × (f' : File)
        × (d : Buffer) × Rounds doc rel laws change key value fresh man p i w w1 man1 man2 man3
        × ((k : ℕ) → k < page_size → man1.buffer i k ≡ page f.bytes p k)
        × (buff_flush_all (some man3) w1 ≡ ret (status_ok, some man4) w2)
        × (close_backing (some (record { storefd = fd })) w2 ≡ ret status_ok w3)
        × (open_backing filename (some spare) w3
            ≡ ret (status_ok, some (record { storefd = fd' })) w4)
        × (get_page dest (some (record { storefd = fd' })) (pos p) w4 ≡ ret (status_ok, d) w5)
        × ((k : ℕ) → k < page_size → d k ≡ change man1.buffer i k)
        × (doc.file fd' w5 ≡ some f')
        × ((q : ℕ) → q ≢ p → (k : ℕ) → k < page_size → page f'.bytes q k ≡ page f.bytes q k)
  get_page-changed change key value fresh man filename spare dest fd w f p i j store named opened
        some_p few inside placed some_free at next_at empty new unknown ne =
      let I = Named doc paths fd (store_filename filename) in
      let (w1, w2, f', man1, man2, man3, man4, calls, loaded, flush, o2, longer, kept, others, _) =
        buff_flush_all-changed doc rel laws change key value fresh man fd w f p i j store opened
          some_p few inside placed some_free at next_at empty new unknown ne in
      let named1 : I w1 =
        Keeps-ret I _
          (buff_pin-Keeps I (Named-reads doc paths fd (store_filename filename)) key value
            (some man) (pos p) w named)
          calls.0 in
      let named2 : I w2 =
        Keeps-ret I _
          (buff_flush_all-Keeps I (Named-reads doc paths fd (store_filename filename))
            (Named-writes doc paths fd (store_filename filename)) man3 w1 named1)
          flush in
      let (w3, closed, there) =
        close_backing-stored doc paths available fd (store_filename filename) w2 f' named2 o2 in
      let (w4, fd', reopened, o4, _) =
        open_backing-stored doc paths available filename spare w3 f' there in
      let (w5, f5, got, o5, same) =
        get_page-page doc rel fd' dest w4 f' p o4 some_p few (omega (arith, inside, longer)) in
      (
        w1,
        w2,
        w3,
        w4,
        w5,
        man1,
        man2,
        man3,
        man4,
        fd',
        f',
        overwrite dest 0 page_size (page f'.bytes p),
        calls,
        loaded,
        flush,
        closed,
        reopened,
        got,
        λ k b. filled_byte dest (page f'.bytes p) k b ∙ kept k b,
        o5 ∙ ap some same,
        others,
      )
