-- ===== src/BufferManager/WriteBack.antt =====
-- A page changed through the buffer manager reaches the disk.
use nickdb.Base.{
  ℕ, suc, ◌+◌, ◌*◌, ◌^◌, ◌≤◌, ◌<◌, ◌≡◌, refl, ◌∙◌, sym, ap, subst, ◌≢◌, some, [], ◌∷◌, ==_refl,
  arith, ℤ,
}
use nickdb.Word.{Buffer}
use nickdb.Constants.{page_size, fs_unpinned, status_ok}
use nickdb.GLib.{HashTable, TableLaws}
use nickdb.Posix.{Posix, File, Documented, Reliable}
use nickdb.Proc.{ret}
use nickdb.FileIo.Pages.View.{page}
use nickdb.BufferManager.{Manager, slot}
use nickdb.BufferManager.Address.{Placed, slot-some, slot_same}
use nickdb.BufferManager.Calls.{buff_flush_all}
use nickdb.BufferManager.Flush.{flush_loop-Flushed}
use nickdb.BufferManager.Links.{Links}
use nickdb.BufferManager.Round.{Rounds, buff_unpin-Round}

module _ {W T : Type 0} ⦃os : Posix W⦄ ⦃g : HashTable T⦄ (doc : Documented os)
    (rel : Reliable os doc) (laws : TableLaws g) where
  -- On a disk without I/O errors, with arrays that end within 64 bits, an empty write-back list, a
  -- free list of at least two elements, and two different keys that are not in the table: buff_pin of
  -- a page of the store hands out a frame with the bytes of the page; after any change of the bytes
  -- of frames, buff_mark_page and buff_unpin of that frame and buff_flush_all all return STATUS_OK.
  -- Then the page has the changed bytes of the frame on disk, every other page is as it was, and the
  -- frame is FS_UNPINNED.
  pub buff_flush_all-changed :
      (change : (ℕ → Buffer) → ℕ → Buffer) (key value fresh : ℕ) (man : Manager T) (fd : ℤ) (w : W)
      (f : File) (p i j : ℕ)
      → man.store ≡ some (record { storefd = fd })
      → doc.file fd w ≡ some f
      → 1 ≤ p
      → p < 2 ^ 51
      → suc p * page_size ≤ f.size
      → Placed man
      → man.freelist ≢ 0
      → slot man man.freelist ≡ some i
      → slot man (man.metaframes i).next_free_or_dirty ≡ some j
      → man.writeback ≡ 0
      → g.lookup man.lookup_table key ≡ 0
      → g.lookup man.lookup_table fresh ≡ 0
      → fresh ≢ key
      → (w1 w2 : W) × (f' : File) × (man1 man2 man3 man4 : Manager T) × Rounds doc rel laws change
          key value fresh man p i w w1 man1 man2 man3
        × ((k : ℕ) → k < page_size → man1.buffer i k ≡ page f.bytes p k)
        × (buff_flush_all (some man3) w1 ≡ ret (status_ok, some man4) w2)
        × (doc.file fd w2 ≡ some f')
        × (f.size ≤ f'.size)
        × ((k : ℕ) → k < page_size → page f'.bytes p k ≡ change man1.buffer i k)
        × ((q : ℕ) → q ≢ p → (k : ℕ) → k < page_size → page f'.bytes q k ≡ page f.bytes q k)
        × ((man4.metaframes i).state ≡ fs_unpinned)
  unfolding buff_flush_all
  buff_flush_all-changed change key value fresh man fd w f p i j store opened some_p few inside
        placed some_free at next_at empty new unknown ne =
      let (w1, man1, man2, man3, calls, o1, r, loaded, same, _) =
        buff_unpin-Round doc rel laws change key value fresh man fd w f p i j store opened some_p
          few inside placed some_free at next_at new unknown ne in
      let (_, here, lt) = slot-some man man.freelist i at in
      let back : man3.writeback ≡ man.freelist = r.written ∙ sym here in
      let links : Links man3 man3.writeback (i ∷ []) = (
        subst (λ a. a ≢ 0) (sym back) some_free,
        slot_same man man3 man3.writeback r.metas r.frames ∙ ap (slot man) back ∙ at,
        r.link ∙ empty,
      ) in
      let some_frame : 1 < man3.frames + 1 = omega (arith, subst (λ n. i < n) (sym r.frames) lt) in
      let (w2, f', man4, run, o2, flushed) =
        flush_loop-Flushed doc rel fd (man3.frames + 1) man3 man3.writeback (i ∷ []) (p ∷ []) w1 f
          (r.store ∙ store) o1 links some_frame (r.index, some_p, few, refl, tt) in
      (
        w1,
        w2,
        f',
        man1,
        man2,
        man3,
        man4,
        calls,
        loaded.content,
        rw run,
        o2,
        flushed.size,
        λ k b. flushed.stored.0 k b ∙ ap (λ m. m i k) same,
        λ q other k b. flushed.others q (ground (arith, other)) k b,
        flushed.states i ∙ rw (==_refl i) refl,
      )
