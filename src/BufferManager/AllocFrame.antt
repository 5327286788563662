-- ===== src/BufferManager/AllocFrame.antt =====
-- buff_alloc_frame: a new page and a frame that holds it.
use nickdb.Base.{ℕ, suc, ◌^◌, ◌<◌, ◌≡◌, ◌∙◌, ◌≢◌, some, none, [], arith, true, ℤ, pos}
use nickdb.Word.{zeros}
use nickdb.Constants.{page_size, status_ok}
use nickdb.GLib.{HashTable, TableLaws}
use nickdb.Posix.{Posix, File, Documented, Reliable}
use nickdb.Proc.{ret}
use nickdb.FileIo.Pages.{alloc_page}
use nickdb.FileIo.Pages.Blank.{alloc_page-grow_blank}
use nickdb.FileIo.Pages.View.{IsStore}
use nickdb.FileIo.Pages.Written.{Written}
use nickdb.BufferManager.{Manager, slot, frame_at, pin_in}
use nickdb.BufferManager.Calls.{buff_alloc_frame}
use nickdb.BufferManager.Load.{Loaded, pin_in-Loaded}

module _ {W T : Type 0} ⦃os : Posix W⦄ ⦃g : HashTable T⦄ (doc : Documented os)
    (rel : Reliable os doc) (laws : TableLaws g) where
  buff_alloc_frame_calls :
      (key value : ℕ) (man man' : Manager T) (page : ℤ) (frame : ℕ) (w w1 w' : W)
      → alloc_page none man.store w ≡ ret (status_ok, page) w1
      → pin_in key value man page w1 ≡ ret (status_ok, some frame, man') w'
      → buff_alloc_frame key value (some man) true w
        ≡ ret (status_ok, some (record { page = page; frame = frame }), some man') w'
  unfolding buff_alloc_frame
  buff_alloc_frame_calls key value man man' page frame w w1 w' alloc pin = rw (alloc, pin)

  pub buff_alloc_frame-Loaded :
      (key value : ℕ) (man : Manager T) (fd : ℤ) (w : W) (f : File) (n i j : ℕ)
      → man.store ≡ some (record { storefd = fd })
      → doc.file fd w ≡ some f
      → IsStore f n []
      → suc n < 2 ^ 51
      → man.freelist ≢ 0
      → slot man man.freelist ≡ some i
      → slot man (man.metaframes i).next_free_or_dirty ≡ some j
      → g.lookup man.lookup_table key ≡ 0
      → (w' : W) × (f' : File) × (man' : Manager T) × (buff_alloc_frame key value (some man) true w
          ≡ ret (status_ok, some (record { page = pos n; frame = frame_at man i }), some man') w')
        × (doc.file fd w' ≡ some f')
        × IsStore f' (suc n) []
        × Written f f' n zeros
        × Loaded man i j n f'.bytes man'
        × (man'.lookup_table ≡ (g.insert man.lookup_table key value).1)
  buff_alloc_frame-Loaded key value man fd w f n i j store opened st room some_free at next_at new =
      let (w1, f1, alloc, o1, (st1, written)) =
        alloc_page-grow_blank doc rel fd w f n opened st room in
      let (w', man', pin, o', loaded, table) =
        pin_in-Loaded doc rel laws key value man fd w1 f1 n i j store o1 st.some_page
          (omega (arith, room)) st1.whole some_free at next_at new in
      (
        w',
        f1,
        man',
        buff_alloc_frame_calls key value man man' (pos n) (frame_at man i) w w1 w' (rw store alloc)
            pin,
        o',
        st1,
        written,
        loaded,
        table,
      )

  -- On a disk without I/O errors, buff_alloc_frame on a store of n pages with none free and room for
  -- one more, with a free list of at least two elements i and j and a key that is not in the table,
  -- returns STATUS_OK, page n and frame i: the store grows by a blank page, every other page but the
  -- metadata page is as it was, and the frame is FS_PINNED, has page number n and holds zeros alone.
  pub buff_alloc_frame-grow :
      (key value : ℕ) (man : Manager T) (fd : ℤ) (w : W) (f : File) (n i j : ℕ)
      → man.store ≡ some (record { storefd = fd })
      → doc.file fd w ≡ some f
      → IsStore f n []
      → suc n < 2 ^ 51
      → man.freelist ≢ 0
      → slot man man.freelist ≡ some i
      → slot man (man.metaframes i).next_free_or_dirty ≡ some j
      → g.lookup man.lookup_table key ≡ 0
      → (w' : W) × (f' : File) × (man' : Manager T) × (buff_alloc_frame key value (some man) true w
          ≡ ret (status_ok, some (record { page = pos n; frame = frame_at man i }), some man') w')
        × (doc.file fd w' ≡ some f')
        × IsStore f' (suc n) []
        × Written f f' n zeros
        × Loaded man i j n f'.bytes man'
        × ((k : ℕ) → k < page_size → man'.buffer i k ≡ 0)
  buff_alloc_frame-grow key value man fd w f n i j store opened st room some_free at next_at new =
      let (w', f', man', run, o', st', written, loaded, _) =
        buff_alloc_frame-Loaded key value man fd w f n i j store opened st room some_free at next_at
          new in
      (w', f', man', run, o', st', written, loaded, λ k b. loaded.content k b ∙ written.own k b)
