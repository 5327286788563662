-- ===== src/BufferManager/Steps/First.antt =====
-- Which frames a program uses that does not call buff_free_frame.
use nickdb.Base.{ℕ, ◌<◌, ◌≤◌, ◌≡◌, refl, ◌∙◌, ◌≢◌, sym, inl, inr, some, arith, ℤ}
use nickdb.Constants.{fs_unpinned, status_ok}
use nickdb.GLib.{HashTable}
use nickdb.Posix.{Posix}
use nickdb.Proc.{ret}
use nickdb.Proc.Partial.{IfReturns-ret}
use nickdb.BufferManager.{MetaFrame, Manager, frame_at, buff_pin, get_frame_index_from_meta}
use nickdb.BufferManager.Address.{Placed}
use nickdb.BufferManager.Calls.{init_metaframes}
use nickdb.BufferManager.Init.{init_metaframes-Linked}
use nickdb.BufferManager.Invariant.Sole.{Sole, Sole-Invariant}
use nickdb.BufferManager.Pin.{Returned, buff_pin-Returned}
use nickdb.BufferManager.Steps.{pins, ReachWithoutFree, later}
use nickdb.BufferManager.Steps.Kept.{ReachWithoutFree-kept}

-- The first element is the first of the array.
first_index :
    {T : Type 0} (man : Manager T)
    → man.freelist ≡ man.metaframes_at
    → get_frame_index_from_meta man man.freelist ≡ 0
unfolding get_frame_index_from_meta
first_index man e = omega (arith, e)

module _ {W T : Type 0} ⦃os : Posix W⦄ ⦃g : HashTable T⦄ (first man : Manager T)
    (placed : Placed first) (some_frame : 1 ≤ first.frames)
    (head : first.freelist ≡ first.metaframes_at) (empty : first.writeback ≡ 0)
    (reach : ReachWithoutFree W (init_metaframes first.frames 0 first) man) where
  abbrev cells : ℕ → MetaFrame
  cells = (init_metaframes first.frames 0 first).metaframes

  ReachWithoutFree-Sole :
      (man1 : Manager T)
      → ReachWithoutFree W (init_metaframes first.frames 0 first) man1
      → Sole first cells man1
  ReachWithoutFree-Sole man1 reached =
      let h = init_metaframes-Linked first.frames 0 first (omega arith) in
      let idle : (l : ℕ) → l < first.frames → (cells l).state ≡ fs_unpinned =
        λ l lt. (h.cells l (omega arith) lt).0 in
      ReachWithoutFree-kept (Sole first cells) _ (Sole-Invariant first cells placed.meta_above idle)
        (init_metaframes first.frames 0 first) man1
        (record {
          at = h.metas;
          buffers = h.buffers;
          count = h.frames;
          head = h.head ∙ head;
          others = λ l ne. refl;
          written = inl (h.written ∙ empty);
        })
        reached

  -- On any system and with any table: from a manager as the loop of buff_create leaves it on, with at
  -- least one frame and arrays that end within 64 bits, and after any calls of the functions of the
  -- buffer manager but buff_free_frame that return, and any writes in the frames, buff_pin with
  -- STATUS_OK hands out the first frame, whatever the page, and the elements of all other frames are
  -- as the loop has left them.
  pub buff_pin-first_frame :
      (key value : ℕ) (index : ℤ) (w w' : W) (a : ℕ) (man' : Manager T)
      → buff_pin key value (some man) index w ≡ ret (status_ok, some a, some man') w'
      → (a ≡ frame_at first 0)
        × ((l : ℕ)
            → l ≢ 0
            → man'.metaframes l ≡ (init_metaframes first.frames 0 first).metaframes l)
  buff_pin-first_frame key value index w w' a man' run =
      let h = ReachWithoutFree-Sole man reach in
      let h' =
        ReachWithoutFree-Sole man'
          (later reach (pins key value index status_ok (some a) w w' run) refl) in
      let handed =
        IfReturns-ret (Returned man) (buff_pin key value (some man) index w)
          (buff_pin-Returned key value man index w) run in
      (
        elim handed.out [
          | inl e ↦ cc
          | inr e ↦
              let at : frame_at man (get_frame_index_from_meta man man.freelist)
                  ≡ frame_at first 0 =
                rw (first_index man (h.head ∙ sym h.at), h.buffers) refl in
              ground (arith, at)
        ],
        h'.others,
      )
