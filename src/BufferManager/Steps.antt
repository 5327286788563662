-- ===== src/BufferManager/Steps.antt =====
-- What a program does with a manager that the loop of buff_create has made, as steps: it calls the
-- functions of src/lib/buffer_manager.c in any order and writes in the frames.
pub mod Kept
pub mod Safety
pub mod First
use nickdb.Base.{ℕ, ◌≡◌, Bool, true, false, Option, some, ℤ}
use nickdb.Word.{Buffer}
use nickdb.Constants.{Status}
use nickdb.GLib.{HashTable}
use nickdb.Posix.{Posix}
use nickdb.Proc.{ret}
use nickdb.BufferManager.{Manager, buff_pin, buff_unpin, buff_mark_page}
use nickdb.BufferManager.Calls.{PageFramePair, buff_flush_all, buff_alloc_frame, buff_free_frame}

-- A call that returns, with whatever status, or a change of the data of frames.
pub data Step (W : Type 0) {T : Type 0} ⦃os : Posix W⦄ ⦃g : HashTable T⦄ (man : Manager T)
    : Manager T → Type 0 where
  pins :
      (key value : ℕ) (index : ℤ) (status : Status) (out : Option ℕ) {man' : Manager T} (w w' : W)
      → buff_pin key value (some man) index w ≡ ret (status, out, some man') w'
      → Step W man man'
  unpins :
      (fresh frame : ℕ) (status : Status) {man' : Manager T} (w w' : W)
      → buff_unpin fresh (some man) frame w ≡ ret (status, some man') w'
      → Step W man man'
  marks :
      (frame : ℕ) (status : Status) {man' : Manager T} (w w' : W)
      → buff_mark_page (some man) frame w ≡ ret (status, some man') w'
      → Step W man man'
  allocates :
      (key value : ℕ) (given : Bool) (status : Status) (pair : Option PageFramePair)
      {man' : Manager T} (w w' : W)
      → buff_alloc_frame key value (some man) given w ≡ ret (status, pair, some man') w'
      → Step W man man'
  frees :
      (fresh frame : ℕ) (status : Status) {man' : Manager T} (w w' : W)
      → buff_free_frame fresh (some man) frame w ≡ ret (status, some man') w'
      → Step W man man'
  flushes :
      (status : Status) {man' : Manager T} (w w' : W)
      → buff_flush_all (some man) w ≡ ret (status, some man') w'
      → Step W man man'
  writes : (buffer : ℕ → Buffer) → Step W man (record man { buffer = buffer })

pub data Reach (W : Type 0) {T : Type 0} ⦃os : Posix W⦄ ⦃g : HashTable T⦄ (first : Manager T)
    : Manager T → Type 0 where
  start : Reach W first first
  later : {man man' : Manager T} → Reach W first man → Step W man man' → Reach W first man'

-- Whether a step is a call of buff_free_frame.
abbrev pub frees_frame :
    {W T : Type 0} ⦃os : Posix W⦄ ⦃g : HashTable T⦄ {man man' : Manager T} → Step W man man' → Bool
frees_frame (pins key value index code out w w' run) = false
frees_frame (unpins fresh frame code w w' run) = false
frees_frame (marks frame code w w' run) = false
frees_frame (allocates key value given code pair w w' run) = false
frees_frame (frees fresh frame code w w' run) = true
frees_frame (flushes code w w' run) = false
frees_frame (writes buffer) = false

-- The states that are reached without such calls.
pub data ReachWithoutFree (W : Type 0) {T : Type 0} ⦃os : Posix W⦄ ⦃g : HashTable T⦄
    (first : Manager T) : Manager T → Type 0 where
  start : ReachWithoutFree W first first
  later :
      {man man' : Manager T}
      → ReachWithoutFree W first man
      → (st : Step W man man') → frees_frame st ≡ false
      → ReachWithoutFree W first man'
