-- ===== src/BufferManager/Steps/Kept.antt =====
-- Every step keeps every invariant.
use nickdb.Base.{ℕ, ◌≡◌, refl, true}
use nickdb.GLib.{HashTable}
use nickdb.Posix.{Posix}
use nickdb.Proc.Partial.{IfReturns-ret}
use nickdb.BufferManager.{Manager}
use nickdb.BufferManager.Invariant.{Invariant, Claims, Given, GivenToo}
use nickdb.BufferManager.Invariant.Runs.{
  buff_pin-kept, buff_unpin-kept, buff_mark_page-kept, buff_alloc_frame-kept, buff_free_frame-kept,
  buff_flush_all-kept,
}
use nickdb.BufferManager.Steps.{
  Step, pins, unpins, marks, allocates, frees, flushes, writes, frees_frame, Reach,
  ReachWithoutFree,
}

module _ {W T : Type 0} ⦃os : Posix W⦄ ⦃g : HashTable T⦄ (P : Manager T → Type 0)
    (Q : Manager T → ℕ → Type 0) (inv : Invariant P Q) where
  Step-kept :
      (man man' : Manager T) (st : Step W man man')
      → (frees_frame st ≡ true → Claims P)
      → P man
      → P man'
  Step-kept man man' (pins key value index code out w w' run) claims h =
      IfReturns-ret (GivenToo P) _ (buff_pin-kept P Q inv key value man index w h) run
  Step-kept man man' (unpins fresh frame code w w' run) claims h =
      IfReturns-ret (Given P) _ (buff_unpin-kept P Q inv fresh man frame w h) run
  Step-kept man man' (marks frame code w w' run) claims h =
      IfReturns-ret (Given P) _ (buff_mark_page-kept P Q inv man frame w h) run
  Step-kept man man' (allocates key value given code pair w w' run) claims h =
      IfReturns-ret (GivenToo P) _ (buff_alloc_frame-kept P Q inv key value man given w h) run
  Step-kept man man' (frees fresh frame code w w' run) claims h =
      IfReturns-ret (Given P) _ (buff_free_frame-kept P Q inv (claims refl) fresh man frame w h) run
  Step-kept man man' (flushes code w w' run) claims h =
      IfReturns-ret (Given P) _ (buff_flush_all-kept P Q inv man w h) run
  Step-kept man _ (writes buffer) claims h = inv.filled man buffer h

  pub Reach-kept : (first man : Manager T) → Claims P → P first → Reach W first man → P man
  Reach-kept first _ claims h Reach.start = h
  Reach-kept first _ claims h (Reach.later {man} r st) =
      Step-kept man _ st (λ e. claims) (Reach-kept first man claims h r)

  pub ReachWithoutFree-kept :
      (first man : Manager T) → P first → ReachWithoutFree W first man → P man
  ReachWithoutFree-kept first _ h ReachWithoutFree.start = h
  ReachWithoutFree-kept first _ h (ReachWithoutFree.later {man} r st kept) =
      Step-kept man _ st (λ e. cc) (ReachWithoutFree-kept first man h r)
