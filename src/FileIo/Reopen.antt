-- ===== src/FileIo/Reopen.antt =====
-- A store that is closed and opened again.
use mathlib.Core.List.{map}
use nickdb.Base.{ℕ, ◌≡◌, ◌∙◌, sym, some, List, [], ◌∷◌, ℤ, pos, negsuc, ==ℤ_ne}
use nickdb.Constants.{status_ok}
use nickdb.Posix.{Posix, File, Documented, Reliable, read_write}
use nickdb.Posix.Paths.{Paths, ReliablePaths}
use nickdb.Proc.{ret}
use nickdb.Proc.Keeps.{Keeps, Keeps-ret, seq, called, outcome-Keeps}
use nickdb.FileIo.{Backing, store_filename, open_backing, close_backing}
use nickdb.FileIo.Pages.{alloc_page, free_page}
use nickdb.FileIo.Pages.Client.{serve, serve-answers}
use nickdb.FileIo.Pages.Keep.{KeptByReads, KeptByWrites, alloc_page-Keeps, free_page-Keeps}
use nickdb.FileIo.Pages.Pool.{Pool, Request, allocate, release, answers, after, AllAllowed}
use nickdb.FileIo.Pages.Refine.{IsPool}

module _ {W : Type 0} ⦃os : Posix W⦄ (doc : Documented os) (paths : Paths os doc) where
  -- The path by which a descriptor was opened outlasts every page operation.
  abbrev pub Named : ℤ → List ℕ → W → Type 0
  Named fd path w = paths.name fd w ≡ some path

  pub Named-reads : (fd : ℤ) (path : List ℕ) → KeptByReads os (Named fd path)
  Named-reads fd path = record {
    pread = λ fd' dest n off w h. paths.pread-name fd fd' dest n off w ∙ h;
    lseek = λ fd' off w h. paths.lseek-name fd fd' off w ∙ h;
  }

  pub Named-writes : (fd : ℤ) (path : List ℕ) → KeptByWrites os (Named fd path)
  Named-writes fd path = record {
    pwrite = λ fd' src n off w h. paths.pwrite-name fd fd' src n off w ∙ h;
  }

  serve-Named :
      (fd : ℤ) (path : List ℕ) (rs : List Request) (w : W)
      → Named fd path w
      → Keeps (Named fd path) (serve fd rs w)
  unfolding serve
  serve-Named fd path [] w h = h
  serve-Named fd path (allocate content ∷ rs) w h = outcome-Keeps (Named fd path) _ (
      seq (Named fd path) _ _
        (called (Named fd path) _ (alloc_page (some content) (some (record { storefd = fd })) w) (
          alloc_page-Keeps (Named fd path) (Named-reads fd path) (Named-writes fd path)
            (some content) (some (record { storefd = fd })) w h))
        λ r w1 h1.
          seq (Named fd path) _ _
            (called (Named fd path) _ (serve fd rs w1) (serve-Named fd path rs w1 h1))
            λ l w2 h2. h2)
  serve-Named fd path (release p ∷ rs) w h = outcome-Keeps (Named fd path) _ (
      seq (Named fd path) _ _
        (called (Named fd path) _ (free_page (some (record { storefd = fd })) (pos p) w) (
          free_page-Keeps (Named fd path) (Named-reads fd path) (Named-writes fd path)
            (some (record { storefd = fd })) (pos p) w h))
        λ r w1 h1. called (Named fd path) _ (serve fd rs w1) (serve-Named fd path rs w1 h1))

  module _ (rel : ReliablePaths os doc paths) where
    -- close_backing of an open store.
    pub close_backing-stored :
        (fd : ℤ) (path : List ℕ) (w : W) (f : File)
        → Named fd path w
        → doc.file fd w ≡ some f
        → (w' : W) × (close_backing (some (record { storefd = fd })) w ≡ ret status_ok w')
          × (paths.stored path w' ≡ some f)
    unfolding close_backing
    close_backing-stored fd path w f named opened = (
      (os.close fd w).1,
      rw (rel.close_ok fd w f opened),
      paths.close-stored path fd w ∙ sym (paths.file-stored fd path w named) ∙ opened,
    )

    -- open_backing of a store that is there.
    pub open_backing-stored :
        (filename : List ℕ) (store : Backing) (w : W) (f : File)
        → paths.stored (store_filename filename) w ≡ some f
        → (w' : W) × (fd : ℤ) × (open_backing filename (some store) w
            ≡ ret (status_ok, some (record { storefd = fd })) w')
          × (doc.file fd w' ≡ some f)
          × Named fd (store_filename filename) w'
    unfolding open_backing
    open_backing-stored filename store w f there =
        let path = store_filename filename in
        let (fd, w') = os.open_file path read_write w in
        let good = rel.open_ok path w f there in
        let named = paths.open-name path read_write w good in
        (
          w',
          fd,
          rw (==ℤ_ne fd (negsuc 0) good),
          paths.file-stored fd path w' named ∙ paths.open-stored path w ∙ there,
          named,
        )

    -- On a disk without failures, after any sequence of allowed requests to an open store,
    -- close_backing and then open_backing of the same name both return STATUS_OK, and the store that
    -- is open then, by that name, stands for the pool at the end of the sequence.
    pub open_backing-serve :
        (reliable : Reliable os doc) (filename : List ℕ) (store : Backing) (rs : List Request)
        (fd : ℤ) (w : W) (f : File) (s : Pool)
        → Named fd (store_filename filename) w
        → doc.file fd w ≡ some f
        → IsPool f s
        → AllAllowed rs s
        → (w1 w2 w3 : W) × (fd' : ℤ) × (f' : File) × (serve fd rs w
            ≡ ret (map pos (answers rs s)) w1)
          × (close_backing (some (record { storefd = fd })) w1 ≡ ret status_ok w2)
          × (open_backing filename (some store) w2
              ≡ ret (status_ok, some (record { storefd = fd' })) w3)
          × (doc.file fd' w3 ≡ some f')
          × IsPool f' (after rs s)
          × Named fd' (store_filename filename) w3
    open_backing-serve reliable filename store rs fd w f s named opened pool allowed =
        let path = store_filename filename in
        let (w1, f1, served, o1, pool1) =
          serve-answers doc reliable fd rs w f s opened pool allowed in
        let named1 =
          Keeps-ret (Named fd path) (serve fd rs w) (serve-Named fd path rs w named) served in
        let (w2, closed, there) = close_backing-stored fd path w1 f1 named1 o1 in
        let (w3, fd', reopened, o3, named3) = open_backing-stored filename store w2 f1 there in
        (w1, w2, w3, fd', f1, served, closed, reopened, o3, pool1, named3)
