-- ===== src/FileIo/Life.antt =====
-- A store from its creation to its removal.
use mathlib.Core.List.{map}
use nickdb.Base.{ℕ, ◌≡◌, refl, ◌≢◌, ◌∙◌, sym, subst, none, some, List, [], ℤ, pos, negsuc}
use nickdb.Constants.{page_size, status_ok}
use nickdb.Posix.{Posix, File, Documented, Reliable, create_truncate}
use nickdb.Posix.Paths.{Paths, ReliablePaths}
use nickdb.Proc.{ret}
use nickdb.FileIo.{
  Backing, store_filename, first_metadata, create_new_backing, open_backing, close_backing,
  remove_backing,
}
use nickdb.FileIo.Create.{created, first-IsStore, create_new_backing_run}
use nickdb.FileIo.Pages.Client.{serve}
use nickdb.FileIo.Pages.Pool.{Pool, Request, answers, after, AllAllowed}
use nickdb.FileIo.Pages.Refine.{IsPool}
use nickdb.FileIo.Reopen.{Named, close_backing-stored, open_backing-serve}

-- The pool of a new store.
abbrev pub new_pool : Pool
new_pool = record { pages = 1; free = [] }

module _ {W : Type 0} ⦃os : Posix W⦄ (doc : Documented os) (paths : Paths os doc) where
  pub created-Named :
      (filename : List ℕ) (fd : ℤ) (w : W)
      → (os.open_file (store_filename filename) create_truncate w).0 ≡ fd
      → fd ≢ negsuc 0
      → Named doc paths fd (store_filename filename) (created filename fd w)
  created-Named filename fd w e ne =
      let path = store_filename filename in
      let w1 = (os.open_file path create_truncate w).1 in
      paths.pwrite-name fd fd first_metadata page_size (pos 0) w1
      ∙ subst (λ d. paths.name d w1 ≡ some path) e
          (paths.open-name path create_truncate w (λ bad. ne (sym e ∙ bad)))

  module _ (available : ReliablePaths os doc paths) where
    -- remove_backing of a store that is there.
    pub remove_backing_gone :
        (filename : List ℕ) (w : W) (f : File)
        → paths.stored (store_filename filename) w ≡ some f
        → (w' : W) × (remove_backing filename w ≡ ret status_ok w')
          × (paths.stored (store_filename filename) w' ≡ none)
    unfolding remove_backing
    remove_backing_gone filename w f there =
        let path = store_filename filename in
        let ok = available.remove_ok path w f there in
        ((os.remove path w).1, rw ok, paths.remove_gone path w ok)

    -- On a disk without failures, where open gives a descriptor other than -1: create_new_backing,
    -- then a sequence of requests that are allowed from the pool of one page with none free, then
    -- close_backing, and open_backing of the same name all return STATUS_OK. The page numbers that
    -- the requests give are those of the pool, and the store that is open stands for the pool at the
    -- end. close_backing and remove_backing then return STATUS_OK, and no file of that name is left.
    pub remove_backing-create_new_backing :
        (reliable : Reliable os doc) (filename : List ℕ) (store spare : Backing) (rs : List Request)
        (w : W)
        → (os.open_file (store_filename filename) create_truncate w).0 ≢ negsuc 0
        → AllAllowed rs new_pool
        → (fd fd' : ℤ) × (w1 w2 w3 w4 w5 w6 : W) × (f' : File) × (create_new_backing filename
              (some store)
              w
            ≡ ret (status_ok, some (record { storefd = fd })) w1)
          × (serve fd rs w1 ≡ ret (map pos (answers rs new_pool)) w2)
          × (close_backing (some (record { storefd = fd })) w2 ≡ ret status_ok w3)
          × (open_backing filename (some spare) w3
              ≡ ret (status_ok, some (record { storefd = fd' })) w4)
          × (doc.file fd' w4 ≡ some f')
          × IsPool f' (after rs new_pool)
          × (close_backing (some (record { storefd = fd' })) w4 ≡ ret status_ok w5)
          × (remove_backing filename w5 ≡ ret status_ok w6)
          × (paths.stored (store_filename filename) w6 ≡ none)
    remove_backing-create_new_backing reliable filename store spare rs w ne allowed =
        let fd = (os.open_file (store_filename filename) create_truncate w).0 in
        let (made, o1) = create_new_backing_run doc reliable filename store w fd refl ne in
        let (w2, w3, w4, fd', f', served, closed, reopened, o4, pool, named) =
          open_backing-serve doc paths available reliable filename spare rs fd
            (created filename fd w) _ new_pool (created-Named filename fd w refl ne) o1
            first-IsStore allowed in
        let (w5, closed', there) =
          close_backing-stored doc paths available fd' (store_filename filename) w4 f' named o4 in
        let (w6, removed, gone) = remove_backing_gone filename w5 f' there in
        (
          fd,
          fd',
          created filename fd w,
          w2,
          w3,
          w4,
          w5,
          w6,
          f',
          made,
          served,
          closed,
          reopened,
          o4,
          pool,
          closed',
          removed,
          gone,
        )
