-- ===== src/FileIo/StoreTests.antt =====
-- Whole stores on a disk, and the theorems at them.
use mathlib.Core.List.{map}
use nickdb.Base.{ℤ, ◌≡◌, refl, none, some, List, [], ◌∷◌, arith, pos}
use nickdb.Constants.{status_ok}
use nickdb.Posix.{File}
use nickdb.Posix.Ram.{ram}
use nickdb.Posix.Disk.{Disk, disk, disk_documented, disk_reliable, disk_paths, disk_reliable_paths}
use nickdb.Proc.{ret}
use nickdb.FileIo.{create_new_backing, open_backing, close_backing, remove_backing, store_filename}
use nickdb.FileIo.Life.{new_pool, remove_backing-create_new_backing}
use nickdb.FileIo.Pages.Client.{serve}
use nickdb.FileIo.Pages.Pool.{take, give, Request, allocate, release, answers, after, AllAllowed}
use nickdb.FileIo.Pages.Refine.{IsPool}
use nickdb.FileIo.Tests.{four_pages, backing, letters}

-- The same session on a disk, and the store opened again.
abbrev shelf : Disk
shelf = record { content = some four_pages; path = store_filename (b'a' ∷ []) }

-- A disk with no file.
abbrev nothing : Disk
nothing = record { content = none; path = [] }

-- Two pages are allocated in a new store, and the first is released.
abbrev new_session : List Request
new_session = allocate letters ∷ allocate letters ∷ release 1 ∷ []

remove_backing-create_new_backing_example :
    (fd fd' : ℤ) × (w1 w2 w3 w4 w5 w6 : Disk) × (f' : File) × (create_new_backing
        (b'a' ∷ [])
        (some backing)
        nothing
      ≡ ret (status_ok, some (record { storefd = fd })) w1)
    × (serve fd new_session w1 ≡ ret (map pos (answers new_session new_pool)) w2)
    × (close_backing (some (record { storefd = fd })) w2 ≡ ret status_ok w3)
    × (open_backing (b'a' ∷ []) (some backing) w3
        ≡ ret (status_ok, some (record { storefd = fd' })) w4)
    × (disk_documented.file fd' w4 ≡ some f')
    × IsPool f' (after new_session new_pool)
    × (close_backing (some (record { storefd = fd' })) w4 ≡ ret status_ok w5)
    × (remove_backing (b'a' ∷ []) w5 ≡ ret status_ok w6)
    × (disk_paths.stored (store_filename (b'a' ∷ [])) w6 ≡ none)
unfolding AllAllowed take give
remove_backing-create_new_backing_example =
    remove_backing-create_new_backing disk_documented disk_paths disk_reliable_paths disk_reliable
      (b'a' ∷ []) backing backing new_session nothing (λ e. cc)
      (omega arith, (omega arith, ((omega arith, omega arith, refl), tt)))
