-- ===== src/FileIo/Tests.antt =====
-- Runs of the page operations on a store in memory, and the theorems at it.
use mathlib.Core.List.{map}
use nickdb.FileIo.Offset.{offset_to_index-index_to_offset}
use nickdb.Base.{
  none, ℤ, ℕ, ◌*◌, ◌<◌, ◌≡◌, refl, ◌≢◌, false, none, some, List, [], ◌∷◌, arith, pos, negsuc,
}
use nickdb.Word.{Buffer, zeros, load64, store64}
use nickdb.Constants.{
  status_no_file, page_size, status_ok, status_bad_read, status_bad_write, status_bad_seek,
}
use nickdb.Posix.{File}
use nickdb.Posix.Ram.{Ram, ram, ram_fd, ram_documented, ram_reliable}
use nickdb.Posix.Disk.{disk}
use nickdb.Proc.{ret, Returns}
use nickdb.FileIo.{offset_to_index, index_to_offset, Backing}
use nickdb.FileIo.Pages.{alloc_page, free_page, get_page, put_page}
use nickdb.FileIo.Pages.Access.{get_page-put_page}
use nickdb.FileIo.Pages.Blank.{alloc_page-not_blank}
use nickdb.FileIo.Pages.Client.{serve, serve-answers}
use nickdb.FileIo.Pages.Errors.{AllocResult, read_metadata, alloc_page-AllocResult}
use nickdb.FileIo.Pages.Results.{PageResult, OneOf, Loaded, page_calls-Returns}
use nickdb.FileIo.Pages.Fifo.{nth, serve-nth}
use nickdb.FileIo.Pages.Free.{Kept, free_page-twice}
use nickdb.FileIo.Pages.Pool.{
  Pool, take, give, IsLive, Request, allocate, release, answers, after, AllAllowed,
}
use nickdb.FileIo.Pages.Refine.{IsPool, alloc_page-take, free_page-give}
use nickdb.FileIo.Pages.Run.{Yields}
use nickdb.FileIo.Pages.View.{page, has, IsStore}
use nickdb.FileIo.Pages.Written.{Written}

-- Four pages: 1 and 2 are free, in this order, and 3 is in use.
abbrev pub four_pages : File
four_pages = record {
  bytes =
      store64
        (store64 (store64 (store64 (store64 zeros 0 (pos 4)) 8 (pos 4096)) 16 (pos 8192)) 4096
          (pos 8192))
        8192 (negsuc 0);
  size = 16384;
}

abbrev pub backing : Backing
backing = record { storefd = ram_fd }

abbrev pub four : Pool
four = record { pages = 4; free = 1 ∷ 2 ∷ [] }

pub four_pages-IsStore : IsStore four_pages 4 (1 ∷ 2 ∷ [])
unfolding load64 store64
four_pages-IsStore = record {
  size = refl;
  head = refl;
  tail = refl;
  chain = (refl, (refl, tt));
  distinct = (omega arith, omega arith, refl, (omega arith, omega arith, refl, tt));
  some_page = omega arith;
  few = omega arith;
  whole = omega arith;
}

-- One page, the metadata page.
abbrev pub one_page : File
one_page = record {
  bytes = store64 (store64 (store64 zeros 0 (pos 1)) 8 (negsuc 0)) 16 (negsuc 0);
  size = 4096;
}

pub one_page-IsStore : IsStore one_page 1 []
unfolding load64 store64
one_page-IsStore = record {
  size = refl;
  head = refl;
  tail = refl;
  chain = tt;
  distinct = tt;
  some_page = omega arith;
  few = omega arith;
  whole = omega arith;
}

abbrev pub letters : Buffer
letters _ = 65

alloc_page-take_example :
    Yields ram_documented ram_fd
      (alloc_page (some letters) (some backing) (some four_pages))
      (status_ok, pos (take four).0)
      (λ f'.
        IsPool f' (take four).1
        × IsLive (take four).1 (take four).0
        × Written four_pages f' (take four).0 letters)
alloc_page-take_example =
    alloc_page-take ram_documented ram_reliable ram_fd letters (some four_pages) four_pages four
      refl four_pages-IsStore (omega arith)

free_page-give_example :
    Yields ram_documented ram_fd
      (free_page (some backing) (pos 3) (some four_pages))
      status_ok
      (λ f'. IsPool f' (give 3 four) × Kept four_pages f' 3 (1 ∷ 2 ∷ []))
free_page-give_example =
    free_page-give ram_documented ram_reliable ram_fd (some four_pages) four_pages four 3 refl
      four_pages-IsStore (omega arith, omega arith, refl)

-- Page 3 is released, then three pages are asked for.
abbrev pub session : List Request
session = release 3 ∷ allocate letters ∷ allocate letters ∷ allocate letters ∷ []

serve-answers_example :
    Yields ram_documented ram_fd
      (serve ram_fd session (some four_pages))
      (map pos (answers session four))
      (λ f'. IsPool f' (after session four))
unfolding AllAllowed take give
serve-answers_example =
    serve-answers ram_documented ram_reliable ram_fd session (some four_pages) four_pages four refl
      four_pages-IsStore
      ((omega arith, omega arith, refl), (omega arith, (omega arith, (omega arith, tt))))

answers-session : answers session four ≡ 1 ∷ 2 ∷ 3 ∷ []
unfolding answers take give
answers-session = refl

get_page-put_page_example :
    (w1 w2 : Ram) × (f' : File) × (d : Buffer) × (put_page letters
        (some backing)
        (pos 3)
        (some four_pages)
      ≡ ret status_ok w1)
    × (get_page zeros (some backing) (pos 3) w1 ≡ ret (status_ok, d) w2)
    × (ram_documented.file ram_fd w2 ≡ some f')
    × Written four_pages f' 3 letters
    × ((i : ℕ) → i < page_size → d i ≡ letters i)
get_page-put_page_example =
    get_page-put_page ram_documented ram_reliable ram_fd letters zeros (some four_pages) four_pages
      3 refl (omega arith) (omega arith)

alloc_page-not_blank_example :
    Yields ram_documented ram_fd
      (alloc_page none (some backing) (some four_pages))
      (status_ok, pos 1)
      (λ f'.
        Written four_pages f' (1 * page_size) zeros
        × (load64 (page f'.bytes 1) 0 ≢ pos 0)
        × (has (1 * page_size) (2 ∷ []) ≡ false → IsStore f' 4 (2 ∷ [])))
alloc_page-not_blank_example =
    alloc_page-not_blank ram_documented ram_reliable ram_fd (some four_pages) four_pages 4 1
      (2 ∷ []) refl four_pages-IsStore (omega arith)

free_page-twice_example :
    Yields ram_documented ram_fd
      (free_page (some backing) (pos 1) (some four_pages))
      status_ok
      (λ f'. IsStore f' 4 (1 ∷ []))
free_page-twice_example =
    free_page-twice ram_documented ram_reliable ram_fd (some four_pages) four_pages 4 1 (2 ∷ [])
      refl four_pages-IsStore

alloc_page-AllocResult_example :
    (Returns
      (λ r _. AllocResult (some letters) (read_metadata backing (some four_pages)) r)
      (alloc_page (some letters) (some backing) (some four_pages)))
    × (alloc_page (some letters) none (some four_pages)
        ≡ ret (status_no_file, negsuc 0) (some four_pages))
unfolding load64 store64 index_to_offset
alloc_page-AllocResult_example =
    alloc_page-AllocResult (some letters) backing (some four_pages) (omega arith) (omega arith)

page_calls-Returns_example :
    (Returns
      (λ s _. PageResult false (some backing) (OneOf status_bad_read status_bad_write) s)
      (free_page (some backing) (pos 1) (some one_page)))
    × (Returns
        (λ r _. Loaded false (some backing) zeros r)
        (get_page zeros (some backing) (pos 1) (some one_page)))
    × (Returns
        (λ s _. PageResult false (some backing) (OneOf status_bad_seek status_bad_write) s)
        (put_page letters (some backing) (pos 1) (some one_page)))
page_calls-Returns_example =
    page_calls-Returns letters zeros (some backing) (pos 1) (some one_page) (omega arith)

serve-nth_example :
    (out : List ℤ) × (w' : Ram) × (serve ram_fd session (some four_pages) ≡ ret out w')
    × (nth 1 out ≡ some (pos 2))
unfolding AllAllowed take give
serve-nth_example =
    serve-nth ram_documented ram_reliable ram_fd session (some four_pages) four_pages 4 (1 ∷ []) []
      2 refl four_pages-IsStore
      ((omega arith, omega arith, refl), (omega arith, (omega arith, (omega arith, tt))))
      (omega arith)

offset_to_index-index_to_offset_example : offset_to_index (index_to_offset (negsuc 6)) ≡ negsuc 6
offset_to_index-index_to_offset_example = offset_to_index-index_to_offset (negsuc 6) (omega arith)
