-- ===== src/Programs/Pass.antt =====
-- Both test programs pass on a disk without failures.
use nickdb.Base.{
  ℕ, zero, suc, ◌+◌, ◌<◌, ◌≡◌, refl, ◌≢◌, ◌∙◌, none, some, [], true, ==_refl, arith, pos, negsuc,
}
use nickdb.Word.{Buffer, zeros, overwrite}
use nickdb.Constants.{page_size, status_ok, status_code}
use nickdb.Posix.{Posix, Documented, Reliable, create_truncate, write_at}
use nickdb.Posix.Paths.{Paths, ReliablePaths}
use nickdb.Proc.{ret}
use nickdb.Proc.Keeps.{Keeps-ret}
use nickdb.FileIo.{store_filename, first_metadata}
use nickdb.FileIo.Create.{created, empty_file, first-IsStore, create_new_backing_run}
use nickdb.FileIo.Life.{created-Named, remove_backing_gone}
use nickdb.FileIo.Pages.{alloc_page, get_page}
use nickdb.FileIo.Pages.Access.{get_page-page, filled_byte}
use nickdb.FileIo.Pages.Keep.{alloc_page-Keeps, get_page-Keeps}
use nickdb.FileIo.Pages.Pool.{take}
use nickdb.FileIo.Pages.Refine.{alloc_page-take}
use nickdb.FileIo.Pages.View.{page}
use nickdb.FileIo.Reopen.{
  Named, Named-reads, Named-writes, close_backing-stored, open_backing-stored,
}
use nickdb.Programs.{testfilename, teststore, first_src, pages_match, fileiotest, pageiotest}

module _ {W : Type 0} ⦃os : Posix W⦄ (doc : Documented os) (paths : Paths os doc)
    (reliable : Reliable os doc) (rel : ReliablePaths os doc paths) where
  -- On a disk without failures where the file can be created, src/tests/fileiotest.c returns
  -- STATUS_OK, and no file of that name is left.
  pub fileiotest-passes :
      (w : W)
      → (os.open_file (store_filename testfilename) create_truncate w).0 ≢ negsuc 0
      → (w' : W) × (fileiotest w ≡ ret status_ok w')
        × (paths.stored (store_filename testfilename) w' ≡ none)
  unfolding fileiotest
  fileiotest-passes w ne =
      let fd = (os.open_file (store_filename testfilename) create_truncate w).0 in
      let w1 = created testfilename fd w in
      let (made, o1) =
        create_new_backing_run doc reliable testfilename (record { storefd = pos 0 }) w fd refl
          ne in
      let (w2, closed, s2) =
        close_backing-stored doc paths rel fd (store_filename testfilename) w1 _
          (created-Named doc paths testfilename fd w refl ne) o1 in
      let (w3, fd3, opened, o3, n3) =
        open_backing-stored doc paths rel testfilename (record { storefd = pos 0 }) w2 _ s2 in
      let (w4, closed4, s4) =
        close_backing-stored doc paths rel fd3 (store_filename testfilename) w3 _ n3 o3 in
      let (w5, removed, gone) = remove_backing_gone doc paths rel testfilename w4 _ s4 in
      (w5, rw (made, closed, opened, closed4, removed), gone)

pages_match-same :
    (k i : ℕ) (a b : Buffer) → ((n : ℕ) → n < i + k → b n ≡ a n) → pages_match k i a b ≡ true
unfolding pages_match
pages_match-same zero i a b h = refl
pages_match-same (suc k) i a b h =
    rw (h i (omega arith), ==_refl (a i))
      (pages_match-same k (suc i) a b (λ n lt. h n (omega (arith, lt))))

module _ {W : Type 0} ⦃os : Posix W⦄ (doc : Documented os) (paths : Paths os doc)
    (reliable : Reliable os doc) (rel : ReliablePaths os doc paths) where
  -- On a disk without failures where the file can be created, src/tests/pageiotest.c returns 0, and
  -- no file of that name is left.
  pub pageiotest-passes :
      (w : W)
      → (os.open_file (store_filename teststore) create_truncate w).0 ≢ negsuc 0
      → (w' : W) × (pageiotest w ≡ ret (pos 0) w')
        × (paths.stored (store_filename teststore) w' ≡ none)
  unfolding pageiotest take status_code
  pageiotest-passes w ne =
      let fd = (os.open_file (store_filename teststore) create_truncate w).0 in
      let path = store_filename teststore in
      let w1 = created teststore fd w in
      let (made, o1) =
        create_new_backing_run doc reliable teststore (record { storefd = pos 0 }) w fd refl ne in
      let f1 = write_at empty_file 0 page_size first_metadata in
      let (w2, f2, alloc, o2, (pool, _, written)) =
        alloc_page-take doc reliable fd first_src w1 f1 (record { pages = 1; free = [] }) o1
          first-IsStore (omega arith) in
      let named2 =
        Keeps-ret (Named doc paths fd path)
          (alloc_page (some first_src) (some (record { storefd = fd })) w1)
          (alloc_page-Keeps (Named doc paths fd path) (Named-reads doc paths fd path)
            (Named-writes doc paths fd path) (some first_src) (some (record { storefd = fd })) w1
            (created-Named doc paths teststore fd w refl ne))
          alloc in
      let (w3, f3, got, o3, e3) =
        get_page-page doc reliable fd zeros w2 f2 1 o2 (omega arith) (omega arith) pool.whole in
      let named3 =
        Keeps-ret (Named doc paths fd path)
          (get_page zeros (some (record { storefd = fd })) (pos 1) w2)
          (get_page-Keeps (Named doc paths fd path) (Named-reads doc paths fd path) zeros
            (some (record { storefd = fd })) (pos 1) w2 named2)
          got in
      let same : pages_match page_size 0 first_src (overwrite zeros 0 page_size (page f2.bytes 1))
          ≡ true =
        pages_match-same page_size 0 first_src _ λ n lt.
          filled_byte zeros (page f2.bytes 1) n (omega (arith, lt))
          ∙ written.own n (omega (arith, lt)) in
      let (w4, closed, s4) = close_backing-stored doc paths rel fd path w3 f3 named3 o3 in
      let (w5, removed, gone) = remove_backing_gone doc paths rel teststore w4 f3 s4 in
      (w5, rw (made, alloc, got, same, closed, removed), gone)
