-- ===== src/FileIo/Pages/Torn.antt =====
-- What alloc_page leaves when the disk refuses the last of its writes.
use native.Mathlib.Nat.{add-zero}
use nickdb.Base.{ℕ, ◌+◌, ◌*◌, ◌≡◌, ◌∙◌, sym, ap, true, some, List, ◌∷◌, arith, leb, pos}
use nickdb.Word.{Buffer, zeros, overwrite, shift, load64}
use nickdb.Word.Fields.{load64-overwrite_inside}
use nickdb.Constants.{page_size, err_set, status_bad_write}
use nickdb.Posix.{File, write_at}
use nickdb.Posix.Ram.{ram_fd}
use nickdb.Posix.Brittle.{Brittle, brittle}
use nickdb.Proc.{ret}
use nickdb.FileIo.{
  sizeof_freepage, size_field, head_field, tail_field, read_or_return, write_or_return,
}
use nickdb.FileIo.Pages.{alloc_free_page, alloc_page}
use nickdb.FileIo.Pages.Metadata.{metadata_field}
use nickdb.FileIo.Pages.Run.{index_to_offset-pos}
use nickdb.FileIo.Pages.Written.{Written, write-Written}
use nickdb.FileIo.Pages.View.{first, IsStore, Chain-write, load64-page_other, size-write_at}

module _ (f : File) (content : Buffer) (n p : ℕ) (free : List ℕ) (st : IsStore f n (p ∷ free)) where
  abbrev torn : File
  torn = write_at f (p * page_size) page_size content

  torn_link : load64 torn.bytes (p * page_size) ≡ load64 content 0
  torn_link =
      ap (load64 torn.bytes) (sym (add-zero (p * page_size)))
      ∙ load64-overwrite_inside f.bytes (p * page_size) page_size content 0 (omega arith)

  torn-IsStore : load64 content 0 ≡ first free → IsStore torn n (p ∷ free)
  torn-IsStore link = record {
    size =
        load64-page_other f.bytes p content 0 size_field (omega (arith, st.distinct.0))
          (omega arith)
        ∙ st.size;
    head =
        load64-page_other f.bytes p content 0 head_field (omega (arith, st.distinct.0))
          (omega arith)
        ∙ st.head;
    tail =
        load64-page_other f.bytes p content 0 tail_field (omega (arith, st.distinct.0))
          (omega arith)
        ∙ st.tail;
    chain = (torn_link ∙ link, Chain-write f.bytes p content free st.distinct.2 st.chain.1);
    distinct = st.distinct;
    some_page = st.some_page;
    few = st.few;
    whole = size-write_at f (p * page_size) page_size content (n * page_size) st.whole;
  }

  alloc_page_run :
      alloc_page {W = Brittle}
        (some content)
        (some (record { storefd = ram_fd }))
        (record { content = some f; writes = 1 })
      ≡ ret (status_bad_write, err_set) (record { content = some torn; writes = 0 })
  unfolding alloc_page alloc_free_page read_or_return write_or_return
  alloc_page_run =
      let head : load64 (overwrite zeros 0 page_size (shift f.bytes 0)) head_field
          ≡ pos (p * page_size) =
        metadata_field f.bytes head_field (omega arith) ∙ st.head in
      let whole : leb (0 + page_size) f.size ≡ true = ground (arith, st.whole, st.some_page) in
      let inside : leb (p * page_size + sizeof_freepage) f.size ≡ true =
        ground (arith, st.whole, st.distinct.1) in
      rw (index_to_offset-pos 0 (omega arith), whole, head, inside)

  -- On a disk that takes one more write and refuses the next: alloc_page with data on a store with a
  -- free page returns STATUS_BAD_WRITE and the index -1, but the data is in the page that is first in
  -- the free list, and the file still stands for the same pool exactly if the data begins with the
  -- link that the page had.
  pub alloc_page-torn :
      (file' : File) × (alloc_page {W = Brittle}
          (some content)
          (some (record { storefd = ram_fd }))
          (record { content = some f; writes = 1 })
        ≡ ret (status_bad_write, err_set) (record { content = some file'; writes = 0 }))
      × Written f file' p content
      × (IsStore file' n (p ∷ free) → load64 content 0 ≡ first free)
      × (load64 content 0 ≡ first free → IsStore file' n (p ∷ free))
  alloc_page-torn = (
    torn,
    alloc_page_run,
    write-Written f p content,
    λ h. sym torn_link ∙ h.chain.0,
    torn-IsStore,
  )
