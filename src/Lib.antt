-- ===== src/Lib.antt =====
-- A model of nickdb (src/, tests/): a file of pages with a list of free pages, a buffer manager that
-- keeps pages in frames, and the beginnings of a B-tree on top of it. The B-tree pins frames, the
-- buffer manager reads and writes pages, and the file store alone makes system calls.
--
-- Which file models what:
-- - Constants.antt: src/lib/constants.h and src/lib/constants.c, the sizes, the enumerations and the
--   table of status names.
-- - FileIo.antt: src/lib/fileio.h, and in src/lib/fileio.c the functions on whole stores:
--   create_new_backing, open_backing, close_backing, remove_backing, index_to_offset and
--   offset_to_index. FileIo/Pages.antt: alloc_page, free_page, get_page and put_page.
-- - FileIo/Pages/Pool.antt: the pool that a store stands for, a first-in, first-out queue of free
--   page numbers below the number of pages. FileIo/Pages/View.antt: the relation between a file and
--   a pool. FileIo/Pages/Errors.antt and FileIo/Pages/Results.antt: what the operations return on
--   any system. FileIo/Pages/Attempt.antt and the files below it: the operations on a disk that may
--   have I/O errors; FileIo/Pages/Torn.antt: on a disk that refuses a write. FileIo/Life.antt: a
--   store from its creation to its removal. The other files in FileIo/Pages/ hold the lemmas and
--   theorems on the operations.
-- - BufferManager.antt: src/lib/buffer_manager.h, and in src/lib/buffer_manager.c the two index
--   functions, buff_mark_page, buff_unpin and buff_pin. BufferManager/Calls.antt: buff_create,
--   buff_destroy, buff_alloc_frame, buff_free_frame and buff_flush_all. BufferManager/Lists.antt: the
--   relation between a manager and its two lists, with the states of their frames. buff_pin leaves a
--   pinned frame first in the free list, so that the relation holds of a manager before it is used;
--   BufferManager/Pointers.antt has the weaker one that all later states meet.
--   BufferManager/Flush.antt and the files below it: the write-back, without and with I/O errors.
--   BufferManager/Steps.antt: what a program does with a manager, as a step relation.
--   BufferManager/Invariant.antt: what a property of managers needs in order to hold after every
--   step; BufferManager/Pointers.antt and BufferManager/Invariant/Sole.antt have two such properties.
--   BufferManager/Round.antt: a page pinned, changed, marked and unpinned; BufferManager/Reopen.antt:
--   the same with the write-back, and the store closed and opened again.
-- - BTree.antt and BTree/Layout.antt: in src/lib/datastructures/btree.c and btree.h the
--   configuration, the places in a node, btree_default_cmp_keys, btree_alloc_node, btree_free_node,
--   btree_create, btree_open, btree_remove and btree_insert_record_value. BTree/Keys.antt:
--   btree_get_key_sep_size. BTree/Create.antt and the files below it and BTree/Nodes.antt: theorems
--   on them. BTree/Separators.antt: btree_insert_sep_value. BTree/Insert.antt: btree_insert and
--   btree_destroy.
-- - Programs.antt: the test programs tests/fileiotest.c and tests/pageiotest.c.
-- - Posix.antt: the system calls open, close, remove, pread, pwrite and lseek. GLib.antt: the calls of
--   the hash table. Both are records of operations with a record of documented laws; Posix/Ram.antt,
--   Posix/Disk.antt, Posix/Brittle.antt, which refuses writes after some, and BufferManager/Table.antt
--   have instances in memory. Posix/Paths.antt: what is documented of the names of files.
-- - Proc.antt: runs of C code. Base.antt and Word.antt: numbers, bytes and 64-bit words.
--
-- How the code is read:
-- - A run takes the state of the system and returns a value with the next state, is undefined
--   (`fault`: a NULL or wild pointer is followed, or a pointer freed that was not allocated), or runs
--   out of fuel. In the body of a function, an early return is a value of its own (`leave`).
-- - A buffer is a function from addresses to bytes, a word is read from and written to eight bytes of
--   it, the lowest first. Signed 64-bit arithmetic is wrapped where C is undefined; a theorem that says
--   that a call is not undefined behaviour asks for pages whose offsets fit 64 bits. One that follows
--   calls that return, on any system, speaks of the wrapped arithmetic.
-- - A pointer into the two arrays of a buffer manager is an address, 0 is NULL, and whether it leads
--   to an element is computed from where the array begins and how many elements it has. Other
--   pointers that may be NULL are an `Option`, and what is stored through a pointer is returned.
-- - Addresses of local variables and of new allocations that the code uses as keys of the hash table
--   are arguments of the functions. calloc is taken to succeed.
-- - The loop of buff_flush_all and buff_destroy runs on fuel, one more than there are frames: a list
--   without a cycle has no more elements than that. The loop of btree_insert_sep_value has two more
--   than there are bytes in the buffer: each round moves on in it.
-- - memcmp and the comparator of a tree are arguments of the functions that call them.
--
-- Not modelled: src/lib/datastructures/linkedlist.h, a copy of the list header of the Linux kernel that
-- nothing includes; src/nickdb.c, which prints a greeting; what the programs print; the functions that
-- src/lib/datastructures/btree.h declares and btree.c does not define.
pub mod Base
pub mod Word
pub mod Constants
pub mod Posix
pub mod Proc
pub mod GLib
pub mod FileIo
pub mod BufferManager
pub mod BTree
pub mod Programs
