-- ===== src/Lib.antt =====
-- A model of the Pintos kernel of pintos/src: its scheduler, its synchronization, its memory and swap
-- allocators, its page tables, its file system, its page replacement, the loader of programs, parts of its
-- processes and system calls, and the library routines that these stand on. C functions are
-- functions of the same name, with the state they change passed in and out; `none` is a failed ASSERT, a
-- PANIC or NOT_REACHED unless a file says otherwise. Machine words are numbers with the wrap written out.
--
-- Parts and files (the paths are below pintos/src):
-- * Bitmap is lib/kernel/bitmap.c: `struct bitmap` is the record Bitmap, its words a list of 32-bit
--   numbers. Bitmap/Bit relates the mask arithmetic to single bits, Bitmap/Range has the loops over a
--   range, Bitmap/Scan the search. The page, swap and sector allocators all search and set bits with it.
-- * Palloc is threads/palloc.c: the pools are a base address and a bitmap. What a page holds is left out.
--   Palloc/OnePool is about one pool, Palloc/Laws about the allocator of both.
-- * Malloc is threads/malloc.c on Palloc: descriptors by index, arenas by address. Malloc/Blocks and Outcome
--   are about blocks of an arena in use, Fresh about new arenas, Big about blocks of whole pages, Laws
--   about `malloc` with `free`, Init about `malloc_init`.
-- * Pagedir is userprog/pagedir.c with threads/pte.h and threads/vaddr.h, on the words of memory and Palloc.
--   Pagedir/Words is about entries, Lookup and Create about finding and making page tables, Poke about a
--   changed entry, Laws about mapping and clearing, Bits about the accessed and dirty bits.
-- * Spt is the table of vm/page.c, on Hash; Loader is the part of `load` of userprog/process.c that reads an
--   executable, on Spt and FileSys/File. Loader/Validate is about `validate_segment`, Segment about
--   `load_segment`, Image about what a segment becomes in memory.
-- * Block is the part of devices/block.c that moves sectors. Swap is vm/swap.c, on a bitmap and a block
--   device. FileSys/FreeMap is filesys/free-map.c, FileSys/Inode is filesys/inode.c: inodes in memory, the
--   list of open ones, the free map and the device.
-- * FileSys/Directory is filesys/directory.c: a directory is an inode that holds entries of 20 bytes.
--   Directory/Entries relates the bytes to entries, Lookup and Add have the proofs of the two loops.
--   FileSys/File is filesys/file.c, the position and the denial of writes on top of an inode.
--   FileSys/Names is the part of filesys/filesys.c that goes by names.
-- * KernelList is the ordered operations of lib/kernel/list.c, on the sequence that a list holds;
--   KernelList/Order is about inserting, KernelList/Extremes about the greatest and the least element,
--   KernelList/Merge and Sort about the merge sort.
-- * Hash is lib/kernel/hash.c: buckets by index. Hash/Find is about one bucket, Hash/Table about all of
--   them, Hash/Laws about looking up after a change, Hash/Iterate about the iterator.
-- * Arithmetic is lib/arithmetic.c, the division of 64-bit words by 32-bit ones: Arithmetic/Small for a
--   divisor of 32 bits, Large for a larger one, Signed for signed words.
-- * Stdlib is the sort and the search of lib/stdlib.c; Stdlib/Heap sifts down, Stdlib/HeapSort sorts,
--   Stdlib/BinarySearch searches, Stdlib/Atoi is `atoi`.
-- * Stdio is lib/stdio.c: Stdio/Integer formats a number, Parse reads a conversion, Printf is the loop over
--   the format. Stdio/RoundTrip goes on to `atoi`, Buffer is about `vsnprintf`, Width about widths.
-- * Frame is vm/frame.c: the list of pages in memory and the clock that goes around it. Frame/Clock is
--   about a step of the clock, Frame/Victim about the page that it finds.
-- * Process is `construct_ESP` of userprog/process.c: Process/Push is about what memory holds after the
--   copies, Process/Arguments about the stack that the program finds.
-- * Syscall is the calls on files and numbers of userprog/syscall.c, on FileSys/Names and FileSys/File;
--   Syscall/Table is about the table of open files, Syscall/Fibonacci about its matrix power.
-- * Thread is threads/thread.c and the timer interrupt of devices/timer.c: the record Kernel has the
--   variables of thread.c and the threads by address. Thread/Schedule switches, Thread/Sleep is sleeping
--   and waking, Thread/Tick the timer tick with aging and the feedback queue scheduler (on FixedPoint,
--   which is lib/kernel/arith_fp.c), Thread/Create makes threads. Thread/Valid states the invariant of the
--   ready and sleeping lists, Thread/Placed the place of a thread in a list; Thread/Switch, Block, Yield, WakeUp, Recalculate, Priority and Starvation
--   hold the proofs.
-- * Synch is threads/synch.c on top of Thread. Synch/Laws follows one operation through the scheduler,
--   Synch/Exclusion any interleaving of many threads that take and release one lock.
-- * Intq is devices/intq.c, the interrupt queue. Cstring is lib/string.c.
-- * Common has lists, integers, bits, tests and ASSERT; Tests has runs at concrete inputs.
--
-- Loops over memory that only the data ends (C strings, reading and writing a file) run on fuel. A string
-- loop is given more fuel than the string has characters; the loops of inode.c one round more than the
-- bytes asked for, as every round moves at least one; `list_sort` one pass more than the list is long; the
-- loops over a directory one round more than its entries; sifting down and `binary_search` one round more
-- than the elements; `get_victim` one step more than the pages, as every step clears an accessed bit; the
-- loop of `rehash` one round for every unit, as every round makes the number smaller; the digits of a
-- number one round for every unit of its value; `vprintf` one round more than the format has characters;
-- `load_segment` one round for each page. Other loops run on
-- the number of rounds that their bounds give.
--
-- Threads: the build without USERPROG is modelled, whose `sema_up` yields and which has aging. An
-- operation runs with interrupts off up to where it gives the CPU away, as the code arranges it, so it is
-- one step; an operation that waits is its rounds.
--
-- Not modelled: device drivers, the boot loader, interrupt and segment set-up, and exceptions; the stack page
-- and the waiting of processes, and the dispatch and the pointer checks of system calls; formatting and
-- start-up of the file system; the locks around the file system, the list of pages and the blocks; the
-- console, random.c, and the pointer level of list.c. They work on ports, registers and stacks of the
-- hardware, or are left for later. Drivers are taken by what they answer.
pub mod Arithmetic
pub mod Bitmap
pub mod Block
pub mod Common
pub mod Cstring
pub mod FileSys
pub mod FixedPoint
pub mod Frame
pub mod Hash
pub mod Intq
pub mod KernelList
pub mod Loader
pub mod Malloc
pub mod Pagedir
pub mod Palloc
pub mod Process
pub mod Spt
pub mod Stdio
pub mod Stdlib
pub mod Swap
pub mod Synch
pub mod Syscall
pub mod Tests
pub mod Thread
