-- ===== src/Lib.antt =====
-- A verification library for the operating system exercises of this repository: the kernel of
-- xv6-Lottery-Scheduler-Offline-03 (xv6 for RISC-V with a lottery scheduler) and its `grep`, the page
-- allocator and the system call dispatch of xv6-System-Call-Offline-02, and the thread exercises in
-- C of Pthread-Synchronization-Offline-04.
--
-- The parts and the files that model them (paths of the repository; K stands for
-- xv6-Lottery-Scheduler-Offline-03/kernel):
--
--   Random    K/random.c: `random` and `randomrange`. The four static words are a record that
--             is passed on.
--   Proc      K/proc.h, K/param.h and K/proc.c. The process table is a list of records, a
--             `struct proc *` is an index, and null is `none`. Proc.Kernel holds the state that
--             the functions share, and the calls of kalloc.c, vm.c, file.c and fs.c as the
--             parameter `Resources`, of which nothing is assumed. Proc.Sleep has wakeup, sleep,
--             yield, kill, setkilled and killed; Proc.Life has allocproc, freeproc, fork,
--             reparent, exit and wait. Proc.Ids, Proc.Orphans and Proc.Child are proofs about
--             them. Each function is one step, up to its `sched` where it has one: the Makefile
--             runs one CPU, and the locks only keep others out.
--   Lottery   K/proc.c: get_total_runnable_tickets, one round of the loop of `scheduler` up to
--             its `swtch`, settickets and getpinfo. The search for the winner is written apart
--             from the reset of the tickets and from the switch, and `round` joins them. It takes
--             its random numbers from Random and its table from Proc.
--   Kalloc    kalloc.c of xv6-System-Call-Offline-02/kernel, whose first 82 lines are those of
--             K/kalloc.c: the free list as a `next` word for each page.
--   Pipe      K/pipe.c: the ring of 512 bytes with its two wrapping counters. A call runs until
--             it returns or sleeps.
--   Strings   K/string.c on a memory of bytes.
--   Log       K/log.c: the write-ahead log, over a cache and a disk that may lose power after
--             any number of block writes. The layout of the log header in a block is a
--             parameter with the law that a header that is written can be read back.
--   Bcache    K/bio.c: the list of buffers in the order of their use, with the sleep lock of each
--             (K/sleeplock.c). A buffer's address is its `id`.
--   Spinlock  K/spinlock.c: the locks and the nesting of sections with interrupts off, for any CPU.
--   Files     K/file.c: the reference counts of the open files, and reading and writing over the
--             calls of pipe.c, fs.c and the devices, which are a parameter.
--   Workers   Pthread-Synchronization-Offline-04/master-worker/master-worker.c: the shared
--             variables and the place of each thread. What a thread does with the mutex held is
--             one step, and a run is a list of the threads that take steps.
--   Vm        K/vm.c: the page tables of the processes. Vm.Pages maps and unmaps pages, Vm.Space
--             grows, copies and frees an address space, and Vm.User copies to and from it. Vm.View is
--             the abstract view, a map from page numbers to entries. A page that is freed is filled
--             as `kfree` does it. The flags of `perm` are below bit 10, as in the source.
--   Fs        K/fs.c: the bitmap of blocks, the block map of an inode (Fs.Inode) and the names of a
--             path (Fs.Path). A block is its bits, and is read and written in place; what the cache
--             and the log do with it stands in Bcache and Log.
--   Grep      xv6-Lottery-Scheduler-Offline-03/user/grep.c: the matcher, and the loop over the input,
--             with `read` as a parameter.
--   Toggle    Pthread-Synchronization-Offline-04/zemaphore: the semaphore and the three threads of
--             test-toggle.c with the rounds of `main` that create them, as a relation of steps.
--   Syscall   xv6-System-Call-Offline-02/kernel/syscall.c, sysproc.c and aliveproc of proc.c: the
--             dispatch with its tracing, where the other system calls are a parameter and need not
--             return, and in Syscall.Fetch how arguments in the user's memory are read.
--   Prelude   the names the others share, list lemmas, and 32-bit words.
--
-- A C `int` is its 32-bit pattern, and arithmetic on it wraps. Loops over a table are recursion
-- on a list. The loops over the page list and over a string run on fuel: `kinit` needs fuel for
-- every page below PHYSTOP, `freemem` for one more than the free pages, and `strlen` for one more
-- than the length, and the theorems ask for no more. The loop of `filewrite` runs on one fuel for
-- each byte, since each round that goes on writes at least one, and so
-- do those of `copyin` and its kin. `mappages` needs fuel for each page of the range, `balloc` for
-- each block of the bitmap, and `grep` for each byte of its input.
--
-- Not modelled: most system calls, the kernel's own page table, directories and inodes on disk,
-- program loading, traps, the devices, the barber shop, the other user programs, the C++ readers
-- and writers, the copy-on-write patch, and the shell scripts. Locks are not part of the state of
-- the process table, and `bpin` counts not of the log's.
mod Prelude
pub mod Proc
pub mod Random
pub mod Lottery
pub mod Kalloc
pub mod Pipe
pub mod Strings
pub mod Log
pub mod Bcache
pub mod Spinlock
pub mod Files
pub mod Workers
pub mod Vm
pub mod Grep
pub mod Fs
pub mod Toggle
pub mod Syscall
