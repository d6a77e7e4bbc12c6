-- ===== src/Lib.antt =====
-- Winix, a small Unix-like kernel for the WRAMP board: its core logic, modelled from the C source.
--
-- The program. The kernel runs at most ten processes in 128 pages of 1024 words. Memory is handed
-- out by a bitmap of pages; processes wait for the processor on five ready queues; timers wait on a
-- list that the clock interrupt looks at; signals are bits of a word in each process; messages carry
-- system calls; a disk in memory is read through a cache of blocks. The parts of the kernel meet in
-- `struct proc` (include/kernel/proc.h): each part's model has the fields that the part uses.
--
-- Bitmap (winix/bitmap.c): arrays of 32-bit words with bit 31 - p % 32 of word p / 32 for place p.
--   Each function is a definition of its name on the list of words; its loops are recursions on the
--   number of rounds left. Bitmap/Masks, Update, Search, Reverse and Count prove what they do in
--   terms of one predicate, `page_on`. bitmap_set_pattern and get_mask are not modelled.
-- Mm (winix/mm.c): `Mem` is the static mem_map and bss_page_end, `Image` the fields of a process
--   that the file uses. Every operation is modelled; a result of `none` is a read outside an array.
--   Mm/Alloc, Release, Region and User are about the operations of these names.
-- Ready (kernel/proc.c and kernel/sched.c): the ready queues, singly linked through the process
--   table. Pointers are numbers and NULL is 0; the links are a function of the pointer, as a store
--   that all queues share. Ready/Chain says what a queue stands for; Laws, Remove, Tail and Pick
--   are about enqueue and dequeue, dequeue_schedule, and the whole table with pick_proc.
-- Timer (winix/timer.c, do_ticks of kernel/clock.c, kernel/system/do_alarm.c): the sorted list of
--   timers with next_timeout, in the same store of links. What a handler does is a parameter.
-- Signal (lib/posix/_sigset.c, is_sigpending of kernel/signal.c, kernel/system/do_sigaction.c,
--   do_sigprocmask.c, do_sigpending.c and do_sigsuspend.c): signal sets bit by bit, the choice of the
--   next signal, and the system calls that change masks and actions. The address checks are Mm's.
-- Brk (kernel/system/do_brk.c): the heap of a process over Mm; Brk/Pages, Grow and Shrink are about
--   the pages it takes and the two directions in which the break moves.
-- Filp (fs/filp.c, sys_dup of fs/system/dup.c): the table of open files and the descriptors of a
--   process; a pointer to a file is its index.
-- Wait (do_waitpid of kernel/system/do_exit_wait.c, do_setpgid.c, do_getpgid.c and do_setsid.c beside
--   it): the process table as a function of the number of the process.
-- Strings (lib/ansi/string.c): every function on a memory of words, a function of the address. Fuel
--   stands for the length of what is scanned; the theorems ask for more fuel than the string is long.
-- Print (winix/sys_stdio.c, lib/stdlib/atoi.c): the conversions of numbers to text on the memory of
--   Strings, and atoi; Print/Value says which number digits stand for, Hex, Decimal and Atoi are
--   about the functions. Ten decimal digits and a last round give the fuel of eleven.
-- Format (winix/sys_stdio.c): kprintf_vm over Print, with its buffer of 64 words. The device is a
--   parameter: a function of what is written and its state. Format/Words and Buffering are about
--   the buffer, Direct compares with printing without one, Serial and Number take a serial port as the
--   device.
-- Tty (driver/tty.c): tty_write_rex, the write to a serial port. The rest of the driver is not modelled.
-- Cache (fs/cache.c, the block device of fs/rootfs.c): four buffers of 1024 words, the list of those
--   that are not held, and the disk of 50 blocks. There is one block device, so that a device is NULL
--   or stands for it; reading through NULL is `none`. Cache/View says what a state stands for: the
--   contents of each block. Chain and Remove are about the list, Disk, Written and Load about moving blocks, Get, Put, Flush
--   and Init about the operations.
-- Ipc (kernel/wini_ipc.c, set_reply_res_errno of kernel/system.c): the messages of processes, with
--   the queue of senders of each and Ready's queues. Process number i is given as i + 1. The lists of
--   notifications are those of include/winix/list.h, whose functions are parameters. Queued says what
--   a well-formed state is; Block, Send, Receive, Exchange and Notify are about the operations.
-- Path (get_name of fs/path.c, fs/util.c): taking the next name off a path and the strings of names,
--   on the memory of Strings. The loop over leading slashes has no bound and takes fuel; the others
--   end at PATH_MAX. Path/Name is about get_name.
-- Pipe (fs/system/pipe.c): the data of a pipe, with _pipe_read, _pipe_write and shift_pipe_data; what
--   waits for a pipe is not modelled. Pipe/Fifo is about the queue that it is.
-- Errno holds the return codes; Prelude the shared operators and the lemmas on lists and bits.
--
-- Machine words are natural numbers with wrap-around written out; an `int` that can be negative is
-- its 32-bit word. A walk along links has fuel one above the number of list members that the kernel
-- has room for (ten processes, eleven timers); it runs out only on a cycle, and the theorems that say
-- an operation returns show that it is enough.
--
-- Not modelled: process creation and exit, delivery of signals on the user stack, inodes, the walk
-- along a path, the system calls on files but dup, the superblock, the slab allocator, the rest of
-- the C library; exceptions, the other devices and assembly, which are hardware; the user programs;
-- vendored code (lib/regex, include/winix/list.h).
mod Prelude
pub mod Errno
pub mod Bitmap
pub mod Mm
pub mod Ready
pub mod Timer
pub mod Signal
pub mod Strings
pub mod Brk
pub mod Filp
pub mod Wait
pub mod Print
pub mod Format
pub mod Cache
pub mod Ipc
pub mod Path
pub mod Pipe
pub mod Tty
