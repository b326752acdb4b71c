-- ===== src/Lib.antt =====
-- A verification library for the xv6-64 operating system of this repository, a Unix-like kernel for
-- x86-64 with user programs, to which kernel threads, asynchronous reads and coroutines were added.
--
-- The program. User programs call the kernel through syscall.c. proc.c keeps the table of processes
-- and schedules them; a process waits in sleep, for a child, a pipe or a disk block, and wakeup
-- makes it runnable again. Files (file.c, sysfile.c) are pipes (pipe.c) or inodes (fs.c), and the
-- inodes stand on blocks that the buffer cache (bio.c) holds and the log (log.c) writes in
-- transactions, so that a crash never leaves half of a system call on the disk. Physical memory
-- comes in pages from kalloc.c. In user space, coroutine.c switches between stacks within one
-- process, grep.c searches lines for an expression, and sh.c reads commands.
--
-- The files, each with the functions of one source file and, in a folder of its name, the theorems.
-- Prelude: tests on numbers and lists indexed by numbers.
-- Log: log.c. The blocks that bread returns are a function, the view; the block writes of a call are
--   a list in their order, and a disk is what a list of writes makes of it. A crash is any prefix of
--   the list. Log/Space takes begin_op, log_write and end_op as steps of a history.
-- Proc: proc.c with its table as a list, for what happens under its lock: allocproc, fork, exit,
--   wait, scheduler, sleep, wakeup, kill, yield, and kernel threads.
-- Aio: the asynchronous reads of proc.c, sys_aread and the thread that serves them.
-- Pipe: pipe.c. A call is cut where it sleeps into runs, and a history is a list of runs.
-- Kalloc: kalloc.c, with the list of free pages in the first words of the pages.
-- Vm: the page tables of vm.c, walkpgdir, mappages, uva2ka and clearpteu. Vm/Tables says what a tree of
--   tables is, and what the entry of an address is.
-- Spinlock: spinlock.c, the steps of acquire and release by several processors as a history.
-- Bio: bio.c, with the list of buffers in the order of their use.
-- Fs: balloc and bfree of fs.c; a block is its bits.
-- Inode: the contents of inodes in fs.c, bmap, readi, writei, itrunc, ialloc, iupdate and the reading
--   of ilock, as functions of the blocks on the disk that end with a result or a panic. Inode/Slots says
--   what a valid inode is; the theorems take a file as a function from offsets to bytes. The panics of
--   log_write are not in these functions, which list what they log: Inode/Reserved is about a writei
--   whose blocks have room in the transaction.
-- Icache: iget, idup, ilock and iput of fs.c on the table of inodes in memory.
-- Dir: dirlookup and dirlink of fs.c, which read and write entries by readi and writei of Inode.
-- PathName: skipelem, namex, namei and nameiparent of fs.c, over what they ask of the inodes.
-- File: file.c, the table of open files, reading, and writing in chunks, which File/Whole puts on top
--   of writei of Inode.
-- Text: string.c on arrays of bytes.
-- Grep: the matcher of grep.c, match to matchstar.
-- Sh: the parser of sh.c, on the list of the characters that are left.
-- Coroutine: coroutine.c, whose switches are transfers of control as values.
--
-- Numbers. They are natural numbers; where the C type wraps round, `% 2 ^ 32` or `% 2 ^ 64` is
-- written out, as for the counters of a pipe, the reference counts of buffers, file offsets, and
-- V2P and PGROUNDUP. Pids and the reference counts of files are not bounded in the model.
--
-- Fuel. The loop of freerange takes the end of the range for its fuel, the outer loop of balloc
-- the number of bitmap blocks, and filewrite, readi, writei, dirlookup and namex a round for each
-- byte; the parser of the shell gets by with a depth of three more than the length of the line.
-- mappages gets as many rounds as its range has pages. The walks of coroutine.c are on lists that
-- may be circular, and running out is a result of its own, `stuck`. The loop that serves an
-- asynchronous read takes its fuel as an argument, and so does strlen, whose string has to end
-- within it. All other loops are structural, on the list or the count that they go through.
--
-- Not modelled: devices, interrupts, assembly and the start of the kernel, which are accesses to
-- hardware; the growing, copying and freeing of address spaces, and contexts; the uses of the spin
-- locks, since the models take a critical section as one step; and output of user programs.
-- Functions of another file that a model needs are arguments of it, as kalloc's result for fork, or
-- the reads of an inode for sys_aread.
pub mod Prelude
pub mod Pipe
pub mod Log
pub mod Grep
pub mod Proc
pub mod Aio
pub mod Bio
pub mod Coroutine
pub mod File
pub mod Fs
pub mod Inode
pub mod Icache
pub mod Dir
pub mod PathName
pub mod Vm
pub mod Spinlock
pub mod Kalloc
pub mod Sh
pub mod Text
