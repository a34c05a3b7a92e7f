-- ===== src/Lib.antt =====
-- Verification of the xv6 kernel and user programs of this repository (directory xv6/), an
-- operating system with a buffer overflow exercise, load address randomisation and real-time
-- scheduling.
--
-- The parts and their files:
--   Str       string.c and the string functions of ulib.c, over a byte memory (Memory).
--   Overflow  buffer_overflow.c: the read into `payload` and the `strcpy` into `buffer`.
--   Aslr      exec.c: `random`, `randomnumber` and the choice of `ld_offset` in `exec`.
--   Mmu       the constants and macros of mmu.h, memlayout.h and param.h.
--   Kalloc    kalloc.c: `kfree`, `kalloc`, `freerange`; the list runs through the pages in memory.
--   Proc      proc.c and proc.h: the process table; Proc.Sched the scheduler's pass, Proc.Policy
--             the admission of real-time tasks and the rates.
--             Proc.Family `fork`, `exit`, `wait` and `growproc`, Proc.Family.Reaped `exit` and
--             `wait` together.
--   Trap      trap.c: the handler; Trap.Budget the ticks that a real-time task gets.
--   Pipe      pipe.c: the ring of 512 bytes with its wrapping counters.
--   Syscall   syscall.c: the argument functions; sysproc.c: the calls that use them.
--   Log       log.c: commit, recovery and log_write; Log.Moves and Log.Install the two loops,
--             Log.Recover recovery, Log.Crash a power failure at any write,
--             Log.Reserve the room that begin_op and end_op keep. A Store says how many writes
--             still reach the disk; bio.c is the function from blocks to what bread shows.
--   Bcache    bio.c: the list of buffers, `bget` and `brelse`.
--   Fs        fs.c: the block map (`balloc`, `bfree`), with every change of a block noted in the log.
--   Inode     fs.c: the inodes on the disk, `bmap` and `itrunc`; Inode.Content `readi` and `writei`,
--             Inode.Atomic them and the commit together.
--   Icache    fs.c: the cache of inodes with its references, `ilock` and `iput`.
--   Path      fs.c: `skipelem`. Dir: `dirlookup`, `dirlink` and `namex`.
--   Vm        vm.c: the page tables; Vm.Space the user part of an address space, Vm.Empty a
--             directory without tables.
--   File      file.c and sysfile.c: the file table, reads and writes (File.Io), descriptors,
--             File.Close `sys_close`.
--   Sysfile   sysfile.c: the calls on paths (`sys_link`, `sys_unlink`, `create`, `sys_open`, `sys_mkdir`,
--             `sys_mknod`, `sys_chdir`), each up to its `begin_op` and `end_op`; Sysfile.Atomic them and
--             the commit together, Sysfile.Open the descriptors of `sys_open` and `sys_pipe`.
--   Sh        sh.c: the parser; Sh.Print the lines that it accepts.
--   Console   console.c: the input buffer and its line editing; Console.Line the two texts in it.
--   Lock      spinlock.c: Lock.Nest on one processor, Lock.Exclusion many processors in any order.
--   Grep      grep.c: the matcher, `match` (match_re here); Grep.Spec what a pattern means.
--   Number    printf.c and console.c: `printint`; ulib.c: `atoi`.
--   Base      shared names, C's `int` and list lemmas; Tests the theorems at concrete inputs.
--
-- How the parts fit: `allocproc` takes its kernel stack from `kalloc`, and `kfree` and `allocproc`
-- write memory by `memset` and word stores. System calls fetch their arguments from user memory
-- and act on the process table. The file system reads a block of the disk as a function from offsets to
-- bytes, and writes it by `log_write`, so that what it has changed is what the log commits.
--
-- Conventions: an address or a byte is a number; `uint` arithmetic wraps at 2^32 where the source
-- can reach it, pointers are taken not to wrap. An `int` is an integer with its wrap-around written
-- out by `wrap`. `panic` is an outcome of its own. A spinlock stands for the atomicity of the
-- block that holds it: the model runs such a block in one step. What other processes do while one
-- is off the processor (`swtch`, `sched`) is a function that the definitions take. A process is
-- named by its slot. Messages to the console are left out.
--
-- Fuel: loops over C texts take fuel, and the theorems say that one round more than the length of
-- the text is enough; `printint` needs at most one round more than its number, and `freerange` one
-- round more than the pages of its range. `readi` and `writei` have a round for each byte, the loops
-- over a directory two more than it has entries, `namex` one more than the path has
-- bytes, `deallocuvm` two more than there are whole pages. A pass of the scheduler takes fuel because the scan can go
-- back to an earlier slot. The parser of the shell gets four units for each byte of the line and five
-- more: each call costs one.
--
-- Not modelled: devices and interrupt controllers (hardware registers), the loading of a program,
-- sleep locks, what the shell does with a command, user programs other than the exercise, the parser of
-- the shell and the matcher of grep, the assembly sources, and the generated listings.
pub mod Base
pub mod Str
pub mod Overflow
pub mod Aslr
pub mod Mmu
pub mod Kalloc
pub mod Proc
pub mod Trap
pub mod Pipe
pub mod Syscall
pub mod Grep
pub mod Number
pub mod Lock
pub mod Log
pub mod Fs
pub mod Inode
pub mod Icache
pub mod Path
pub mod Dir
pub mod Console
pub mod File
pub mod Vm
pub mod Bcache
pub mod Sh
pub mod Sysfile
mod Tests
