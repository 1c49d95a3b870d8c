-- ===== src/Lib.antt =====
-- MuOS, a 32-bit x86 kernel in C: its memory, storage and stream services, and its processes.
--
-- The parts and their files:
--   Kheap      src/kheap.c     the kernel heap, a chain of headers walked first-fit
--   Frames     src/mm.c        the allocator of physical page frames (bitmap and reference counts)
--   Pipe       src/pipe.c      the table of pipes and their rings; Pipe/Wake has the wake-up of
--                              blocked readers in src/proc.c, which calls back into the pipes
--   Ata        src/ata.c       byte access to the disk, sector by sector
--   Fat        src/fat.c       the FAT32 volume on Ata: Fat/Table its allocation table, Fat/Alloc and
--                              Fat/Chain the chains of clusters
--   Elf        src/elf.c       the ELF loader: the header and the segments, Elf/Reloc the
--                              relocations, Elf/Sandbox and Elf/Reloc/Confined what it writes,
--                              Elf/Validate the check without loading
--   Part       src/part.c      MBR and GPT partition tables, read through Ata
--   Fs         src/fs.c        the file system: Fs/Paths look-ups, Fs/Names creation, deletion and
--                              renaming, Fs/Data bytes, Fs/Owner owners, modes and times, Fs/Persist
--                              the writing through to Ata with its journal, Fs/Mount the mount
--   Proc       src/proc.c      the process table; Proc/Sched the choice of the next process and the
--                              switch, waking a parent and the end of a process, Proc/Signal sending
--                              signals, Proc/Deliver their frames, the tick and blocking, Proc/Poll
--                              the processes in poll, Proc/Reap the release of processes;
--                              Proc/Ids, Proc/Calls, Proc/Ticks and Proc/Spaces that the calls
--                              keep the numbers of the processes
--   Keyboard   src/keyboard.c  scan codes, modifier keys and the input ring, with the readers of the
--                              console that a character wakes (Keyboard/Served)
--   Rtc        src/rtc.c       calendar arithmetic and the clock's registers
--   CString    src/string.c    C strings and memory functions, used by Fs
--   Common     the lists, integers, byte memories and Boolean tests that the others share
--
-- A C struct is a record with the same fields, a function of the kernel the definition of its name:
-- it takes the state it reads and returns the state it leaves with its result. An array that a part
-- scans is a list, a byte array or a disk a function from indices to bytes (Common/Mem), where memcpy
-- into it is `blit` and out of it `slice`. An `int` that may be -1 is an integer, or an option where the
-- result is a copied buffer. A sum or product of `uint32_t` that can wrap has its remainder written out.
-- What the code takes from outside, the clock's time, the drive's answers and the address that
-- the page allocator gave the heap, are arguments or fields.
--
-- Loops without a bound of their own run on fuel. The heap's walks take one round for each header
-- that fits into the heap, and one more; the delivery of signals one for each signal, and one
-- more; the release of children one for each slot as its depth, and one more; the disk loops one
-- for each byte, where a round moves at least one; the frame search one for each frame and one
-- more; the wake-up of pipe readers a nesting depth, which the theorems about it give. The
-- theorems say what is returned, so fuel that ran out would contradict them. A walk along a chain
-- of clusters has the code's own limit of 4096 rounds.
--
-- Not modelled: port input and output, inline assembly, interrupts and the page tables; the
-- system calls, network, the directories of FAT32, ext2, the window system and the user programs.
-- The memory of a process is by its own addresses, all of the window mapped and its pages one
-- behind the other in physical memory, and a process in Proc and a blocked reader in Pipe/Wake
-- are two views of one entry of the table. The frames of kernel stacks are not counted. The image
-- that the ELF loader reads is a list of bytes, which lies outside the memory that the loader
-- writes. No two calls overlap: the kernel runs these parts with no preemption, and the wake-ups
-- of the readers of pipes and of the console, where a call is entered again, are modelled as they
-- nest.
pub mod Common
pub mod Ata
pub mod CString
pub mod Elf
pub mod Fat
pub mod Frames
pub mod Fs
pub mod Keyboard
pub mod Kheap
pub mod Part
pub mod Pipe
pub mod Proc
pub mod Rtc
