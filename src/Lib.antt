-- ===== src/Lib.antt =====
-- A library about the kernel of a small teaching operating system.
--
-- The kernel gives memory out in blocks (Kernel/utils/memory), keeps its processes in doubly linked
-- lists (Kernel/utils/doubleLinkedList.c) and gives them the processor in turns
-- (Kernel/utils/processes). Processes wait for each other at semaphores (Kernel/utils/semaphores) and
-- pass bytes through pipes (Kernel/utils/pipes). Kernel/lib.c has functions
-- on bytes, strings and numbers. The system calls (Kernel/syscalls.c) reach these parts; the shell and the
-- programs of the user (Userland/SampleCodeModule) are written on them.
--
-- Memory/Bitmap.antt is Kernel/utils/memory/bitmap.c: `Manager` is MemoryManagerCDT, with the bitmap as
-- a list of the three block states; `mm_create`, `mm_alloc`, `mm_free` and `mm_info` are the functions
-- of those names. Words of 64 bits subtract modulo 2 ^ 64 (`sub64`). A pointer is its address, none
-- stands for NULL.
--
-- Memory/Buddy.antt is Kernel/utils/memory/buddy.c, the other allocator of the same interface: the tree is
-- the list of the states of its nodes. Its loops run on fuel: the exponents go up to 64, and the way up
-- from a node has no more steps than the node's index.
--
-- LinkedList.antt is Kernel/utils/doubleLinkedList.c over an explicit heap of nodes
-- (LinkedList/Heap.antt): a command fails at a read or a write through a pointer that leads to no node.
-- The loops over the nodes run on fuel, `size + 1` rounds, one more than a list has nodes.
--
-- Scheduler.antt is Kernel/utils/processes/scheduler.c with the part of process.c that works on its
-- state. `Kernel` (Scheduler/State.antt) is schedulerCDT together with the processes, which a store
-- keeps by address. The lists are sequences of addresses: what doubleLinkedList.c promises of them is
-- proved in LinkedList. `room` lists the answers of mm_alloc to the requests for list nodes. The timer
-- interrupt of `yield` is a call of `schedule` at the interrupted stack pointer. An `int16_t` is its
-- pattern of 16 bits, so -1 is 65535.
--
-- Semaphores.antt is Kernel/utils/semaphores/semaphores.c, over an interface `Processes` of what it asks
-- of the scheduler; Semaphores/Scheduling.antt fills the interface with the functions of Scheduler.antt.
-- A queue is the sequence of the pids that its cells hold. The spinlock is left out, since system calls
-- run one after the other.
--
-- Pipes.antt is Kernel/utils/pipes/pipes.c over Semaphores.antt. Where a process must wait, what the
-- others do until it goes on is the parameter `resume`. The loop of `readPipe`, which tries again where
-- it finds no byte, runs on fuel; where the bytes are there, a round for each byte is enough.
--
-- Text.antt is Kernel/lib.c with string.c and stdlib.c of Userland/SampleCodeModule. The memory behind a
-- `char *` is the list of its bytes, with NUL behind the end; Text/Memory.antt has `memset` and
-- `memcpy` on a memory of bytes. The loops of `itoa` run on fuel for 64 digits, which is enough for a
-- 64-bit number in any base; Text/Userland.antt has the user's own copies.
--
-- Keyboard.antt is Kernel/utils/drivers/keyboard.c; the semaphore that it posts and the process that it
-- kills are an interface, `Others`. Ring.antt has what the queues of Pipes.antt and Keyboard.antt share.
--
-- SysCalls.antt is Kernel/syscalls.c: `dispatch` is syscallDispatcher on the table `syscalls`. What the
-- other files of the kernel do is the record `Ops`; SysCalls/Files.antt says by `Piped` that its pipes are
-- those of Pipes.antt, and by `Shows` what a screen does. A call that never goes on answers none
-- (Effects.antt). The loop of `syscall_sleep` runs on fuel, a round for each call of yield.
--
-- Userland.antt is Userland/SampleCodeModule on a record `System` of the calls of include/syscalls.h:
-- Userland/Stdio.antt is stdio.c, Userland/Programs.antt processFunctions.c, Userland/Builtins.antt
-- and Userland/Manual.antt builtinFunctions.c, Userland/Mvar.antt mvar.c, and Userland/Shell.antt with
-- Userland/Shell/Running.antt shell.c. Userland/Console.antt has what a program reads and prints as two
-- streams, where the output is a pipe (`OnStreams`) or the screen (`OnTerminal`).
-- The loops that wait for a key run on fuel, a round for each; loops that never end (the shell,
-- `loop`) are modelled for any number of rounds. A write of `strtoi` through NULL is the parameter
-- `write_null`, the pointers that `str_in_list` reads behind the list of commands are `behind`.
--
-- Processes.antt is process.c again, by the memory that it takes: what `initializeProcess` asks for, what
-- it gives back where a request fails, and `freeProcess`. The memory manager is there only what it
-- answers and how often each block is allocated. Scheduler.antt takes the answers as an argument.
--
-- Video.antt is Kernel/utils/drivers/video.c: `Video` has its static variables and the pixels, by their
-- number; the bytes of the fonts are the parameter `fonts`. The pixels behind the screen are the memory
-- behind the frame buffer. Video/Glyphs.antt and Video/Cells.antt say which of them a character draws,
-- Video/Screen.antt what a system call then shows. Video/Printf.antt is the kernel's `printf`.
--
-- Modules.antt is Toolchain/ModulePacker/main.c and Kernel/moduleLoader.c: `build_image` is what the packer
-- writes for files that can be read, `load_modules` takes it out of the memory, with the `memcpy` of
-- Text/Memory.antt. The loop of `write_file` runs on fuel, one round more than the file has bytes.
--
-- Not modelled: the bytes of the stacks, the boot loader and the start of the kernel, its interrupt tables,
-- the lists that `ps` makes, `scanf`, and the tests of the user.
pub mod Effects
pub mod Keyboard
pub mod LinkedList
pub mod Memory
pub mod Modules
pub mod Pipes
pub mod Prelude
pub mod Processes
pub mod Ring
pub mod Scheduler
pub mod Semaphores
pub mod SysCalls
pub mod Text
pub mod Userland
pub mod Video
