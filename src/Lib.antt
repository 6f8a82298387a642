-- ===== src/Lib.antt =====
-- MachaOS: verified models of the kernel's parts.
--
-- The kernel is a single-core x86-64 system in Rust. Its memory stands on a bitmap of physical
-- frames; the kernel heap is a free list in one run of frames; shared-memory objects are runs of
-- frames with a reference count; local sockets pass bytes and shared-memory descriptors between
-- processes; open files are private copies that are written back; a timer switches between tasks;
-- and interrupts feed events to a ring. Statics behind a spin lock are records here, which each
-- operation takes and returns: the lock makes an operation one step.
--
-- Where the parts stand, with paths from the root of the repository:
--   Pmm (src/pmm.rs): `Pmm` is BITMAP and LAST_USABLE_FRAME; Frames has the invariant, Single and
--     Contiguous the allocation of frames and runs, Reserve and Boot the boot scan of the memory map.
--   Allocator (src/allocator.rs): headers in an explicit memory. Chain reads the list of free blocks
--     off the pointers; Blocks is the specification on that list; FirstFit, Alloc, Place,
--     Dealloc and Gap show that the pointer code implements it.
--   Shm (src/shm.rs): over Pmm; Objects has the invariant, Close and Truncate the rest, Frames the
--     release of a run.
--   Socket (src/socket.rs): over Shm; Stream is the transfer of bytes, Passing that of descriptors,
--     Connect the setup and end of connections.
--   Vfs (src/vfs.rs): over Fat.Mount, whose panics go on to the caller and whose errors are values;
--     Access is reading and writing, Disk opening and writing back.
--   Task (src/task.rs, with the exit state of src/process.rs): Schedule, Messages and Remove.
--   Keyboard (src/keyboard.rs): Ring shows the event ring to be a bounded queue; Keymap and
--     Scancodes are the decoder and the interrupt, Typing what a key press and release do.
--   Mouse (src/mouse.rs): Packets is the assembly of packets in the interrupt.
--   Descriptors (src/process.rs): the table of open descriptors, over Shm, Socket, Vfs and Fat.Mount; Table has its
--     laws.
--   Fat (src/fat.rs): `Fat32` is the struct of that name, over the interface `Device` for the sectors of
--     src/ata.rs. Table has the allocation table, Names the short and long names, Entries the slots
--     of a directory, Directory the directories on the disk, Contents the bytes of files, Files the
--     operations by path, and Mount the public functions over MOUNTED. Alloc, Release and Shortage
--     are about chains, Flush about the table on the disk, ReadBack about the bytes of a cluster, ReadOnly
--     about what reading leaves as it was,
--     LongEntries, LongNames and FreeRun about slots; Geometry goes through all operations.
--   Elf (src/elf.rs): the parser of program files; Bounds is what it checks.
--   Loader (src/process.rs): the checks before a program is loaded, over Elf; Placement is where its
--     segments lie, Loading that they can be loaded.
--   Paging (src/paging.rs): tables of entries in an explicit memory, over Pmm. View is the walk of
--     the processor, which is the specification; Install, Directory, Walk and Page are about the
--     walk of the code and one entry, Ring3 about the entries above it, Range, Single and Whole about mapping.
--   Process (src/process.rs): the address space of a process, over Paging and Shm; Heap has brk,
--     mmap, munmap and mprotect, Setup the first stack, Load the segments. Translate is about the
--     mappings, Stack and Start about the stack, Break about the heap, Pages, Image and Loaded about
--     segments, Memory, Attempt, Mmap, Sharing and Unmap about mappings that are made and taken
--     back.
--   Syscall (src/syscall.rs): the native system calls, over Process, Task and Keyboard; Confined
--     is about the memory that they write.
--   Prelude: lists, tests, bits and tables of optional entries. Tests modules hold examples.
--
-- Integers are native numbers; `usize` and `u64` sums and differences wrap at 2 ^ 64 where the code
-- can reach that, as in the release profile. Loops that are not over a list take fuel: the scans of
-- Pmm run over the 65536 frames of the bitmap, the list walks of Allocator take one round for each
-- header that fits into the heap, and a well-formed list is not longer. The walks of cluster chains
-- take the rounds that the code's own guard allows, and fail where it fails.
--
-- Not modelled: drawing and the desktop, device registers, assembly stubs and boot glue, the
-- Linux system calls, and of a process the copy of the kernel tables and the start stack of
-- the Linux interface.
pub mod Prelude
pub mod Pmm
pub mod Allocator
pub mod Shm
pub mod Socket
pub mod Fat
pub mod Vfs
pub mod Task
pub mod Keyboard
pub mod Mouse
pub mod Descriptors
pub mod Elf
pub mod Loader
pub mod Paging
pub mod Process
pub mod Syscall
