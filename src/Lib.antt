-- ===== src/Lib.antt =====
-- Fullerene, an x86_64 operating system in Rust: some of its parts, modelled on the source,
-- with theorems on what they do and faults that were found in them.
--
-- Parts. `petroleum` is the kernel's library, with the allocator of physical frames;
-- `fullerene-kernel` is the kernel, with the process scheduler and the Linux system calls;
-- `chronoline` is the queue of timers; `nozzle` is the shell, with its line editor; `bonder` makes
-- network packets; `genome` has the file systems, with the cache before a block device. The kernel
-- takes frames from the allocator, the scheduler chooses the process that runs, the memory system
-- calls give a process ranges of its address space. `nitrogen` has the drivers, with the rings of
-- the USB controller; `toluene` has applications, with the calculator. Other parts (the rest of
-- the drivers, of the file systems and of the network, window manager, boot) stand apart from
-- these and are not modelled.
--
-- Files, with the sources that they translate, function by function and by the source's names:
--   Base           the names that the components share, with bits and lists
--   Frames         petroleum/src/page_table/allocator/bitmap.rs and traits.rs: the bitmap of
--                  frames (`Bitmap`), allocation of one frame, of a run, and below 1 MiB, release,
--                  reservation and set-up from the firmware's memory map
--   Scheduler      fullerene-kernel/src/scheduler_context.rs: the process list, the round-robin
--                  choice, blocking, waking, cleanup
--   LinuxMemory    fullerene-kernel/src/linux/memory.rs: ranges, tracked regions, the search for
--                  a free range of addresses; LinuxMemory.Calls: mmap, munmap, mprotect and brk
--   BlockCache     genome/src/fat/cache.rs and genome/src/block.rs: the cache of sectors before a
--                  block device
--   Chronoline     chronoline/src/lib.rs: timers, one-shot and repeating
--   LineEditor     nozzle/src/line_editor.rs: the shell's editing of a line, its history and
--                  what it writes to the terminal; how a terminal shows that is not stated
--   Packets        bonder/src/ipv4.rs and udp.rs: the headers, their checksums, `build_packet` and
--                  `build_datagram`; bonder/src/ethernet.rs: frames
--   Xhci           nitrogen/src/usb/xhci/ring.rs: the rings of blocks between the driver and the
--                  USB host controller; the controller's end follows the xHCI specification
--   Calculator     toluene/src/calc.rs: tokens, recursive descent, and checked arithmetic
--   Selection      nozzle/src/selection.rs: the selected rectangle of the terminal
-- The modules below each hold the theorems; a module Tests holds runs of the code, and the theorems
-- at concrete inputs.
--
-- State. Each component's state is a record with the source's fields, and each method a function
-- to its result and the new state. Integers are natural numbers; where the code adds with
-- wrap-around or saturation, that is written out (`% 2 ^ w`, `saturating_add`). A vector is a list,
-- a `BTreeMap` an association list in the order of its keys, the standard library's binary heap
-- a list of which the greatest element is taken.
--
-- Bounds and fuel. The scan of the scheduler has as much fuel as there are processes, which are all
-- that it looks at. The search for a free range has one step more than there are pages below
-- the user limit, and moves up by a page at least in each step; its theorem shows that this is
-- enough. Reading a line has the fuel that it is given, one for each byte, since a terminal may
-- hand out bytes for ever, and says when that is spent. Folding a carry has three rounds, which
-- `Packets.Checksum.fold_carry_lem` shows to be enough for 32 bits. The parser of the
-- calculator has four for each token and four more; each token costs it at most that many calls.
-- A read through the block cache has one for each sector. All other loops are structural recursion.
--
-- Interfaces. The memory system calls act on any record of the memory manager's methods
-- (`MemoryManager`); the manager itself is not modelled, and no law of it is assumed. The block cache
-- stands before any block device, of which `IsDevice` says what is asked. The modules Tests have
-- an instance of each.
--
-- Parameters. The x86_64 crate's test for canonical addresses and the page table's translation
-- are functions given to the memory system calls. The terminal of the line editor is any record of
-- its trait's methods, and the checks of UTF-8 and the command names are given to it.
--
-- Not modelled: panics of the standard library's vectors and slices out of bounds (here a read gives
-- a default and a write nothing), the memory manager behind the memory system calls, locks and
-- interrupts (one core, and handlers leave these states alone), the switch of registers and
-- stacks, the bits of the page tables, the firmware and the devices.
pub mod Base
pub mod Frames
pub mod Scheduler
pub mod LinuxMemory
pub mod Chronoline
pub mod LineEditor
pub mod Packets
pub mod Selection
pub mod Xhci
pub mod Calculator
pub mod BlockCache
