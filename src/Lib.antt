-- ===== src/Lib.antt =====
-- The Beryllium kernel: models of its components, and proofs about them.
--
-- A timer device calls timer_recieveTick (kernel/timer.c), which counts and runs the handlers that are
-- due (kernel/timing.c); the watchdog (kernel/wd.c) is told by kmain that it goes on, and looks at the
-- counts at ticks. Scan codes come from the keyboard driver, characters typed elsewhere go into the
-- input buffer, and printf formats text for the terminal, which puts it on the text mode screen. File
-- systems and devices are nodes that vfs_mount puts into a tree of names (kernel/lib/tree.c); kopen
-- takes a path through canonicalize_path, goes down that tree to the last mounted node, and asks that
-- node and those it leads to for the rest (kernel/vfs.c). Drivers register devices in a second tree.
-- The page allocator hands out the frames of memory, mman keeps the list of its regions, and malloc
-- divides what sbrk gives into blocks. Interrupts come in through the gates of the IDT and go to the
-- handlers that drivers have registered; the scheduler goes round its queue when its timer fires.
--
-- Which file models what, with the paths of the repository:
--   Timer         kernel/timer.c: the counters and the device that drives them.
--   Timing        kernel/timing.c: the table of handlers, timing_register_timer, its removal, the
--                 reaper and the pass of a tick. What a handler does to the kernel is a parameter of
--                 the pass, with what it must leave alone as hypotheses of the theorems.
--   Watchdog      kernel/wd.c: wd_notify, wd_evaluate and the switch, and runs of them.
--   Input         kernel/input.c: input_add_char and input_read on the array that they shift.
--   Keyboard      kernel/arch/x86/drivers/keyboard.c: kb_handler and kb_read.
--   Lock          kernel/lib/lock.c: mutex_lock, whose functions get copies of the pointer.
--   OrderedArray  kernel/arch/x86/lib/ordered_array.c: insertion, look-up, removal.
--   Textmode      kernel/arch/x86/drivers/textmode.c: the memory of the screen.
--   Terminal      kernel/terminal.c: the cursor, printc and scrolling.
--   Printf        kernel/printf.c: do_printf, with Printf/Output for its variables and what puts out
--                 characters, and Printf/Convert for the conversions.
--   Strings       kernel/lib/string.c: strcmp, strspn, strpbrk and strtok_r.
--   Bytes         kernel/lib/string.c: memcpy, memmove and memset.
--   Trees         kernel/lib/tree.c: trees of nodes with lists of children. A pointer to a node is the
--                 list of positions that lead to it, and `parent` is read off it.
--   Vfs           kernel/vfs.c: canonicalize_path, with list_insert and list_pop on its stack;
--                 Vfs/Nodes for read_vfs to finddir_vfs, where a node's functions are an
--                 interface; Vfs/Mounts for vfs_init, vfs_mount and get_mount_point; Vfs/Open for
--                 kopen and create_file_vfs. The walk of vfs_mount goes down the tree by recursion
--                 and puts back what it has changed.
--   Files         kernel/fs: the device nodes, Files/Sysfs for sysfs.c, Files/Initrd for initrd.c, and
--                 Files/Drivers for their functions as an instance of the interface in Vfs/Nodes.
--   Heap          kernel/malloc.c: malloc and free on the linked blocks in memory, with Heap/Blocks for
--                 their abstract view, a list of blocks, and Heap/Contents for calloc
--                 and realloc. sbrk, of which each port has another, is a parameter: the calls that
--                 malloc makes of it, with nothing assumed of them. Pages has that of x86.
--   Frames        kernel/arch/x86/page_allocator.c: the bitmap, pa_first_frame, pa_alloc_frame,
--                 pa_free_frame and init_page_allocator.
--   Paging        kernel/arch/x86/paging.c and kernel/arch/x86/lib/placement_malloc.c: the page tables and
--                 paging_get_page, and where the tables are placed.
--   Pages         kernel/arch/x86/memory.c: runs of pages and sbrk, over Paging and Frames.
--   Interrupts    kernel/arch/x86/low: Interrupts/Gdt and Interrupts/Idt for gdt.c, idt.c and the gates
--                 that irq.c and isr.c set; Interrupts/Irq for the handlers of interrupts in irq.c and
--                 isr.c, whose writes to ports are listed as effects.
--   Scheduler     kernel/scheduler.c: the linked queue of threads; Scheduler/Create for kernel/thread.c.
--   Devices       kernel/device.c: device_start and device_stop, with the functions of a driver as an
--                 interface whose laws are hypotheses; Devices/DeviceTree for the tree of devices.
--   Regions       kernel/arch/x86/mman.c: the linked list of regions with memsig, memresize and
--                 memman_init.
--   LinkedList    kernel/lib/list.c: the doubly linked lists.
--   Links         Chains in memory as lists of addresses, which Scheduler, Regions and LinkedList share.
--   Base, Bits    Shared names and lists; the bits of words.
-- The children of a module hold its theorems, named for what they are about, and the tests, which run
-- the definitions on concrete values.
--
-- How the code corresponds to the model. A struct, or the variables of a file, is a record; a function
-- that changes them takes the record and returns the new one. Numbers are natural numbers and the 32
-- bits of an unsigned or int are written out, a negative int by its bit pattern. An array is a list,
-- and memory, where bytes are copied, a function from addresses to bytes. A string is the list of its
-- characters without the NUL. `none` stands for what does not return: a halt, a panic, an access
-- outside of an array, undefined behaviour or rounds that have run out; the comments say which.
--
-- Loops with a bound known beforehand recurse on the rounds left, which are the bounds of the code: the
-- 255 slots of the table, the 255 bytes of a buffer, the 2000 cells, the 32 bits of a word. Two loops
-- have rounds that are shown to be enough: the digits of a number in do_printf take at most 11, as many
-- as 32 bits have in the lowest radix, 8; and the loop over the tokens of a path takes at most one round
-- more than the path has characters, since strtok_r shortens it. The search of malloc takes as many
-- rounds as there are blocks and one, and the loop that moves the break as many as it makes
-- calls of sbrk and one. The loops over linked items take as many rounds as there are items. The walks
-- of vfs_mount and get_mount_point take one round for each word of the path and one to stop, and get as
-- many as the path has characters, and one. The search for a run of pages gets as many rounds as there
-- are frames, and one. The loop of mutex_lock has rounds as a parameter of the theorem about it.
--
-- Not modelled: what goes to devices through ports, other than in Interrupts, start-up, the listings
-- that only print, the ARM and SPARC ports, which repeat the x86 code, and headers of other projects.
-- Functions that only hand memory back are not modelled either. The headers of the ram disk are records
-- and not bytes, so that the program that builds a disk is left out.
pub mod Base
pub mod Bits
pub mod Bytes
pub mod Devices
pub mod Files
pub mod Frames
pub mod Heap
pub mod Input
pub mod Interrupts
pub mod Keyboard
pub mod LinkedList
pub mod Links
pub mod Lock
pub mod OrderedArray
pub mod Pages
pub mod Paging
pub mod Printf
pub mod Regions
pub mod Scheduler
pub mod Strings
pub mod Terminal
pub mod Textmode
pub mod Timer
pub mod Timing
pub mod Trees
pub mod Vfs
pub mod Watchdog
