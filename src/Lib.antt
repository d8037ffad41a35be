-- ===== src/Lib.antt =====
-- HanOS, an x86-64 kernel in C: models of its memory manager, heap, scheduler, virtual file system,
-- FAT32 file system, terminal, keyboard, log, clock and string functions.
--
-- The parts and the files that model them:
--   Base      names and lemmas that all parts share: Boolean tests, lists and machine words. A w-bit
--             integer is a natural number with the wrap-around written out (u8, u16, u32, u64)
--   Ring      a byte ring read as a queue, shared by the drivers that keep one
--   Mm        kernel/core/mm.c: the bitmap of physical pages (pmm_init, pmm_get, pmm_alloc, pmm_free).
--             The bitmap is a function from byte positions; MemInfo is mem_info_t, with the memory
--             that bitmap points to as a field
--   Vmm       kernel/core/mm.c: the tables of pages (map_page, unmap_page, vmm_init). The words of the
--             tables are at their addresses in the direct map; the walk of the processor is described
--             apart (Vmm/Walks)
--   Heap      kernel/lib/kmalloc.c: the heap, blocks of pages with their size in a page in front
--   Cmos      kernel/core/cmos.c: the CMOS clock, the decoding of its registers and the seconds since
--             1970. The registers read from the ports are arguments
--   Time      kernel/lib/time.c: localtime and mktime, which calls on cmos.c
--   Keyboard  kernel/device/keyboard/keyboard.c and keycode.c: key codes and the ring of characters
--             between the interrupt and the readers
--   Sched     kernel/proc/sched.c and task.c: the round-robin scheduler, run by the timer interrupt of
--             each processor, and the tasks that it switches between
--   Klog      kernel/lib/klog.c: the ring of characters that a terminal is redrawn from, and the
--             printing of strings and of hexadecimal and decimal digits into it. Klog/Printf has
--             klog_putint and the formats of klog_vprintf_core, Klog/Lines the lines of the log
--   Fb        kernel/device/display/fb.c: a framebuffer and its back buffer, as functions from byte
--             offsets to pixels
--   Term      kernel/device/display/term.c: the terminal on a framebuffer, its escape sequences, its
--             cursor and its scrolling; Term/Terms has the pair of terminals
--   Vfs       kernel/fs/filebase.c and vfs.c: the tree of nodes, the search of a path, and the handles
--             (Vfs/Files, Vfs/Opens). Nodes are records at addresses of a Store
--   Ata       kernel/device/storage/ata.c: the transfer of sectors between a buffer and the disk, which
--             is a function from byte addresses to bytes
--   Fat       kernel/fs/fat32.h and fat32.c: a FAT32 volume. Fat has its data and the table of clusters,
--             Fat/Disk reading and writing (fat32_read, fat32_write and the directory entries), Fat/Names
--             the short and long names, Fat/Mounts the mount, and Fat/Dirs the list of a directory and
--             the search of a path. The theorems stand in the modules below these and beside Fat/Disk
--   Text      kernel/lib/string.c and memutils.c: strings and blocks of memory
-- How they interact: the shell reads what the keyboard queued; the scheduler allocates the stacks of
-- its tasks from the heap, which is on top of pmm_get, and the log stamps its lines with localtime.
-- The log is shown on the terminal, which draws on a framebuffer. A file system is the record Fs of
-- its functions, which the virtual file system calls and whose laws its theorems name.
-- FAT32 is on top of the transfer of sectors, and takes the dates of its files from localtime.
-- A part that another uses through a value only (a clock reading, an address) has it as an argument.
--
-- Bounds and fuel. The loop of do_context_switch has one round more than the queue has tasks, which
-- is enough because it gives up after one full turn. The loop of klog_refresh has one round for each
-- cell of the ring, of which one is always free. The four loops of localtime have the rounds of
-- a day, a month, a year and 130 years. The loops over pages have the rounds that the C conditions
-- give. The loops of string.c run to the end of the string: one round more than it has characters
-- is enough. The digit loops of klog_putint
-- have 20 rounds, one more than a number of 63 bits has digits, and the loop for its width has 64: after
-- as many digits its row of nines is all ones. The loop at the end of
-- term_print has one round more than the row of the cursor, since each takes a row off. The loop of
-- vfs_open over parents has one round more than the path has bytes. The loop of vfs_refresh has no
-- bound in the code: its fuel is an argument. The loops of
-- fat32.c over clusters, over a directory and over a path have fuel too, since a table with a cycle keeps
-- them running: `endless` is its end. One round for each cluster of a chain is enough for
-- reading and writing, and one for each entry of a directory for the list and the search. An access outside of
-- a buffer that fat32.c has allocated ends as `overrun`. No other definition has fuel.
--
-- Not modelled: code that only drives hardware (ports, registers, assembly), the mouse,
-- fat32_open, which joins the search of a path with the tree of nodes, and vfs_debug and vfs_free_nodes. The overflow of
-- tmpbuff in vfs_path_to_node by a component of 4096 bytes or more, and strings of 2^31 bytes or more, whose
-- length does not fit an int of string.c, are not modelled either. Locks are not modelled: a critical section is one
-- step. The boot loader's memory map is an argument of pmm_init.
pub mod Base
pub mod Ring
pub mod Mm
pub mod Vmm
pub mod Heap
pub mod Cmos
pub mod Time
pub mod Keyboard
pub mod Sched
pub mod Klog
pub mod Fb
pub mod Term
pub mod Vfs
pub mod Text
pub mod Ata
pub mod Fat
