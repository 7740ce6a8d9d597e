-- ===== src/Lib.antt =====
-- TenOS, a kernel for 32-bit x86 in C. This library models its memory management, its FAT12 file
-- system, its drivers for keyboard, screen and disk, its descriptor tables, interrupts and system
-- calls, its printing, the set-up of its memory, and the shell.
--
-- The parts and the files:
--   Prelude, Word   shared names, lists, memories as functions, searches; the unsigned integers of
--       lib/types.h with their wrap-around, bit operations, and their laws.
--   Util   memcpy, memset, memcmp, strlen, reverse and int_to_ascii of lib/util.c.
--   Print   lib/print.c: formats and numbers as the bytes handed to put_char, and printk_core.
--   Mm/Memory   mm/memory.c, the physical memory manager: the record Pmm holds the static variables,
--       the bit array as words of 32 bits; each function carries the C function's name.
--   Mm/Entry   mm/vmmngr_pte.c and mm/vmmngr_pde.c, the entries of page tables and directories.
--   Mm/Paging   mm/paging.c, on a memory of words: look-up, mapping, allocation and release of pages.
--       It takes blocks from Mm/Memory. Mm/Paging/Walk says how the processor translates an address
--       through the tables, and which tables are sound: memory is below 1 GB there.
--   Mm/Initialize   vmmngr_initialize: the copy of the boot tables, the loop that extends the window
--       above 3 GB, the removal of the first 4 MB. Start says what the boot tables are taken to be,
--       Boot and Round what a round of the copy keeps, Handover puts the parts together.
--   Fs/Table   the file allocation table of fs/fs.c: get_next_cluster, set_cluster_value,
--       find_free_cluster and the loop of fat12_create that allocates clusters.
--   Fs/Name   to_dos_filename of fs/fs.c.
--   Fs/Volume, Fs/File   the state of fs/fs.c, fat12_read, fat12_write and fat12_close. Fs/Volume/Driver
--       relates its reads and writes of sectors to Drivers/Ata.
--   Fs/Mount   fat12_init.
--   Fs/Directory, Fs/Create   fat12_open, which takes a page for the handle from Mm/Paging,
--       find_free_dir_entry, sync_fat and fat12_create. Fs/Directory/Slots sees the root directory as one
--       sequence of entries, and Fs/Create says when the parts of a volume stand behind one another.
--   Fs/Listing   fat12_list_root.
--   Drivers/Keyboard   drivers/keyboard.c: the interrupt handler with its line editor and its echo, the
--       ring of input, keyboard_read.
--   Drivers/Screen   drivers/screen.c: the video memory, the cursor, characters and scrolling.
--   Drivers/Ata   drivers/ata.c: the record Io holds what the drive will answer, a byte for each read of
--       its registers and a word for each read of its data port, and the writes to ports so far.
--   Cpu/Idt, Cpu/Gdt, Cpu/Isr   cpu/idt.c, cpu/gdt.c, cpu/isr.c, cpu/timer.c: gates and descriptors as
--       records, port writes as lists, the table of handlers, which calls Drivers/Keyboard.
--   Cpu/Console, Cpu/Command, Cpu/Syscall   cpu/syscall.c: the record System holds the volume, the page
--       tables, the keyboard and the output; process_cmd with its commands, and the dispatcher.
--   User/Shell   user/shell.c and user/userlib.c, which reach the rest through the dispatcher.
--   Kernel   kernel/kernel.c: the size of memory, the place of the bit array, the memory map.
--
-- Stateful code passes a record of its variables; a null pointer or an early return is none, false or
-- 0 as the code has it. Memory behind a pointer is a function from the index. In Drivers/Ata and Cpu/Command none
-- also stands for waiting on an answer that does not come and for an access outside an array or string;
-- in Fs/Mount it stands for a division by 0 and for a table larger than its page.
--
-- Bounds and fuel: a scan of the keyboard's ring for a newline has 256 rounds, as many as the ring has
-- places. The loops of fat12_read and fat12_write have as many rounds as bytes are asked for, and each
-- round takes at least one. The search for a free cluster has 4082 rounds, one for each cluster from 2
-- to 4083. The loop that extends the window has a round for each page of memory. Loops that wait for the drive use
-- up an answer in each round. Loops over sectors, entries and strings have their C bounds.
--
-- Not modelled: the assembly and the inline assembly of port access, of the entry to user mode and of
-- the system call stubs; the order of main beyond the memory map; the messages of the file system and of
-- the drive. The file system stands on a drive that does not fail, apart from Drivers/Ata. An int of drivers/screen.c and lib/print.c is its 32 bits.
pub mod Prelude
pub mod Word
pub mod Util
pub mod Mm
pub mod Fs
pub mod Drivers
pub mod Cpu
pub mod Print
pub mod Kernel
pub mod User
