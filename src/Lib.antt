-- ===== src/Lib.antt =====
-- SaxonOS, a small 32-bit x86 kernel in C: a model of its parts and what is proved of them.
--
-- The parts. Paths are from the repository's root.
--
--   Common/Strings, Common/Memory   src/common.c: strings, and copies of memory.
--   Prelude/Io                      src/common.c: port input and output.
--   Mm/Frame                        src/mm/frame.c: the bitmap of page frames, `kalloc_frame`,
--                                   `kfree_frame`, `init_frames`.
--   Mm/Paging                       src/mm/paging.c: the page directory and its tables,
--                                   `kalloc_page`, `kfree_page`, `get_phys_addr`. It takes its
--                                   frames from Mm/Frame.
--   Mm/Heap                         src/mm/heap.c: the kernel heap, `kheap_init`, `kmalloc`,
--                                   `kmalloc_alligned`, `kfree`, `krealloc`, `kcalloc`; its
--                                   headers lie in memory, through Common/Words.
--   Terminal                        src/kernel.c: the text screen.
--   Mm/Boot                         src/kernel.c: the part of `kernel_main` that puts frames,
--                                   paging and the heap together.
--   Cpu/Gdt, Cpu/Idt, Cpu/Irq       src/gdt.c, src/tss.c, src/idt.c, src/irq.c: the processor's
--                                   tables and the dispatch of interrupts.
--   Cpu/Fault                       src/idt.c: `fault_handler`, which prints through Terminal.
--   Task                            src/task.c: the list of threads. Stacks come from Mm/Paging.
--   Cpu/Timer                       src/drivers/timer.c.
--   Drivers/Rtc, Pci, Ata           src/drivers/rtc.c, pci.c, ata.c.
--   Drivers/Keyboard                src/drivers/keyboard.c: it prints through Terminal.
--   Userspace/Time, Syscall         src/userspace/: the system calls. They print through Terminal
--                                   and take the date from Drivers/Rtc.
--   Fs/Vfs                          src/fs/vfs/vfs.c: the list of file system types, and the other
--                                   lists of the virtual file system.
--   Fs/Devfs                        src/fs/devfs/devfs.c: reading from and writing to a block
--                                   device, and the inodes of devices.
--   Fs/Buffer                       src/fs/devfs/buffer.c: the buffer cache, `get_block` and
--                                   `put_block`, over the transfers of Drivers/Ata.
--   Fs/Mbr                          src/fs/mbr.c: the partition's start. It uses the commands of
--                                   Drivers/Ata.
--   Fs/Ext2                         src/fs/ext2/ext2.c, include/fs/ext2/ext2.h: the geometry of a
--                                   volume, the way to an inode, `ext2_read`, `ext2_write`,
--                                   `ext2_lookup` and `ext2_read_super`. Copies of inodes come from
--                                   Mm/Heap, sectors through the cache.
--
-- How the code is rendered. A C function is a function of the same name; the globals that it
-- changes are a record that it takes and returns. Numbers are natural numbers, and the wrap-around
-- of a width is written out (`u8`, `u16`, `u32`). Code that can stop the kernel or leave an object
-- returns an `Outcome`: `panic` for a call of `kpanic`, `fault` for an access outside an array, a
-- null or a division by zero, and `hang` for a loop that has used up its rounds. Port accesses go
-- to a trace, and a device is a function from the trace so far to the value that a read returns;
-- what a theorem needs of a device is a hypothesis on that function.
--
-- Rounds. The search of `kalloc_frame` has a round for each bit of the map and one more, and
-- leaves the map before it needs the last. The search of `kmalloc` has a round for each block and
-- one more; a heap has fewer blocks than bytes. `ext2_read` has a round for each sector and one
-- more, `ext2_lookup` 64 for each sector, which holds no more entries. The loops that wait for a
-- device, and those over strings and lists in memory, take their rounds as an argument.
--
-- Not modelled: `alloc_inode`, `read_file` and `write_file` of ext2.c, which nothing calls, and
-- which read a variable that is never set or hand over a pointer of the wrong type; the debug
-- prints inside drivers, allocators and file systems, which change only the screen; the rest of
-- `kernel_main`, which calls drivers to try them out; and the assembly files and single
-- instructions, which are not C.
pub mod Prelude
pub mod Common
pub mod Mm
pub mod Terminal
pub mod Cpu
pub mod Task
pub mod Drivers
pub mod Userspace
pub mod Fs
pub mod Tests
