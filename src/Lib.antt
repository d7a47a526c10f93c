-- ===== src/Lib.antt =====
-- A model of DOSFS, a small x86 kernel, with the theorems that make its parts correct.
-- Paths are from the repository's root.
--
-- * `Memory.Heap` is src/memory/heap.c. Memory is a function from addresses to words, a block header
--   is five words at its address, and `Memory.Heap.Cells` is the heap as the list of its blocks. The
--   physical pages and page tables are the parameter `Memory.Pages`. A walk over the block list has
--   2 ^ 32 rounds of fuel: no list of distinct headers is longer, and a well-formed heap uses fewer.
-- * `Libc` is src/libc/string.c: memory blocks and texts are lists of bytes; `Print` is its `snprintf`.
-- * `Process.Scheduler` is src/process/scheduler.c: a table of 32 slots, the index of the current
--   process and the count. The search for the next process has 32 rounds, as in the code.
-- * `Fs.Tmpfs` is src/fs/tmpfs.c: a table of 32 files in memory. `Fs.Tmpfs.Updates.contents` is the
--   map from names to contents that it stands for.
-- * `Fs.Fat16` is src/fs/fat16.c: names and bytes in the parent, the table of clusters in `Chain`, the
--   root directory and mounting in `Root`, files in `Files`. The sectors of the disk are the parameter
--   `Fs.Disk`. Chains on a disk can be circular: walks over them have rounds of fuel, and a run that
--   uses them up has no result.
-- * `Net.Stack` is src/net/net.c: byte order, the receive ring, the checksum and the ARP cache. The
--   folding of a checksum has three rounds, which are enough for a 32-bit sum.
-- * `Net.Tcp` is the TCP connection of the same file: its state and what a segment does to it.
-- * `Net.Host` has its packets, of ARP, IP, ICMP and UDP, and the dispatcher.
-- * `Net.Dns` is the part of the same file that writes a query and reads its reply.
-- * `Memory.Pmm` is rust/src/pmm.rs behind src/memory/pmm.c: the bits of the physical pages.
-- * `Drivers.Pci` is src/drivers/pci.c over the ports of `Drivers.Ports`.
-- * `Drivers.Timer` is src/drivers/timer.c over those ports and the scheduler.
-- * `Drivers.Rtc` is src/drivers/rtc.c over the same ports.
-- * `Syscall` is src/syscall/syscall.c: the check of user pointers, `sys_write` and `sys_read`. The
--   keyboard is the list of what is typed.
-- * `Libc.Number` is the same file's `itoa`, `uitoa` and `atoi`: a number has at most 32 digits,
--   and `atoi` has no result where the `int` it collects overflows.
-- * `Drivers.Vga` is src/drivers/vga.c: 2000 cells, the cursor and the colour. `Format` is `vga_printf`,
--   with what is printed as a list of bytes.
-- * `Drivers.Keyboard` is src/drivers/keyboard.c: the state of the modifiers and the two buffers.
-- * `Memory.Vmm` is src/memory/vmm.c: the words of the page directories and tables. The physical pages
--   are parameters, and the loops over a table have its 1024 rounds.
-- * `Tools.CpuSim` is src/tools/cpu_sim.c: the parsing of an instruction and what each one does.
-- * `Process.Ipc` is src/process/ipc.c with the queue behind it, rust/src/ipc.rs: 64 messages.
-- * `Syscall.Handler` is the dispatcher of src/syscall/syscall.c over the scheduler and that queue.
-- * `Shell` is src/shell/shell.c. `Shell.Line` has the typed line and the
--   history, `Shell.Commands` the choice of a command, `Shell.Files` the commands on files, over
--   `Fs.Tmpfs`, and `Shell.Tools` those that compute.
-- * `Tools.Editor` is src/tools/editor.c: the lines, the cursor, and the file over `Fs.Tmpfs`.
-- Not modelled: the other drivers and the boot code, which are port output and assembly; the loops of
-- the network that wait for the card and the timer; src/tools/acpi_sim.c, src/tui/tui.c and the
-- commands that only print.
pub mod Prelude
pub mod Libc
pub mod Memory
pub mod Process
pub mod Fs
pub mod Net
pub mod Syscall
pub mod Drivers
pub mod Tools
pub mod Shell
