-- ===== src/Lib.antt =====
-- BasedOS: a small 32-bit kernel in C, and what its parts guarantee.
--
-- The kernel consists of a string library, a heap, a text terminal, a keyboard driver and a virtual
-- file system with one driver, the memory file system, and a round-robin scheduler of tasks; a shell
-- and a main program use them. The file
-- system allocates its nodes and the contents of its files from the heap and copies bytes with the
-- string library. The shell reads keys from the keyboard buffer, which the interrupt handler fills.
--
-- Which file models which part:
--   Memory         bytes by their address, C strings in memory, and the result of writing a block
--   Str            lib/string.c. Str/Block: memset, memcpy, memmove; Str/Compare: memcmp, strcmp,
--                  strncmp; Str/Scan: strlen, strchr, strrchr, strspn, strcspn; Str/Build: strcpy,
--                  strncpy, strcat, strncat; Str/Token: strtok; Str/Num: atoi and itoa. Str/Text
--                  holds the same notions on lists of bytes.
--   Heap           kernel/memory.c: kmalloc, kfree, detect_memory. Heap/Alloc and Heap/Free hold
--                  the theorems.
--   Terminal       kernel/terminal.c: terminal_initialize, putchar, terminal_writestring,
--                  terminal_setcolor; Terminal/Print: printk, terminal_write_hex and
--                  terminal_write_dec. putchar is cut at its comments into put_char, wrap_line, scroll
--                  and update_cursor.
--   Keyboard       the keyboard of kernel/interrupts.c: the table of scancodes,
--                  keyboard_handler_internal and keyboard_getchar. Keyboard/Queue runs them without
--                  interrupts between their steps, Keyboard/Race with them.
--   Fs             include/fs/vfs.h. Fs/Vfs: fs/vfs.c, with its calls on file descriptors in
--                  Fs/Vfs/Fd, named open_file, close_file, read_file and write_file here;
--                  Fs/Memfs: fs/memfs.c; Fs/Driver: memfs_ops and the functions in the nodes of the
--                  memory file system; Fs/Start: how kmain starts the file system
--   Kernel         the tasks of kernel/kernel.c: init_scheduler, create_task and timer_callback, with the
--                  registers esp and ebp of the processor in the state;
--                  Kernel/Status: init_memory_manager, get_uptime, get_memory_stats,
--                  is_subsystem_ready, show_system_info and kernel_shutdown; yield
--   Interrupts     the table and the controllers of kernel/interrupts.c, and init_enhanced_interrupts
--                  of kernel/kernel.c
--   Sound          kernel/sound.c: beep and nosound, on the bytes sent to the ports
--   Shell          kernel/shell.c. Shell/History: add_to_history, show_history; Shell/Parse:
--                  parse_command; Shell/Aliases: add_alias, resolve_alias, list_aliases; Shell/Calc:
--                  calculator; Shell/Info: show_system_info, show_memory_info, display_banner,
--                  play_startup_sound, echo_test; Shell/Files, Shell/Settings and Shell/Execute:
--                  execute_command, with a definition for each branch that is more than a call;
--                  Shell/Edit: the keys of start_shell other than Enter; Shell/Session: its prompt
--                  and its two loops, as a step on each key. Shell/System joins the shell, the file
--                  system and the kernel; Shell/Valid is the invariant of the shell,
--                  and Shell/Session/Faults the sessions that fault.
--   Main           kmain of kernel/kernel.c, which starts the parts and runs the shell, kernel_panic, and
--                  the interrupt flag that enable_interrupts and disable_interrupts of
--                  kernel/interrupts.c set; Main/FsTest: fs/fs_test.c; Main/Console: the
--                  shell on the key buffer that the keyboard fills. boot is kmain up to the call of
--                  start_shell.
--   Prelude        shared helpers: tests on numbers, lists, integers, the bytes of a text literal
--   Tests          the theorems at concrete inputs
--
-- How the state corresponds. The static variables of a C file are the fields of a record, and a
-- function takes the record and returns the new one. Memory is a function from addresses to bytes; an
-- address is a natural number, and NULL is 0. Addresses do not wrap in the string library; the heap
-- computes on 32-bit words, as do offsets and positions in files. A store is visible at every
-- address, so that overlapping blocks behave as they do in C. A node of the file system is a value
-- in place of a pointer, since nothing changes a node once it is made; a function pointer in it is
-- whether it is set. The inodes of the memory file system are a function from addresses, and their
-- names are the lists of their bytes.
--
-- An `int` is its 32-bit pattern in atoi and itoa, whose arithmetic wraps.
--
-- Faults and loops. A result `none` is a write through NULL where the code does not check the result
-- of kmalloc, a read of the root that is NULL, a strcpy of a name past the end of the 256 bytes of
-- `d_name` or of a node's `name`, or fuel that runs out. A loop over a C string takes
-- fuel, and any fuel above the length of the string is enough; the loops of itoa and atoi over
-- digits take 33 rounds, enough for 32 bits in every base; the loop of vfs_open takes the length of
-- the path, and the loop of memfs_finddir any fuel above the number of the directory's entries.
-- The theorems say that the result is there. keyboard_getchar on an empty buffer waits, which is
-- `none` there.
--
-- In the shell a C string is the list of its bytes, a string that does not fit into its array is a
-- fault, and a call of printk prints the texts that its format and its arguments come to, which
-- Terminal/Print/Render justifies. An argument of printk is a number, which is its 32-bit pattern for
-- `int`, `unsigned int` and `char` alike, or a string; a number where the code reads a pointer, or a
-- pointer where it reads a number, is a fault. The words of a command are those that parse_command finds in memory
-- (Shell/Parse/Words). A key is an argument: the shell is a function of the keys it reads. The commands
-- on files run over the memory file system; the loops of ls and cat take fuel, more than the entries
-- of the directory and the blocks of the file.
--
-- kmain composes the parts over one state, Machine: the shell with its terminal, the file system with the
-- heap, the kernel's variables, the interrupt table and the interrupt flag. A loop of `hlt` is the
-- outcome `halted`. kmain takes its keys as an argument, whatever they are; which of them the keyboard can
-- send is what ascii_of says, and that no interrupt comes while the flag is not set is a finding
-- about the program, not part of the model. The machine starts with any variables of the shell that are
-- valid, as the zeros are.
--
-- What is not modelled: the delay loops, which change nothing, and the states in which the processor
-- waits. The boot code and the port instructions are assembly; a read of a port is an argument. The
-- headers declare types and functions. In fs/memfs.c the block under `#if 0` is not compiled.
pub mod Fs
pub mod Heap
pub mod Interrupts
pub mod Kernel
pub mod Keyboard
pub mod Main
pub mod Memory
pub mod Prelude
pub mod Shell
pub mod Sound
pub mod Str
pub mod Terminal
pub mod Tests
