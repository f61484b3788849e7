-- ===== src/Lib.antt =====
-- ZeOS: a small operating system for one i386 processor, with processes, threads, paging, a round-robin
-- scheduler, semaphores, a keyboard buffer and a text screen.
--
-- How the parts of the program work together. main (system.c) sets up the page tables and the frames
-- (mm.c), the queues of free, ready and blocked tasks and the first two tasks (sched.c). From then on the
-- kernel is entered by interrupts (interrupt.c) and by system calls (sys.c). The clock interrupt counts
-- the ticks down and calls schedule, which moves the running task to the end of the ready queue and
-- switches to the first. The keyboard interrupt fills a buffer of three characters (circular_buffer.c).
-- All the queues are the circular doubly linked lists of list.c, whose entries stand inside the task
-- structures.
--
-- Which file models which part:
--   Buffer         circular_buffer.c; CharQueue is the abstract queue that it implements
--   Links          list.c and include/list.h: pointers in a store. IsRing says which entries a ring holds,
--                  and IsFamily which rings a store holds, so that a change of one is no change of another
--   Address        include/mm_address.h, and the pages at which the kernel's tables stand
--   Frames         the byte map of frames in mm.c
--   Paging         the page tables and directories in mm.c
--   Utils          utils.c: copies, access checks and the clock
--   Screen         io.c and devices.c: the cells of the screen and the cursor
--   ScreenMatrix   screen_matrix.c
--   Text           itoa and strlen of libc.c, print_hex of sys.c, the digits of the page fault message
--   Stats          p_stats.c and init_stats of sched.c
--   Kernel         the global variables and structures of include/sched.h and sched.c in one record
--   Sched          the scheduler of sched.c, user_to_system and system_to_user of sys.c
--   Interrupts     the clock and keyboard routines of interrupt.c, and what the page fault routine shows
--   Syscalls       sys.c: output, blocking, the keyboard, the screen, sys_get_stats
--   Regions        the search for free pages in sys.c, their mapping, sys_memRegGet and sys_memRegDel
--   Processes      sys_fork, sys_threadCreateWithStack, sys_exit and terminate_thread of sys.c. Memory is the
--                  physical one there, behind the page tables; an access to a page that is not present is the
--                  outcome none, for a page fault in the kernel, whose routine does not return
--   Descriptors    the gates of interrupt.c (setIdt, setSysenter and what they call) and setGdt and setTSS of mm.c
--   Build          build.c, the program that puts the disk image together
--   Messages       the texts that the kernel prints
--   Boot           init_* of sched.c, init_mm of mm.c and main of system.c: Boot is the part of main on the
--                  kernel's variables, Boot.Main the whole on a machine with the processor's tables and the memory
--   Semaphores     the semaphore calls of sched.c
--   Samples        kernels for the tests, among them the one after main with two more ready tasks
--   Common         helpers: lists, signed integers, bounded loops, bit masks
--
-- How state and operations correspond. A function of the source that writes global variables is a
-- function on the record of them. Functions keep the source's name, in lower case with underscores
-- (sys_semWait is sys_sem_wait, get_DIR is get_dir). A pointer is an address; a task structure is the
-- address of its page, and a list head is its address inside the structure, so that
-- list_head_to_task_struct computes. A test that returns zero or one is a Boolean. The error numbers stay
-- negative integers.
--
-- Numbers. Words and bytes are natural numbers with their wrap-around written out. Overflow of an int is
-- undefined in C; ints are unbounded integers here.
--
-- Loops and fuel. A counted loop is for_range, which makes exactly its rounds. The search of alloc_frame
-- has one round for each even frame from 256 to 1023 and one for its end, so it never runs out. The search
-- for free pages has as many rounds as there are pages. The loops of
-- copy_data, itoa and sys_write have their fuel from their arguments: each round takes at least one byte, one
-- digit or one chunk. A walk over a queue takes its fuel as an argument, one round more than the queue has
-- entries, and answers none if it runs out. sys_exit takes the number of rounds of its loop over the threads of a
-- process: without threads it makes none, and with threads the loop clears the entry that it stands on and
-- comes back to it. The loop of build.c that copies a file has one round for each byte at most, and each
-- round copies at least one.
--
-- What comes from outside. The time stamp counter is a parameter: the kernel state has a clock that says
-- what each call of get_ticks returns. So are the scan code of a key and the memory behind char_map.
-- The addresses that the linker chooses are a choice of the model. Parameters are also what get_ebp returns and
-- the address of ret_from_fork, the addresses of the interrupt handlers and the gates that set_handlers of a
-- precompiled library writes, the descriptors that the boot sector has filled in, and for build.c the
-- contents and sizes of the three files and which writes and seeks succeed.
--
-- sys_getKey switches to another process in its middle: get_key_enter is its part up to the switch, and
-- get_key_resume the rest, which runs when the process is the running one again.
--
-- Not modelled: assembly code (bootsect.ss, entry.ss, sys_call_table.ss, kernel-utils.ss, user-utils.ss, and
-- hardware.c, which is inline assembly), the ports, the jump to user mode at the end of main, perror of
-- libc.c, what build.c prints to its standard error output, the demonstration
-- user.c, and the precompiled libraries, whose sources are not there. A read of build.c that fails is
-- one that finds the end of the file too early. Of the stacks of the kernel only the words that sys_fork and
-- sys_threadCreateWithStack write are followed.
pub mod Common
pub mod CharQueue
pub mod Buffer
pub mod Links
pub mod Address
pub mod Frames
pub mod Utils
pub mod Paging
pub mod Screen
pub mod ScreenMatrix
pub mod Text
pub mod Stats
pub mod Kernel
pub mod Messages
pub mod Sched
pub mod Boot
pub mod Semaphores
pub mod Interrupts
pub mod Syscalls
pub mod Regions
pub mod Processes
pub mod Descriptors
pub mod Build
pub mod Samples
