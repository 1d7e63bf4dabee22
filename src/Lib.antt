-- ===== src/Lib.antt =====
-- X1 is a small kernel for one 32-bit x86 processor. This library models its own code, under src/.
--
-- Parts and their files:
-- - Base: numbers, tests, lists of addresses, 32-bit words, and the outcomes of kernel code (Outcome):
--   a result, a panic (a failed assertion), a wait for a mutex, or undefined behaviour.
-- - LinkedList: the interface of lib/list.h. That file is copied from librbraun, so it is a parameter:
--   a record of its operations, with a law for each on the nodes that a traversal visits. The components
--   that link nodes take it as an instance argument; sequences of nodes meet it.
-- - Mem: src/mem.c, the allocator. A boundary tag is a word of memory at its address, the free list is
--   a list of payload addresses, and mem_mutex a flag. Blocks is the abstract view, a list of blocks
--   that tiles the heap; Located, Tags, FreeList and Merge relate the operations on tags and lists to
--   it; Find, Setup, Alloc and Free are about mem_free_list_find, mem_setup, mem_alloc and mem_free;
--   Live, Regions, Account, Payload and History about the regions that callers hold over a history of
--   calls, Room about when mem_alloc has memory to give.
-- - Thread: src/thread.c. State is the data (struct thread, struct thread_runq and the flags of the
--   processor) with the functions on one thread; Runq the run queue; Sched the interface (thread_yield,
--   thread_sleep, thread_wakeup, thread_exit, thread_main, and what a thread does when its context is
--   loaded again). A switch of contexts is a change of the current thread; the point where the previous
--   thread goes on is stored with it. Queue, Next, Park, Pick and Schedule are about
--   thread_runq_schedule. Frame and System are about the state of all threads between two calls;
--   Calls, Enable, Add, Wakeup, Held, Quiet, Leave, Tell, Exit and Resume about what each call of the
--   interface makes of it, and Trace about their runs. Create is the creation, joining and destruction
--   of threads, with the heap of Mem below; Forge is about the first stack of a thread, Insert and
--   Created about thread_create, Join and Destroy about thread_join and thread_destroy. The addresses
--   of thread_start and thread_idle are parameters, and snprintf too. The threads of the run queue are
--   addresses, so that the current thread is never NULL; an address at which there is no thread counts
--   as that of a dead one.
-- - Mutex: src/mutex.c, one mutex on top of the threads. A call that sleeps returns at the switch, and
--   mutex_lock_turn is what follows. Own is the state of the mutex between two calls, Calls, Turn and
--   Unlock are about the calls, and Trace about runs of threads that use the mutex; the threads
--   whose calls took it and that did not unlock it, and the waiters of the calls that did not return,
--   are kept beside its state.
-- - Condvar: src/condvar.c, a condition variable with its mutex, cut at the switches in the same way;
--   Signal is about condvar_signal, Quiet about a signal without a switch, Rouse and Broadcast about
--   condvar_broadcast.
-- - Uart: src/uart.c. The circular buffer of lib/cbuf.h is a parameter, a record of operations with
--   their laws on the bytes it holds, and a byte read from the port is an argument. Irq is the interrupt
--   handler, which prints with Printf, Bytes is about uart_read.
-- - Cpu: src/cpu.c. Flags is the interrupt flag, Tables the descriptor tables and the handlers of
--   interrupts (cpu_setup_gdt, cpu_setup_idt, cpu_irq_register), Interrupt the call of a handler
--   (cpu_intr_main, cpu_default_intr_handler), on the console of Printf; the addresses of tables and
--   service routines, and a handler's function, are parameters.
-- - Strings: src/string.c on a memory of bytes. The loops that look for a NUL run on fuel; one step
--   more than the length of the string is enough.
-- - Timer: src/timer.c. The list of timers is one of LinkedList; the call of a timer's function is a
--   parameter, and timer_mutex a flag. Ticks is the arithmetic modulo 2^32, Order timer_schedule, Process
--   timer_process_list, whose loop runs on fuel: one step more than there are timers due is enough where
--   the timer functions schedule timers, if at all, behind those.
-- - I8259: src/i8259.c, with the bytes sent to ports as a list. Masks is about the bits of a mask
--   register, Handle about masking and acknowledging interrupts.
-- - I8254: src/i8254.c with thread_report_tick of src/thread.c; Tick is about its handler,
--   Interrupt about the interrupt from cpu_intr_main on. The port
--   writes of the setup functions go to the list of I8259.
-- - Printf: src/printf.c and src/panic.c. vsnprintf is copied from librbraun, so it is a parameter, and
--   the static buffer a function of its index; the loop over it runs on the buffer's size for fuel, which
--   is enough for a string in the buffer. Output is about vprintf, Panic about panic.
-- - Sw: src/sw.c, on Condvar (with its mutex) and Timer. The functions of the mutex, the condition
--   variable and the timers are called as the code calls them; a thread that finds sw_mutex locked gives
--   the outcome blocked. Setup is about sw_setup, Quiet about sections in which no switch takes place,
--   Run about sw_timer_run, Controls about sw_shell_start and sw_shell_stop, Wait about sw_shell_wait. sscanf and
--   shell_cmd_register are parameters.
-- - Boot: src/main.c. Its calls are those of the other components, on a record of their states; the
--   addresses of functions, tables and static variables are a record, shell_setup and the version are
--   parameters. Booting is the state of the threads while thread_dummy runs, Insert, Idle and Threads are about
--   the creation of threads in it, with the memory of Mem, Enable about thread_enable_scheduler, Start
--   and Main about main. The children called Start are about the setup functions of devices.
-- The children called Examples and Tests, and Thread.Runs, Thread.Births and Mutex.Session, hold the
-- theorems at concrete inputs, and runs of the code.
--
-- Memory of the allocator is read and written in words of 4 bytes at their addresses: the boundary tags,
-- and the first stack of a thread. List nodes are not bytes of it, since the list is a parameter, and
-- other payloads are records of the model. A caller that finds mem_mutex held gives the
-- outcome blocked.
--
-- Not modelled: lib/ (copied from librbraun), assembly, and the loops that never return (cpu_halt,
-- thread_idle, timer_run beyond its turns).
pub mod Base
pub mod LinkedList
pub mod Mem
pub mod Cpu
pub mod Thread
pub mod Mutex
pub mod Condvar
pub mod Uart
pub mod Strings
pub mod Timer
pub mod I8259
pub mod I8254
pub mod Printf
pub mod Sw
pub mod Boot
