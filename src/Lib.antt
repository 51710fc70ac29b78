-- ===== src/Lib.antt =====
-- The SofieOS kernel (kernel/src and the headers of kernel/), a kernel for one RISC-V hart that
-- runs tasks in user mode and protects their memory, down to single stack frames, by the eight PMP
-- regions of the hart.
--
-- Its parts and the modules that model them, each function under the name that it has in C:
--   Pmp       kernel/src/pmp.c: ranges of memory opened to the current task, three at a time, in
--             turn
--   Buffer    kernel/src/buffer.c: the list of the buffers that may be opened, each with its owner
--   Umalloc   kernel/src/umalloc.c: the user heap, whose blocks are buffers
--   Task      kernel/src/task.c, kernel/task.h: the table of tasks, sleep, wakeup, the scheduler
--   Lock      kernel/src/lock.c: sleep locks and semaphores; its spinlocks are in Task
--   Message   kernel/src/task.c, kernel/src/linkedlist.c: a queue of messages for each task
--   Stack     kernel/src/task.c, kernel/src/callimpl.c: stacks that grow by whole frames, and the
--             system calls that close a frame to the functions that it calls
--   Syscall   kernel/src/callimpl.c: the system calls
--   Bytes     kernel/src/memcpy.c, kernel/src/memset.c: what the loops over bytes do to memory
--   Uart      kernel/src/uart.c: the serial port
--   Start     kernel/src/kernel_main.c, kernel/src/cpu.c: main up to the scheduler, clock and timer
--   Riscv     kernel/riscv.h: the registers of the hart
--   Bench     src/main.c: what the programs compute that measure the kernel; User.Programs has the
--             tasks
--   Trap      kernel/src/trap.c: dispatch of traps, and the access faults by which a task gets at
--             its buffers
--   User      kernel/src/syscall.S, kernel/src/trampoline.S: system calls and accesses to memory as
--             a task makes them, and kernel/src/memcpy.c, kernel/src/memset.c,
--             kernel/src/uprintf.c, kernel/src/uassert.c over these, in both modes
-- Base, Word, Memory and Kernel are what they share: lists and tests, uint32_t arithmetic, bytes of
-- memory, and the kernel's state with the commands over it. Fixture is a small state at which the
-- tests run.
--
-- The state is one record, Kernel, with a field for each global variable; C structs are records and
-- the linked lists are lists. A pointer to a task is its place in the table. What the kernel reads
-- and writes through user pointers, the headers of heap blocks and the words of locks lie in a
-- memory of bytes. A function that changes the state is a command: it takes the state to a run,
-- which is a result with a new state, a panic, a fault on a NULL pointer, or a switch to the
-- scheduler with the rest of the call, which goes on from whatever state the task is picked again
-- in. Interleavings are sequences of such runs: Lock.Exclusion for the users of a lock, which
-- release it only when they hold it, Lock.Semaphores for those of a semaphore, Task.Schedule for
-- the scheduler and the calls that change a task's state, Umalloc.System for the calls on the heap,
-- with any other change of the state between two steps. Interrupts are off in the kernel, so
-- nothing else interleaves.
--
-- Loops over lists are recursion on the list. The loops in which a task sleeps until a lock or a
-- semaphore is free have no bound in C; they take the number of times that the task may be woken in
-- vain, and end as `starved` beyond it. A free lock needs one round. The scheduler's pass over the
-- table takes fuel for 17 places, one more than the table can have, and sort fuel for as many calls
-- as its range has entries.
--
-- freedom-metal's PMP driver is a parameter, Metal, with the laws Lawful that its header documents;
-- Metal.Regs is an instance. malloc is the list of the addresses that its coming calls return, 0
-- for NULL. vprintf and rand are the parameter Libc. The hart and the compiled code of the tasks
-- are the parameter Hart: whether the PMP lets a user-mode access pass, of which ChecksPmp states
-- what the privileged architecture says, and the registers of the running task at a trap. An access
-- to memory takes the number of times that it may trap. A device register that is polled is the
-- list of what its coming reads give. Not modelled: what is printed, the assembly files but for the
-- stubs and the saving of registers at a trap, the trap frame that is used before the first task
-- runs, and the libraries that only the programs in src/main.c call (src/lfs.c, src/bignum.c,
-- src/ecdsa-generic.c).
pub mod Base
pub mod Word
pub mod Memory
pub mod Bytes
pub mod Riscv
pub mod Metal
pub mod Pmp
pub mod Kernel
pub mod Buffer
pub mod Umalloc
pub mod Task
pub mod Lock
pub mod Stack
pub mod Message
pub mod Syscall
pub mod Trap
pub mod User
pub mod Uart
pub mod Start
pub mod Bench
pub mod Fixture
