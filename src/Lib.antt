-- ===== src/Lib.antt =====
-- A model of MiniFreeRTOS, a small preemptive kernel with queues, semaphores, mutexes with priority
-- inheritance, and a trace, and the theorems that make it correct.
--
-- The parts. kernel/tasks.c keeps the task control blocks in three kinds of intrusive doubly linked
-- lists: a ready list for each priority, one list of delayed tasks by wake tick, and the event
-- lists of queues by priority. kernel/queue.c holds queues and semaphores; their tasks wait through
-- vTaskBlockCurrent and are woken by xTaskUnblockOne, and a mutex lends its owner the priority of
-- its first waiter. kernel/timers.c runs timers in a task of its own, to which other tasks send
-- commands through a queue. kernel/heap_1.c, kernel/heap_2.c and kernel/heap_4.c are three
-- allocators of which one is compiled in. kernel/trace.c records what happens in a ring.
-- portable/posix/port.c masks the tick signal, delivers ticks, and switches contexts.
--
-- How the state is modelled. `Kernel` (Kernel.antt) is memory and the static variables: `task` and
-- `queue` give what stands at an address, an address is a number, and NULL is `none`. A function of
-- the kernel is a function from `Kernel` to an `Outcome` (Kernel/Outcome.antt): it returns a value and
-- the next state, or `vAssertCalled` stops the program, or a pointer chase outruns its fuel. So a
-- theorem that a call returns also says that no assertion fails in it.
--
-- Which file models which part.
--   Word.antt: the 32-bit tick arithmetic of kernel/tasks.c.
--   Dll.antt and below: the pointer code of the lists, written once for the three pairs of pointers;
--     Dll/Segment, Dll/Update, Dll/Refine and Dll/Sorted relate it to lists of tasks, Dll/Family to
--     several lists through the same pointers, Dll/Falling to the order by priority.
--   Trace.antt and below: kernel/trace.c; Trace/Ring is its reading as a queue.
--   Port.antt: the critical sections of portable/posix/port.c and recording under them.
--   Tasks/Lists, Tasks/Priority, Tasks/Wait, Tasks/Schedule: the functions of kernel/tasks.c, and of
--     kernel/queue.c those of priority inheritance that kernel/tasks.c calls. `yield_task` is a
--     parameter: vPortYieldTask returns when the task runs again, and what others do meanwhile is its
--     effect on the state. portable/posix/port.c makes it of swapcontext.
--   Tasks/Invariant: the invariant `Inv` (every list stands for a list of tasks, in order, that holds
--     just the tasks that say so; priorities are in range and effective) and `Settled` (no task is
--     lost). The other modules of Tasks prove what the functions do to it: Tasks/Reweighs,
--     Tasks/Inherit and Tasks/Ended what priority inheritance does, and Tasks/Greatest what it finds;
--     Tasks/Outranks is about the test whether a task should run before the current one.
--   Tasks/Name, Tasks/Create: task names, task creation and the start of the scheduler, given an
--     allocator.
--   Tasks/Accessors: the functions of kernel/tasks.c on single variables, and the idle task.
--   Queues.antt and below: the operations of kernel/queue.c; Queues/Fifo reads the storage of a
--     queue as a list of messages, and Queues/Finish and Queues/Deliver are about sending and
--     receiving.
--   Sll.antt and below: the search and the link of singly linked lists, for the free lists of the heaps
--     and the active timers.
--   Timers.antt and below: kernel/timers.c. Timers/Active, Timers/Service and Timers/Commands are
--     its functions; Timers/Listed is about the list of active timers, Timers/Clock and Timers/Due
--     about the searches of it, by the clock and by the test of the source, Timers/Leaves and
--     Timers/Applied about commands, and Timers/Round, Timers/Lateness, Timers/Served and
--     Timers/Expire about expiry, and Timers/Delivered about a command on its way through the
--     queue.
--   Heap.antt: kernel/heap_1.c and the alignment of kernel/heap_internal.h.
--   Heap/Blocks: kernel/heap_2.c and kernel/heap_4.c. An address is an offset into the heap. The
--     other modules of Heap read the headers as a row of tiles, free and used, that covers the heap
--     (Heap/Tiles, Heap/Cover), and follow an allocation (Heap/Fit, Heap/Take, Heap/Allocate) and a
--     release (Heap/Release, Heap/Absorb, Heap/Merge, Heap/MergeBack, Heap/Free, Heap/Unique,
--     Heap/Roundtrip, Heap/Misuse).
--   CortexM.antt and below: portable/cortex_m/port.c, CortexM/Frame port_frame.c and its caller,
--     and CortexM/Memory freestanding.c beside it; CortexM/Critical, CortexM/Stored, CortexM/Framed
--     and CortexM/Moves are about them.
--   Scenario.antt, Tests.antt and below: a small system and the theorems on it.
--
-- Fuel. The search of an ordered insertion gets one more unit than its list is long, and
-- prvWakeExpiredTasks one more than the delayed list; the theorems on them show that both suffice.
-- The waiting loops of kernel/queue.c get a unit for each wait. A search of the free list gets a
-- unit for each byte of the heap, and a walk along the active timers one more than there are
-- timers; the theorems show that both suffice. The loop over due timers ends with more fuel than
-- the timers are late in all.
--
-- Numbers are natural numbers; additions and subtractions of ticks, counts and indices wrap round
-- at 2^32 as uint32_t does. Two counters do not: the nesting of critical sections of
-- portable/posix/port.c, which would need 2^32 open sections to wrap, and the lengths of the lists
-- of tasks, which hold no more tasks than the task table. Offsets into a queue's storage are size_t
-- and fit.
--
-- The fields of the headers of kernel/heap_2.c and kernel/heap_4.c are functions from the address of a
-- block, so headers that overlap, or that a task overwrites, do not alias as the bytes of ucHeap do.
--
-- What is not modelled: the signal, timer and context calls of the POSIX port; of the Cortex-M port the
-- assembly code, what never returns, and the board. NULL arguments are
-- modelled where the code tests them and the model has a value for them.
pub mod Common
pub mod Word
pub mod Trace
pub mod Dll
pub mod Sll
pub mod Kernel
pub mod Port
pub mod Tasks
pub mod Queues
pub mod Timers
pub mod Heap
pub mod CortexM
pub mod Scenario
pub mod Tests
