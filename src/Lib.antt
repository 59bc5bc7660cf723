-- ===== src/Lib.antt =====
-- A model of the kernel of HobbyOS, a small 64-bit operating system written in C.
--
-- The parts and how they interact. The process table (kernel/process/process.c) holds 64 process
-- control blocks; the scheduler (kernel/scheduler/scheduler.c) links the ready ones in a queue and
-- switches between them. Pipes (kernel/fs/pipe.c) and TCP connections (kernel/net/tcp.c) put a
-- process to sleep and make it ready again; signals (kernel/signal/signal.c) do the latter too, and
-- end or redirect a process on its way back to user mode. The page allocator
-- (kernel/memory/pmm.c) counts references of pages, the packet buffers (kernel/net/netbuf.c) those
-- of buffers, and the system calls on descriptors (kernel/syscall/syscall.c) those of pipes. The
-- kernel's heap (kernel/memory/kheap.c) hands out blocks of bytes, and a process has a list of mapped
-- regions (kernel/memory/mmap.c). An epoll instance (kernel/fs/epoll.c) watches descriptors, and the
-- timer wakes the process that waits for one. Copies between user and kernel memory check addresses
-- first (kernel/memory/user_access.c), and files are guarded by permission bits
-- (kernel/security/cred.c).
--
-- Which file models what:
-- - Base and its children: C arrays as lists, bytes, words and Boolean tests.
-- - Process: kernel/process/process.h. A pointer to a process is its index in the table. The record
--   `Kernel` holds the static variables of process.c and scheduler.c, and the two processor
--   registers that `schedule` writes.
-- - ProcessTable: kernel/process/process.c, with process_create, process_alloc and
--   process_wait_for.
-- - Sched: kernel/scheduler/scheduler.c, with scheduler_add and schedule.
-- - Signal: kernel/signal/signal.c, and SYS_KILL, SYS_SIGACTION and SYS_SIGRETURN
--   of kernel/syscall/syscall.c.
-- - Cred: kernel/security/cred.c.
-- - Ring: the two loops over a circular buffer that pipes and TCP have in common.
-- - Pipe: kernel/fs/pipe.c.
-- - Journal: kernel/fs/journal.c. A call yields its sector writes in order.
-- - Pmm: kernel/memory/pmm.c.
-- - Kheap: kernel/memory/kheap.c, with the headers of its blocks as a function from addresses.
-- - Mmap: kernel/memory/mmap.c but for its page tables, and SYS_MMAP of kernel/syscall/syscall.c.
-- - Fd: the descriptor tables in kernel/syscall/syscall.c: SYS_CLOSE, SYS_PIPE, SYS_DUP2, and what
--   syscall_fork and syscall_exit do to descriptors. Fd/Refs counts the descriptors of a pipe, Fd/Ends
--   and Fd/Refers say what the calls do to a pipe's counts, Fd/Steps puts the calls together.
-- - Poll: kernel/fs/poll.c. Poll/Pipes compares its tests with the calls on pipes.
-- - Epoll: kernel/fs/epoll.c; Epoll/Wait is SYS_EPOLL_CREATE, SYS_EPOLL_CTL and SYS_EPOLL_WAIT of
--   kernel/syscall/syscall.c, Epoll/Tick is scheduler_tick of kernel/scheduler/scheduler.c, which
--   ends the waits.
-- - Swap: the slots of kernel/memory/swap.c, and kernel/memory/rmap.c.
-- - Netbuf: kernel/net/netbuf.c.
-- - UserAccess: kernel/memory/user_access.c.
-- - Tcp: kernel/net/tcp.c. Tcp/Input is tcp_receive, Tcp/Timer is tcp_tick, Tcp/Calls are the calls
--   of the socket layer, Tcp/Checksum is tcp_checksum.
--
-- How state and time are modelled. A component's static variables are a record, and an operation is
-- a function on it under the C function's name; a large body is cut into functions for its parts.
-- Sleeping: a call that gives the processor away gets one function for each sleep, what the other
-- processes do to the state meanwhile, and its theorems hold for all such functions that keep the
-- invariant. `schedule` is the switch up to the moment in which the chosen process runs.
--
-- Numbers are native; a C word wraps around where the code lets it (`% 2 ^ 32`). Counters that an
-- invariant bounds are written without the wrap. Loops over an array take the number of rounds that
-- are left, which is the array's length; the loop of tcp_send takes the number of bytes, enough
-- since every turn sends at least one; the scan of the page allocator takes the number of pages. The
-- walk over the heap's free list takes two turns more than the heap has room for headers, and the
-- search for a free range of addresses one turn more than there are regions; a function that can run
-- out of turns then returns none, and the theorems say that it does not.
--
-- What is a parameter: the framebuffer's address, the answers of kmalloc and of the page allocator
-- where a stack or a pipe is made, the calls of sockets and epoll instances on descriptors, whether
-- the terminal and the sockets are ready, what the timer does for the network, the kernel's clock
-- and network address, and the memory behind a received segment.
--
-- What is not modelled: port input and output, page tables, the file systems, the other network
-- protocols, the program loader, interrupts and boot, the shell, and the programs in user/. Debug
-- output is left out, and so is the eviction to swap before a page is allocated. The checksum of
-- tcp.c is modelled on its own: the segments that a connection sends are recorded without it.
pub mod Base
pub mod Process
pub mod Cred
pub mod Sched
pub mod ProcessTable
pub mod Signal
pub mod Ring
pub mod Pipe
pub mod Kheap
pub mod Mmap
pub mod Fd
pub mod Poll
pub mod Epoll
pub mod Pmm
pub mod Tcp
pub mod UserAccess
pub mod Netbuf
pub mod Journal
pub mod Swap
