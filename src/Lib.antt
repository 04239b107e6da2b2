-- ===== src/Lib.antt =====
-- aio_server: a server that accepts clients on one thread and serves them on worker threads.
--
-- The program: server_main.c calls `server_start_and_run`, which server_impl_linux.c and
-- server_impl_windows.c define for their systems. On Linux the main thread waits on an epoll
-- descriptor for its accept socket and for SIGINT; each worker thread waits on an epoll descriptor
-- of its own for a termination event and for a message queue that carries client sockets. The
-- files of base/ are shared: a list, an allocator, atomic operations, statistics, HTTP responses.
--
-- LinkedList is base/linked_list.c. `Heap` has `struct list_node` and `struct dlinked_list` at
-- addresses, and commands that read and write them; a read of a free address is a fault, and a
-- `BUGSTOP_IF` stops the program, as in the build with `__DEBUG_ENABLED__` that makefile.linux
-- makes. Addresses and `size_t` have 32 bits. `Ops` has the functions under the names of the
-- source. Each loop runs on fuel, one round more than `dl_items`, which is enough where the count
-- is that of the nodes. `Ring` says when the memory holds a sequence of items (`IsList`);
-- `Splice`, `Gap`, `Insert`, `Remove` and `Access` are the lemmas on what an operation reads and
-- writes. What the allocator answers is the argument `fresh` of an operation, null where it fails.
--
-- Kernel is the operating system as server_impl_linux.c sees it. `answers` is what the environment
-- answers to each call in turn, and nothing is assumed of it but what a theorem says. `held`
-- counts how often each resource (descriptor, block, thread, queue, list) is held, and `faults`
-- counts the releases of what is not held, such as a second `close`. `Kernel.Build` is code that
-- leaves at the first call that fails; `Kernel.Owns` says what a piece of code owns.
-- `Kernel.Eintr` is the loop of base/eintr_wrapper.h; elsewhere a call has the answer of its last
-- attempt.
--
-- Linux is server_impl_linux.c. `Worker` and `Worker.Create` are `worker_thread_create`, `_start`
-- and `_destroy`; `Epoll` is `add_fd_to_epoll`; `Socket` is `create_server_socket`; `Server` and
-- `Server.Init` are `server_init` and `server_cleanup`; `Dispatch` is the accepting loop with
-- `server_dispatch_event` and `server_start_and_run`; `Client` is `struct client`; `Messages` is
-- `worker_thread_proc` and its handlers. The modules below each hold the proofs. The level
-- `wk_rollback` or `sv_rollback` says what an object owns (`owned_at`, `server_owned`). Events
-- arrive as a list of batches, one for each call of `epoll_wait`. Loops that wait for the
-- environment to report an end, over `accept4` and `mq_receive`, run on fuel that is an argument:
-- the environment may keep them going for ever, and one round more than it does is enough. The
-- message queue blocks while it is empty, so that its loop ends only where `mq_receive` fails.
--
-- Allocator, Atomic, HttpCodes and Statistics are the files of base/ of these names. A word of
-- `atomic32_t` has 32 bits, as on the 32-bit targets, and each atomic operation, and each update
-- of the statistics under their lock, is one step. `Statistics.Threads` takes that update apart
-- into the accesses that threads make between lock_acquire and lock_release; what the locks of the
-- two systems do is the parameter `LockApi` of Lock. `Statistics.Dump` and `Allocator.Dump` are
-- the printing of the counters.
--
-- Printf has the conversions of the formats that are used, and `Printf.Buffer` a text that goes
-- through a buffer. Debug is base/debug_helpers_linux.c with macros of base/debug_helpers.h, and
-- `Debug.Windows` is base/debug_helpers_win.c. The frames of a stack trace, the name that a symbol
-- has and the like are arguments, and StringCchPrintfEx is the parameter `CchPrintf`.
--
-- Windows is server_impl_windows.c, on the same Kernel, where a descriptor is a socket or a
-- handle. `Client` is `struct client`. `Service` is the state that the threads share, and the
-- messages in the two ports; `Service.Worker` has the handlers of the worker threads up to
-- `server_worker_thread`, `Service.Request` the request line and the path, `Service.Header` the
-- header of a response 200, `Service.Accept` the list of clients, and `Service.Main` the accepting
-- thread up to `server_main_loop`. `store` has the structures that are allocated, so that a read
-- of one that was freed is an outcome of its own. `Service.System` puts the threads together as a
-- step relation: a worker handles any completion that is owed, and the accepting thread does a
-- round of its inner loop, in any order. A handler, and a round, is one step, so that the moment
-- between a call of AcceptEx and its count is not seen. `Service.Books` says where the clients
-- stand, and `Moves`, `Handlers`, `Completions`, `Rounds`, `Filling` and `Reachable` that each
-- step keeps these books; `Parsed`, `Path`, `Removal`, `Progress` and `Stopping` are about single
-- functions, and `Starving` about the runs in which connections fail. `Service.Ledger` counts what
-- the threads hold of the kernel, and its child modules follow it through the handlers, the rounds
-- and the steps. `Options` is the loop over the arguments in `server_start_and_run`
-- (`Options.Given` says what arguments give), and `Start` is `server_init` and
-- `server_cleanup_and_shutdown`; `Run` is the whole of `server_start_and_run`, where the threads
-- do any run of `Service.System` that ends the accepting thread, and `Run.Books` its balance; a
-- run without a list of clients is stopped by a `BUGSTOP_IF` and does not return. The workers need
-- not have taken their message to stop by then; `Text` is base/misc.c with what the server uses of
-- the C library. The loops of the accepting thread run on fuel: one round for each accept that is
-- missing, and one more, is enough where the calls succeed; a reset by the peer repeats the call
-- as long as the environment keeps on with it. The allocator never gives the block of a structure
-- that is allocated. A buffer is read up to a NUL or the end of what a receive left in it.
--
-- The threads of the Linux server are modelled one at a time: the main thread sees a worker's
-- report as the answer of a `read`, and a worker sees the main thread's signal as an event.
-- `pthread_join` returns; on Linux a worker that was started and never told to quit (the end of
-- the main loop by a failure of `epoll_wait`) would not, so that the results on such a run are
-- about what happens where it does. The descriptor in a message is a number, never -1. Blocks,
-- descriptors and the like are numbers that the environment chooses, also one that is held
-- already.
--
-- Not modelled: the thin wrappers of base/lock.h, the installation of the handlers of
-- base/debug_helpers*, the counting of connections by the Windows server's macros, what the
-- Windows server prints for an unknown argument, the addresses of the clients' peers, a failure of
-- GetQueuedCompletionStatus in the accepting thread, which is only repeated, the copies by
-- `_strdup`, a limit of outstanding accepts below 0 in a whole run, and server_main.c, which only
-- calls the server.
pub mod Allocator
pub mod Atomic
pub mod Base
pub mod Debug
pub mod HttpCodes
pub mod Kernel
pub mod LinkedList
pub mod Linux
pub mod Lock
pub mod Printf
pub mod Statistics
pub mod Tests
pub mod Windows
