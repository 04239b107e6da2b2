-- ===== src/Linux/Server/Init.antt =====
-- server_impl_linux.c: `server_init`.
use aio_server.Base.{
  ℕ, zero, suc, ◌+◌, Bool, true, false, Option, none, some, [], ◌∷◌, ◌++◌, ◌==◌, if◌then◌else◌,
}
use aio_server.Kernel.{descriptor, block, Kernel}
use aio_server.Kernel.Build.{Build, ◌>>=◌, ◌>>◌, step, step_by, attempt, check_by}
use aio_server.Linux.Epoll.{add_fd_to_epoll, data_type_fd, epollin, epollet, epollrdhup}
use aio_server.Linux.Socket.{create_server_socket}
use aio_server.Linux.Worker.{WorkerThread, worker_thread_start, worker_thread_destroy}
use aio_server.Linux.Worker.Create.{worker_thread_create}
use aio_server.Linux.Server.{Server, zeroed}

-- `++p_srv->sv_rollback`
abbrev pub raised : Server → Server
raised s = record s { sv_rollback = s.sv_rollback + 1 }

-- `p_srv->sv_workers[p_srv->sv_worker_count++] = current`
abbrev pub with_worker : WorkerThread → Server → Server
with_worker w s = record s {
  sv_workers = s.sv_workers ++ w ∷ [];
  sv_worker_count = s.sv_worker_count + 1;
}

abbrev pub started_end : Server → Bool × WorkerThread × Kernel → Server × Kernel
started_end s (true, w, k) = (with_worker w s, k)
started_end s (false, w, k) = (s, (worker_thread_destroy w k).1)

abbrev pub created_end : Server → Option WorkerThread × Kernel → Server × Kernel
created_end s (none, k) = (s, k)
created_end s (some w, k) = started_end s (worker_thread_start s.sv_threadrdy_eventfds w k)

-- The loop over the processors: `n` rounds are left, the next of which is number `l`.
unfoldable pub start_workers : ℕ → ℕ → Server → Kernel → Server × Kernel
start_workers zero l s k = (s, k)
start_workers (suc n) l s k =
    let (s', k') = created_end s (worker_thread_create l k) in start_workers n (suc l) s' k'

abbrev pub workers_end : Server × Kernel → Option (Unit {0}) × Server × Kernel
workers_end (s, k) = (if s.sv_worker_count == 0 then none else some tt, s, k)

unfoldable pub workers_step : ℕ → Build Server (Unit {0})
workers_step nr_procs s k = workers_end (start_workers nr_procs 0 s k)

-- The levels are the accept socket, the epoll descriptor, the signal descriptor, the event
-- descriptor for the threads, and the array of workers. The calls without a level of their own
-- are `sigaddset`, `sigprocmask`, the two additions to epoll, and `sysconf`.
unfoldable pub init_steps : Build Server (Unit {0})
init_steps = do
  step_by create_server_socket λ n s. raised (record s { sv_acceptfd = n })
  step descriptor λ n s. raised (record s { sv_epollfd = n })
  attempt
  attempt
  step descriptor λ n s. raised (record s { sv_sigfds = n })
  check_by
      λ s. add_fd_to_epoll s.sv_epollfd s.sv_sigfds (epollin + epollet) data_type_fd s.sv_sigfds
  check_by λ s.
      add_fd_to_epoll s.sv_epollfd s.sv_acceptfd (epollin + epollet + epollrdhup) data_type_fd
        s.sv_acceptfd
  step descriptor λ n s. raised (record s { sv_threadrdy_eventfds = n })
  nr_procs ← attempt
  step block λ n s. raised (record s { sv_workers_block = n })
  workers_step nr_procs

-- `none` is the return value -1.
unfoldable pub server_init : Kernel → Option (Unit {0}) × Server × Kernel
server_init k = init_steps zeroed k
