-- ===== src/Linux/Server.antt =====
-- server_impl_linux.c: `struct server`, `server_init` and `server_cleanup`.
pub mod Books
pub mod Init
pub mod Owned
pub mod Start
use aio_server.Base.{
  ℕ, zero, suc, ◌+◌, Bool, true, false, Option, none, some, List, [], ◌∷◌, ◌==◌, if◌then◌else◌,
}
use aio_server.Kernel.{descriptor, block, resource, Kernel, Sys, pure, ◌>>◌, release, crash}
use aio_server.Linux.Worker.{WorkerThread, worker_thread_destroy}

-- `sv_workers` lists the entries of the array that are written, and `sv_workers_block` is the
-- block that holds the array.
pub record Server : Type 0 where
  pub sv_acceptfd : ℕ
  pub sv_epollfd : ℕ
  pub sv_sigfds : ℕ
  pub sv_threadrdy_eventfds : ℕ
  pub sv_workers_block : ℕ
  pub sv_workers : List WorkerThread
  pub sv_worker_count : ℕ
  pub sv_next_wk : ℕ
  pub sv_rollback : ℕ
  pub sv_quitflag : ℕ

-- `memset(p_srv, 0, sizeof(*p_srv))`
abbrev pub zeroed : Server
zeroed = record {
  sv_acceptfd = 0;
  sv_epollfd = 0;
  sv_sigfds = 0;
  sv_threadrdy_eventfds = 0;
  sv_workers_block = 0;
  sv_workers = [];
  sv_worker_count = 0;
  sv_next_wk = 0;
  sv_rollback = 0;
  sv_quitflag = 0;
}

-- The loop over `sv_workers[i]`, with the number of rounds left. An entry that was never written
-- is a null pointer.
unfoldable pub destroy_workers : ℕ → List WorkerThread → Sys (Unit {0})
destroy_workers zero ws = pure tt
destroy_workers (suc n) [] = crash
destroy_workers (suc n) (w ∷ ws) = worker_thread_destroy w >> destroy_workers n ws

-- The cases of the `switch`, each of which falls through to the one below.
abbrev pub close_accept : Server → Sys (Unit {0})
close_accept s = release (resource descriptor s.sv_acceptfd)

abbrev pub close_epoll : Server → Sys (Unit {0})
close_epoll s = release (resource descriptor s.sv_epollfd) >> close_accept s

abbrev pub close_signal : Server → Sys (Unit {0})
close_signal s = release (resource descriptor s.sv_sigfds) >> close_epoll s

abbrev pub close_ready : Server → Sys (Unit {0})
close_ready s = release (resource descriptor s.sv_threadrdy_eventfds) >> close_signal s

abbrev pub close_workers : Server → Sys (Unit {0})
close_workers s =
    destroy_workers s.sv_worker_count s.sv_workers
    >> (release (resource block s.sv_workers_block) >> close_ready s)

unfoldable pub server_cleanup : Server → Sys (Unit {0})
server_cleanup s =
    if s.sv_rollback == 5
    then close_workers s
    else if s.sv_rollback == 4
    then close_ready s
    else if s.sv_rollback == 3
    then close_signal s
    else if s.sv_rollback == 2
    then close_epoll s
    else if s.sv_rollback == 1
    then close_accept s
    else pure tt
