-- ===== src/Windows/Start.antt =====
-- server_impl_windows.c: `server_init` and `server_cleanup_and_shutdown`.
pub mod Books
pub mod Init
pub mod Levels
pub mod Owned
pub mod Socket
pub mod Threads
use aio_server.Base.{
  ℕ, zero, suc, ◌+◌, ◌*◌, ◌%◌, Bool, true, false, Option, none, some, List, [], ◌∷◌, ◌++◌, ◌==◌,
  if◌then◌else◌,
}
use aio_server.Kernel.{
  ResourceKind, descriptor, block, thread, client_list, winsock, lock, resource, Answer, done,
  failed, Kernel, Sys, pure, ◌>>◌, ask, acquire, release, crash,
}
use aio_server.Atomic.{word_mod}
use aio_server.Windows.Client.{Client, client_destroy}
use aio_server.Windows.Service.{wsa_io_pending}

-- `sv_clients` is the list, or null; `sv_worker_threads` lists the entries of the array that are
-- written, a thread or null, and `sv_threads_block` is the block that holds the array. `rollback`
-- is the local variable of `server_init`.
pub record Server : Type 0 where
  pub sv_sock : ℕ
  pub sv_iocp : ℕ
  pub sv_iocp_accept : ℕ
  pub sv_threads_block : ℕ
  pub sv_worker_threads : List (Option ℕ)
  pub sv_worker_count : ℕ
  pub sv_clients : Option ℕ
  pub rollback : ℕ

-- `RtlZeroMemory(sv, sizeof(*sv))`
abbrev pub zeroed : Server
zeroed = record {
  sv_sock = 0;
  sv_iocp = 0;
  sv_iocp_accept = 0;
  sv_threads_block = 0;
  sv_worker_threads = [];
  sv_worker_count = 0;
  sv_clients = none;
  rollback = 0;
}

-- The cases of the `switch` in `server_init`, each of which falls through to the one below.
abbrev pub end_winsock : Server → Sys (Unit {0})
end_winsock s = release (resource winsock 0)

-- The lock of the list, and that of the statistics.
abbrev pub end_lock : Server → Sys (Unit {0})
end_lock s = release (resource lock 0) >> release (resource lock 1) >> end_winsock s

-- Without a list `BUGSTOP_IF` stops the program.
abbrev pub destroy_list : Option ℕ → Sys (Unit {0})
destroy_list none = crash
destroy_list (some l) = release (resource client_list l)

abbrev pub end_list : Server → Sys (Unit {0})
end_list s = destroy_list s.sv_clients >> end_lock s

abbrev pub end_iocp : Server → Sys (Unit {0})
end_iocp s = release (resource descriptor s.sv_iocp) >> end_list s

abbrev pub end_iocp_accept : Server → Sys (Unit {0})
end_iocp_accept s = release (resource descriptor s.sv_iocp_accept) >> end_iocp s

abbrev pub end_sock : Server → Sys (Unit {0})
end_sock s = release (resource descriptor s.sv_sock) >> end_iocp_accept s

unfoldable pub undo_init : Server → Sys (Unit {0})
undo_init s =
    if s.rollback == 6
    then end_sock s
    else if s.rollback == 5
    then end_iocp_accept s
    else if s.rollback == 4
    then end_iocp s
    else if s.rollback == 3
    then end_list s
    else if s.rollback == 2
    then end_lock s
    else if s.rollback == 1
    then end_winsock s
    else pure tt

-- The loop over the array: a thread is waited for, and its handle is closed.
unfoldable pub close_threads : List (Option ℕ) → Sys (Unit {0})
close_threads [] = pure tt
close_threads (none ∷ ts) = close_threads ts
close_threads (some t ∷ ts) = release (resource thread t) >> close_threads ts

-- A node of the list with the client it names; `client_destructor` for each, and then the nodes.
unfoldable pub destroy_clients : List (ℕ × Client) → Sys (Unit {0})
destroy_clients [] = pure tt
destroy_clients ((node, c) ∷ cs) = client_destroy c >> destroy_clients cs

unfoldable pub destroy_nodes : List (ℕ × Client) → Sys (Unit {0})
destroy_nodes [] = pure tt
destroy_nodes ((node, c) ∷ cs) = release (resource block node) >> destroy_nodes cs

unfoldable pub server_cleanup_and_shutdown : List (ℕ × Client) → Server → Sys (Unit {0})
server_cleanup_and_shutdown cs s =
    close_threads s.sv_worker_threads
    >> release (resource block s.sv_threads_block)
    >> release (resource descriptor s.sv_sock)
    >> destroy_clients cs
    >> destroy_nodes cs
    >> destroy_list s.sv_clients
    >> release (resource descriptor s.sv_iocp)
    >> release (resource descriptor s.sv_iocp_accept)
    >> release (resource lock 0)
    >> release (resource lock 1)
    >> release (resource winsock 0)
