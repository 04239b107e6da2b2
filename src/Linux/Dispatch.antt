-- ===== src/Linux/Dispatch.antt =====
-- server_impl_linux.c: `server_dispatch_event`, `server_start_accepting_clients` and
-- `server_start_and_run`. The accepting loop runs on fuel; the batches are what the calls of
-- `epoll_wait` report one after another.
pub mod Accepted
pub mod Loops
pub mod Quiet
use aio_server.Base.{
  ℕ, zero, suc, ◌+◌, Bool, true, false, not, ◌||◌, Option, none, some, List, [], ◌∷◌, ◌==◌,
  if◌then◌else◌,
}
use aio_server.Kernel.{
  descriptor, resource, Answer, done, failed, Kernel, Sys, pure, ◌>>◌, ask, hold, crash, eagain,
  ewouldblock, write_event,
}
use aio_server.Linux.Worker.{WorkerThread}
use aio_server.Linux.Server.{Server, server_cleanup}
use aio_server.Linux.Server.Init.{server_init}

abbrev pub would_block : ℕ → Bool
would_block e = (e == eagain) || (e == ewouldblock)

-- What the loop does with the answer of `accept4`; `again` is the next round. The socket of a
-- client is not used.
abbrev pub accepted : Answer × Kernel → Sys Bool → Bool × Kernel
accepted (done n, k) again = again (hold (resource descriptor n) k).1
accepted (failed e, k) again = if would_block e then (true, k) else again k

-- `accept4` until it would block; false if the fuel runs out first.
unfoldable pub accept_loop : ℕ → Sys Bool
accept_loop zero k = (false, k)
accept_loop (suc f) k = accepted (ask k) (λ g. accept_loop f g)

-- The loop over `sv_workers[i]`, with the number of rounds left.
unfoldable pub signal_workers : ℕ → List WorkerThread → Sys (Unit {0})
signal_workers zero ws = pure tt
signal_workers (suc n) [] = crash
signal_workers (suc n) (w ∷ ws) = write_event w.wk_termsig 1 >> signal_workers n ws

-- How the handler, or the loop round it, came to its end.
pub data Progress : Type 0 where
  handled out_of_fuel : Progress

abbrev pub accepted_end : Server → Bool × Kernel → Progress × Server × Kernel
accepted_end s (true, k) = (handled, s, k)
accepted_end s (false, k) = (out_of_fuel, s, k)

unfoldable pub server_dispatch_event : ℕ → ℕ → Server → Kernel → Progress × Server × Kernel
server_dispatch_event fuel event s k =
    if event == s.sv_acceptfd
    then accepted_end s (accept_loop fuel k)
    else if event == s.sv_sigfds
    then (
      handled,
      record s { sv_quitflag = 1 },
      (signal_workers s.sv_worker_count s.sv_workers k).1,
    )
    else (handled, s, k)

-- The events of one batch, until the server has to quit.
unfoldable pub dispatch_events : ℕ → List ℕ → Server → Kernel → Progress × Server × Kernel
dispatch_events fuel [] s k = (handled, s, k)
dispatch_events fuel (e ∷ es) s k =
    if not (s.sv_quitflag == 0)
    then (handled, s, k)
    else elim (server_dispatch_event fuel e s k).0 [
      | handled ↦ let r = server_dispatch_event fuel e s k in dispatch_events fuel es r.1 r.2
      | out_of_fuel ↦ server_dispatch_event fuel e s k
    ]

pub data AcceptEnd : Type 0 where
  quit wait_failed waiting stuck : AcceptEnd

-- A batch is `none` where `epoll_wait` fails; past the last batch the server waits.
unfoldable pub server_start_accepting_clients :
    ℕ → List (Option (List ℕ)) → Server → Kernel → AcceptEnd × Server × Kernel
server_start_accepting_clients fuel [] s k =
    if not (s.sv_quitflag == 0) then (quit, s, k) else (waiting, s, k)
server_start_accepting_clients fuel (none ∷ bs) s k =
    if not (s.sv_quitflag == 0) then (quit, s, k) else (wait_failed, s, k)
server_start_accepting_clients fuel (some es ∷ bs) s k =
    if not (s.sv_quitflag == 0) then (quit, s, k) else elim (dispatch_events fuel es s k).0 [
      | handled ↦
          let r = dispatch_events fuel es s k in server_start_accepting_clients fuel bs r.1 r.2
      | out_of_fuel ↦ (stuck, (dispatch_events fuel es s k).1, (dispatch_events fuel es s k).2)
    ]

pub data RunEnd : Type 0 where
  init_failed : RunEnd
  ended : AcceptEnd → RunEnd

-- The server is cleaned up where the loop returns; waiting or stuck, it has not returned.
abbrev pub accept_end : AcceptEnd × Server × Kernel → RunEnd × Kernel
accept_end (quit, s, k) = (ended quit, (server_cleanup s k).1)
accept_end (wait_failed, s, k) = (ended wait_failed, (server_cleanup s k).1)
accept_end (waiting, s, k) = (ended waiting, k)
accept_end (stuck, s, k) = (ended stuck, k)

abbrev pub init_end :
    ℕ → List (Option (List ℕ)) → Option (Unit {0}) × Server × Kernel → RunEnd × Kernel
init_end fuel bs (some a, s, k) = accept_end (server_start_accepting_clients fuel bs s k)
init_end fuel bs (none, s, k) = (init_failed, (server_cleanup s k).1)

unfoldable pub server_start_and_run : ℕ → List (Option (List ℕ)) → Sys RunEnd
server_start_and_run fuel bs k = init_end fuel bs (server_init k)
