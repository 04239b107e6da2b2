-- ===== src/Linux/Tests.antt =====
-- The theorems on server_impl_linux.c in a concrete environment.
use aio_server.Base.{
  ℕ, ◌+◌, ◌≡◌, refl, true, false, none, some, [], ◌∷◌, arith, ◌==◌, if◌then◌else◌, ltb,
}
use aio_server.Kernel.{
  descriptor, resource, same, Answer, done, failed, Kernel, eagain, release, ask, hold, acquire,
  write_event,
}
use aio_server.Kernel.Build.{step, step_by, attempt, check_by}
use aio_server.Kernel.Owns.{IsOwning, IsOwning-refl, hold-IsOwning}
use aio_server.Linux.Epoll.{add_fd_to_epoll}
use aio_server.Linux.Socket.{create_server_socket, socket_steps, socket_finish}
use aio_server.Linux.Worker.{WorkerThread, zeroed, worker_thread_start}
use aio_server.Linux.Worker.Create.{worker_thread_create, create_steps}
use aio_server.Linux.Worker.Owned.{Created, create-Created}
use aio_server.Linux.Server.{Server, server_cleanup}
use aio_server.Linux.Server.Init.{server_init, init_steps, workers_step, start_workers}
use aio_server.Linux.Server.Books.{init-cleanup}
use aio_server.Linux.Dispatch.{
  accept_loop, signal_workers, server_dispatch_event, dispatch_events, quit,
  server_start_accepting_clients, server_start_and_run,
}
use aio_server.Linux.Dispatch.Accepted.{with_sockets, Returned, IsLeaking, run-IsLeaking}
use aio_server.Linux.Dispatch.Loops.{
  accept_loop-ends, accept_loop-spins, accept_loop-drops, signal-quits,
}
use aio_server.Linux.Server.Owned.{IsServer}
use aio_server.Linux.Client.{Client}
use aio_server.Linux.Messages.{
  State, Message, Event, object_type_signal, worker_thread_proc, receive_client,
}
use aio_server.Linux.Messages.Received.{Received, receive_client-closes_twice}
use aio_server.Linux.Messages.Proc.{Handshake, proc-Handshake}

-- The first call of the program, in an environment.
abbrev boot : (ℕ → Answer) → Kernel
boot answers = record {
  answers = answers;
  calls = 0;
  held = λ r. 0;
  faults = 0;
  watched = [];
  written = [];
}

-- One processor, a thread that starts, and one client before `accept4` would block.
abbrev one_client : ℕ → Answer
one_client i =
    if i == 11
    then done 1
    else if i == 20
    then done 2
    else if i == 22
    then failed eagain
    else done i

-- The server's accept socket is 1, its signal descriptor 7.
run-returns : Returned (server_start_and_run 3 (some (1 ∷ 7 ∷ []) ∷ []) (boot one_client)).0
unfolding server_start_and_run server_init init_steps step step_by attempt check_by acquire ask hold
    create_server_socket socket_steps socket_finish add_fd_to_epoll workers_step start_workers
    worker_thread_create create_steps worker_thread_start server_start_accepting_clients
    dispatch_events server_dispatch_event accept_loop signal_workers write_event release same
run-returns = tt

run-IsLeaking_example :
    IsLeaking
      (boot one_client)
      (server_start_and_run 3 (some (1 ∷ 7 ∷ []) ∷ []) (boot one_client)).1
      []
run-IsLeaking_example = run-IsLeaking 3 (some (1 ∷ 7 ∷ []) ∷ []) (boot one_client) run-returns

init-cleanup_example :
    IsOwning
      (boot one_client)
      (server_cleanup (server_init (boot one_client)).1 (server_init (boot one_client)).2).1
      []
init-cleanup_example = init-cleanup (boot one_client)

create-Created_example : Created (boot one_client) (worker_thread_create 4 (boot one_client))
create-Created_example = create-Created 4 (boot one_client)

-- A thread whose creation has reached level 5.
abbrev worker : WorkerThread
worker = record (zeroed 40) {
  wk_epoll_fds = 41;
  wk_termsig = 42;
  wk_messagequeue = 43;
  wk_clients = 44;
  wk_mqueue_name = 45;
  wk_mqueue_text = 46;
  wk_readyevent = 47;
  wk_rollback = 5;
}

-- The third call would block.
abbrev two_clients : ℕ → Answer
two_clients i = if i == 2 then failed eagain else done (i + 20)

accept_loop-ends_example : (accept_loop 3 (boot two_clients)).0 ≡ true
accept_loop-ends_example = accept_loop-ends 3 2 (boot two_clients) refl (omega arith)

-- `EMFILE` is 24.
accept_loop-spins_example : (accept_loop 1000 (boot (λ i. failed 24))).0 ≡ false
accept_loop-spins_example = accept_loop-spins 1000 24 (boot (λ i. failed 24)) refl (λ i. refl)

abbrev client_then_block : Kernel
client_then_block = boot (λ i. if i == 2 then failed eagain else done (30 + i))

accept_loop-drops_example :
    accept_loop 5 client_then_block
    ≡ (true, with_sockets (30 ∷ 31 ∷ []) (record client_then_block { calls = 3 }))
accept_loop-drops_example =
    accept_loop-drops 5 (30 ∷ 31 ∷ []) client_then_block (refl, (refl, refl)) (omega arith)

abbrev server : Server
server = record aio_server.Linux.Server.zeroed {
  sv_acceptfd = 1;
  sv_sigfds = 7;
  sv_workers = worker ∷ [];
  sv_worker_count = 1;
}

signal-quits_example :
    server_start_accepting_clients 1 (some (7 ∷ 1 ∷ []) ∷ []) server (boot two_clients) ≡ (
      quit,
      record server { sv_quitflag = 1 },
      (signal_workers 1 (worker ∷ []) (boot two_clients)).1,
    )
signal-quits_example =
    signal-quits 1 (1 ∷ []) [] server (boot two_clients) refl (λ e. omega (arith, e))

abbrev state : State
state = record { worker = worker; clients = [] }

-- Nothing is held but the socket 30, and there is memory for one structure only.
abbrev one_block : Kernel
one_block = record (boot (λ i. if i == 0 then done 60 else failed 12)) {
  held = λ r. if same (resource descriptor 30) r then 1 else 0;
}

held-one_block : one_block.held (resource descriptor 30) ≡ 1
unfolding same
held-one_block = refl

receive_client-closes_twice_example : (receive_client 30 state one_block).1.faults ≡ 1
receive_client-closes_twice_example =
    receive_client-closes_twice 30 60 12 state one_block refl refl held-one_block

-- Message number n carries the socket n.
abbrev plain : ℕ → Message
plain n = record { msg_code = 0; msg_fd = n }

abbrev term_event : Event
term_event = record { events = 1; object = object_type_signal }

proc-Handshake_example :
    Handshake plain 4 8 2
      (some (term_event ∷ []) ∷ [])
      state
      (boot one_client)
      (worker_thread_proc plain 4 8 2 (some (term_event ∷ []) ∷ []) state (boot one_client))
proc-Handshake_example =
    proc-Handshake plain 4 8 2 2 (some (term_event ∷ []) ∷ []) state (boot one_client) refl

-- The queue holds one message, and then every call fails.
abbrev one_message : ℕ → Answer
one_message i = if ltb i 5 then done 30 else failed eagain

abbrev client : Client
client = record { cl_address = 60; cl_sockfd = none; cl_filefd = some 30; cl_buffer = 61 }

-- A server of level 1, with its accept socket held, that gets the signal.
abbrev listening : Server
listening = record server { sv_rollback = 1 }

abbrev accepting : Kernel
accepting = (hold (resource descriptor 1) (boot one_client)).1

listening-IsServer : IsServer (boot one_client) listening accepting
listening-IsServer = record {
  level = omega arith;
  count = refl;
  low = (omega arith, tt);
  owning = hold-IsOwning (resource descriptor 1) (IsOwning-refl (boot one_client));
}
