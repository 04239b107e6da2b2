-- ===== src/Linux/Messages.antt =====
-- server_impl_linux.c: `worker_thread_proc` and the handlers of its events. The loop over the
-- message queue runs on fuel; the batches are what the calls of `epoll_wait` report one after
-- another. `message_of` reads the message that `mq_receive` stored, from the number of its answer.
pub mod Received
pub mod Proc
use aio_server.Base.{
  ℕ, zero, suc, ◌+◌, ◌%◌, ◌/◌, Bool, true, false, not, Option, none, some, List, [], ◌∷◌, ◌++◌,
  ◌==◌, if◌then◌else◌,
}
use aio_server.Kernel.{
  descriptor, block, resource, Answer, done, failed, Kernel, Sys, ask, acquire, release,
  write_event, eagain,
}
use aio_server.Linux.Worker.{WorkerThread, thread_init_ok, thread_init_fail}
use aio_server.Linux.Client.{Client, client_create, client_destroy}
use aio_server.Linux.Epoll.{
  add_fd_to_epoll, DataType, data_type_ptr, epollin, epollrdhup, epollet, epollerr,
}

-- `kObjectType`; `object_unknown` stands for every other value.
pub data ObjectType : Type 0 where
  object_type_server object_type_client object_type_signal object_type_message_queue : ObjectType
  object_type_unknown : ℕ → ObjectType

pub record Message : Type 0 where
  pub msg_code : ℕ
  pub msg_fd : ℕ

-- `kITTMessageAddClient`
abbrev pub itt_message_add_client : ℕ
itt_message_add_client = 0

-- An event of `epoll_wait`: its flags, and the object behind its `data.ptr`.
pub record Event : Type 0 where
  pub events : ℕ
  pub object : ObjectType

-- The state of a worker's thread: the structure, and what its list of clients holds.
pub record State : Type 0 where
  pub worker : WorkerThread
  pub clients : List Client

-- How a handler came to its end: `bugstop` is the stop at a message with another code, which a
-- build without debugging does not have.
pub data HandlerEnd : Type 0 where
  handled bugstop out_of_fuel : HandlerEnd

-- How the thread's function ends: its descriptors are not both watched, it was told to quit, or
-- `epoll_wait` fails; `waiting` and `stuck` have not ended.
pub data ProcEnd : Type 0 where
  not_ready quit wait_failed waiting stuck : ProcEnd

-- The addresses of the objects inside the worker's structure, by their offsets there.
module _ (termsig_offset messagequeue_offset : ℕ) where
  abbrev added_termsig : WorkerThread → Sys Bool
  added_termsig w =
      add_fd_to_epoll w.wk_epoll_fds w.wk_termsig (epollin + epollet) data_type_ptr
        (w.wk_address + termsig_offset)

  abbrev added_messagequeue : WorkerThread → Sys Bool
  added_messagequeue w =
      add_fd_to_epoll w.wk_epoll_fds w.wk_messagequeue (epollin + epollet) data_type_ptr
        (w.wk_address + messagequeue_offset)

  -- `++result` after each call that succeeds
  abbrev pub counted : ℕ → Bool × Kernel → ℕ × Kernel
  counted n (true, k) = (n + 1, k)
  counted n (false, k) = (n, k)

  abbrev pub then_messagequeue : WorkerThread → ℕ × Kernel → ℕ × Kernel
  then_messagequeue w (n, k) = counted n (added_messagequeue w k)

  -- The two calls of `add_fd_to_epoll`, and how many of them succeed.
  unfoldable pub proc_adds : WorkerThread → Sys ℕ
  proc_adds w k = then_messagequeue w (counted 0 (added_termsig w k))

abbrev pub push_from : Client → State → Option ℕ × Kernel → State × Kernel
push_from c s (none, k) = (s, k)
push_from c s (some n, k) = (record s { clients = s.clients ++ c ∷ [] }, k)

-- `dlist_push_tail`, whose result the program does not look at: it allocates a node.
unfoldable pub push_client : Client → State → Kernel → State × Kernel
push_client c s k = push_from c s (acquire block k)

abbrev pub added_from : Client → State → Bool × Kernel → State × Kernel
added_from c s (true, k) = push_client c s k
added_from c s (false, k) = (s, (client_destroy c k).1)

-- `clnt->cl_sockfd` is the socket `fd` of the message.
abbrev pub client_from : ℕ → State → Option Client × Kernel → State × Kernel
client_from fd s (none, k) = (s, (release (resource descriptor fd) k).1)
client_from fd s (some c, k) =
    added_from c s
      (add_fd_to_epoll s.worker.wk_epoll_fds fd (epollin + epollrdhup) data_type_ptr c.cl_address k)

-- The body of the loop after a message with the code `kITTMessageAddClient`.
unfoldable pub receive_client : ℕ → State → Kernel → State × Kernel
receive_client fd s k = client_from fd s (client_create fd k)

abbrev has_flag : ℕ → ℕ → Bool
has_flag flags flag = flags / flag % 2 == 1

module _ (message_of : ℕ → Message) where
  -- `mq_receive` waits while the queue is empty, and then has the answer of the message that comes.
  unfoldable pub drain : ℕ → State → Kernel → HandlerEnd × State × Kernel
  drain zero s k = (out_of_fuel, s, k)
  drain (suc f) s k = elim (ask k).0 [
    | failed e ↦ (handled, s, (ask k).1)
    | done n ↦
        let r = receive_client (message_of n).msg_fd s (ask k).1 in
        let rest = drain f r.0 r.1 in
        if (message_of n).msg_code == itt_message_add_client then rest else (bugstop, s, (ask k).1)
  ]

  unfoldable pub worker_thread_handle_msgqueue_event :
      ℕ → ℕ → State → Kernel → HandlerEnd × State × Kernel
  worker_thread_handle_msgqueue_event fuel flags s k =
      if has_flag flags epollerr then (handled, s, k) else drain fuel s k

  unfoldable pub worker_thread_handle_event :
      ℕ → Event → State → Kernel → HandlerEnd × State × Kernel
  worker_thread_handle_event fuel e s k = elim e.object [
    | object_type_signal ↦ (handled, record s { worker = record s.worker { wk_quitflag = 1 } }, k)
    | object_type_message_queue ↦ worker_thread_handle_msgqueue_event fuel e.events s k
    | object_type_client ↦ (handled, s, k)
    | object_type_server ↦ (handled, s, k)
    | object_type_unknown n ↦ (handled, s, k)
  ]

  -- The events of one batch, until the worker has to quit.
  unfoldable pub handle_events : ℕ → List Event → State → Kernel → HandlerEnd × State × Kernel
  handle_events fuel [] s k = (handled, s, k)
  handle_events fuel (e ∷ es) s k =
      let r = worker_thread_handle_event fuel e s k in
      let rest = handle_events fuel es r.1 r.2 in
      if not (s.worker.wk_quitflag == 0)
      then (handled, s, k)
      else elim r.0 [ handled ↦ rest | bugstop ↦ r | out_of_fuel ↦ r ]

  -- A batch is `none` where `epoll_wait` fails; past the last batch the thread waits.
  unfoldable pub proc_loop :
      ℕ → List (Option (List Event)) → State → Kernel → ProcEnd × State × Kernel
  proc_loop fuel [] s k = if not (s.worker.wk_quitflag == 0) then (quit, s, k) else (waiting, s, k)
  proc_loop fuel (none ∷ bs) s k =
      if not (s.worker.wk_quitflag == 0) then (quit, s, k) else (wait_failed, s, k)
  proc_loop fuel (some es ∷ bs) s k =
      let r = handle_events fuel es s k in
      let rest = proc_loop fuel bs r.1 r.2 in
      if not (s.worker.wk_quitflag == 0) then (quit, s, k) else elim r.0 [
        | handled ↦ rest
        | bugstop ↦ (stuck, r.1, r.2)
        | out_of_fuel ↦ (stuck, r.1, r.2)
      ]

module _ (message_of : ℕ → Message) (termsig_offset messagequeue_offset : ℕ) where
  -- The status is written whether or not both descriptors were added.
  abbrev pub proc_from :
      ℕ → List (Option (List Event)) → State → ℕ × Kernel → ProcEnd × State × Kernel
  proc_from fuel bs s (adds, k) =
      let status = if adds == 2 then thread_init_ok else thread_init_fail in
      let told = (write_event s.worker.wk_readyevent status k).1 in
      if not (adds == 2) then (not_ready, s, told) else proc_loop message_of fuel bs s told

  unfoldable pub worker_thread_proc :
      ℕ → List (Option (List Event)) → State → Kernel → ProcEnd × State × Kernel
  worker_thread_proc fuel bs s k =
      proc_from fuel bs s (proc_adds termsig_offset messagequeue_offset s.worker k)
