-- ===== src/Linux/Messages/Received.antt =====
-- What becomes of the socket of a message: `worker_thread_handle_msgqueue_event`, one message.
use aio_server.Base.{ℕ, ◌+◌, ◌≡◌, some, List, [], ◌∷◌, ◌++◌, arith}
use aio_server.Kernel.{
  Watch, data_ptr, descriptor, block, Resource, resource, done, failed, Kernel, acquire, release,
  same, ask, hold,
}
use aio_server.Kernel.Owns.{IsOwning}
use aio_server.Linux.Client.{Client, client_create}
use aio_server.Linux.Client.Owned.{client_owned}
use aio_server.Linux.Epoll.{epollin, epollrdhup}
use aio_server.Linux.Messages.{State, receive_client}

-- The client's socket in the worker's epoll instance, with the address of its structure.
abbrev pub client_watch : State → ℕ → Client → Watch
client_watch s fd c = record {
  epoll_fd = s.worker.wk_epoll_fds;
  fd = fd;
  events = epollin + epollrdhup;
  content = data_ptr c.cl_address;
}

-- What becomes of a message that is handled from `k` on. `listed`: the client is watched and stands
-- last in the list. `unlisted`: it is watched, but there was no memory for the node, so that it is
-- in no list. `dropped`: all was given back. `closed_twice`: all was given back in `g`, and then the
-- socket is closed once more.
pub data Received (k₀ k : Kernel) (fd : ℕ) (xs : List Resource) (s : State)
    : State × Kernel → Type 0 where
  listed :
      (c : Client) (node : ℕ) {g : Kernel}
      → c.cl_sockfd ≡ some fd
      → g.watched ≡ client_watch s fd c ∷ k.watched
      → IsOwning k₀ g (resource block node ∷ client_owned c xs)
      → Received k₀ k fd xs s (record s { clients = s.clients ++ c ∷ [] }, g)
  unlisted :
      (c : Client) {g : Kernel}
      → c.cl_sockfd ≡ some fd
      → g.watched ≡ client_watch s fd c ∷ k.watched
      → IsOwning k₀ g (client_owned c xs)
      → Received k₀ k fd xs s (s, g)
  dropped : {g : Kernel} → g.watched ≡ k.watched → IsOwning k₀ g xs → Received k₀ k fd xs s (s, g)
  closed_twice :
      {g : Kernel}
      → g.watched ≡ k.watched
      → IsOwning k₀ g xs
      → Received k₀ k fd xs s (s, (release (resource descriptor fd) g).1)

-- Where the structure of a client can be allocated and its buffer cannot, and its socket is held
-- once, the handling of the message closes the socket twice: one release more goes wrong.
pub receive_client-closes_twice :
    (fd p e : ℕ) (s : State) (k : Kernel)
    → k.answers k.calls ≡ done p
    → k.answers (k.calls + 1) ≡ failed e
    → k.held (resource descriptor fd) ≡ 1
    → (receive_client fd s k).1.faults ≡ k.faults + 1
unfolding receive_client client_create acquire ask hold release same
receive_client-closes_twice fd p e s k first second one = rw (first, second) (ground (arith, one))
