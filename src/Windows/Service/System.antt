-- ===== src/Windows/Service/System.antt =====
-- The threads of the Windows server together: the operating system completes operations, workers
-- handle them, and the accepting thread works through its packets, in any order.
use aio_server.Base.{ℕ, ◌<◌, ◌≡◌, Bool, true, false, Option, none, List, [], ◌∷◌, pos}
use aio_server.Kernel.{Kernel}
use aio_server.Windows.Service.{
  Packet, shut_down, post_accept, ControlType, Service, ok, server_accept_more_clients,
  server_post_message, server_control_handler,
}
use aio_server.Windows.Service.Worker.{process_completion}
use aio_server.Windows.Service.Main.{without_packet, accept_round}
use aio_server.Windows.Service.Books.{count}
use aio_server.Windows.Service.Sound.{taken}
use aio_server.Windows.Service.Filling.{Fresh}

-- The accepting thread waits for a packet, is in the inner loop with the options and the client of
-- the packet, or has left the loop.
pub data MainThread : Type 0 where
  waiting_packet ended : MainThread
  filling : Bool → Option ℕ → MainThread

pub record System : Type 0 where
  pub service : Service
  pub main : MainThread

abbrev pub at : Service → MainThread → System
at s m = record { service = s; main = m }

abbrev pub next_main : Bool → Bool → MainThread
next_main opts true = filling opts none
next_main opts false = waiting_packet

pub data Step (content_of : ℕ → List ℕ) : System → System → Type 0 where
  -- A worker handles the completion of an operation.
  completes :
      (bytes a : ℕ) {s t : Service} {p : MainThread}
      → 0 < count a s.pending
      → process_completion content_of bytes a (taken a s) ≡ ok t
      → Step content_of (at s p) (at t p)
  -- A worker takes the message to stop, and sends it on.
  worker_stops :
      {s : Service} {p : MainThread} {ps : List Packet}
      → s.sv_iocp ≡ shut_down ∷ ps
      → Step content_of (at s p) (at (server_post_message shut_down (record s { sv_iocp = ps })) p)
  controls :
      (ctrl : ControlType) {s : Service} {p : MainThread}
      → Step content_of (at s p) (at (server_control_handler ctrl s) p)
  takes :
      {s : Service} {opts : Bool} {cli : Option ℕ} {ps : List Packet}
      → s.sv_iocp_accept ≡ post_accept opts cli ∷ ps
      → Step content_of (at s waiting_packet) (at (without_packet ps s) (filling opts cli))
  ends :
      {s : Service} {ps : List Packet}
      → s.sv_iocp_accept ≡ shut_down ∷ ps
      → Step content_of (at s waiting_packet) (at (without_packet ps s) ended)
  -- A round of the inner loop; `fuel` bounds its attempts to post one accept.
  fills :
      (fuel : ℕ) {s t : Service} {opts go : Bool} {cli : Option ℕ}
      → Fresh s
      → accept_round fuel opts cli s ≡ ok (go, t)
      → Step content_of (at s (filling opts cli)) (at t (next_main opts go))

-- After `server_init`, with `m` accepts at most.
abbrev pub initial : ℕ → List ℕ → Kernel → Service
initial m root k = record {
  store = λ a. none;
  sv_clients = [];
  sv_outstanding_accepts = 0;
  sv_iocp = [];
  sv_iocp_accept = [];
  pending = [];
  opened = [];
  so_www_rootdir = root;
  so_max_outstanding_accepts = pos m;
  kernel = k;
}

-- The states after the first packet of `server_main_loop`.
pub data Reach (content_of : ℕ → List ℕ) (m : ℕ) (root : List ℕ) (k : Kernel)
    : System → Type 0 where
  start :
      Reach content_of m root k
        (at (server_accept_more_clients none false (initial m root k)) waiting_packet)
  later :
      {x y : System}
      → Reach content_of m root k x
      → Step content_of x y
      → Reach content_of m root k y
