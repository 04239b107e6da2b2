-- ===== src/Windows/Service/Ledger/Workers.antt =====
-- The handlers of the worker threads and the ledger of the Windows server.
use aio_server.Base.{
  ℕ, ◌≡◌, refl, sym, subst, Bool, true, false, not, Option, none, some, [], ◌==◌, if◌then◌else◌,
  inl, inr, Bool-cases,
}
use aio_server.Kernel.{Answer, done, failed, Kernel, ask}
use aio_server.Kernel.Owns.{IsOwning, IsOwning-refl, ask-IsOwning}
use aio_server.Windows.Client.{Client, io_opcode_sock_0_bytes_recv}
use aio_server.Windows.Client.Owned.{client_owned}
use aio_server.Windows.Service.{
  Packet, shut_down, post_accept, ControlType, ctrl_logoff_event, ctrl_shutdown_event, ctrl_other,
  Service, set_client, wsa_io_pending, idok, posted, posted_to_workers, server_post_message,
  shut_down_both, confirmed, server_control_handler, server_accept_more_clients, begun,
}
use aio_server.Windows.Service.Worker.{
  server_read_from_client, fewer_outstanding, after_read, after_port, answered,
  server_update_completion_port, after_option, server_accept_new_connection,
}
use aio_server.Windows.Service.Ledger.{Keeping, rest, opened, closed, quiet, others}

pub asked : (k : Kernel) → IsOwning k (ask k).1 []
asked k = ask-IsOwning (IsOwning-refl k)

-- What has succeeded or not, with the client as it was.
abbrev Still : Kernel → ℕ → Client → Bool × Service → Type 0
Still k₀ a c (t, s) = (s.store a ≡ some c) × Keeping k₀ s

module _ {k₀ : Kernel} where
  posted-Keeping :
      (p : Packet) (s : Service) (r : Answer × Kernel)
      → IsOwning s.kernel r.1 []
      → Keeping k₀ s
      → Keeping k₀ (posted p s r)
  posted-Keeping p s (done n, k) o b = quiet b o
  posted-Keeping p s (failed e, k) o b = quiet b o

  pub more-Keeping :
      (cl : Option ℕ) (reuse : Bool) (s : Service)
      → Keeping k₀ s
      → Keeping k₀ (server_accept_more_clients cl reuse s)
  unfolding server_accept_more_clients
  more-Keeping cl reuse s b =
      posted-Keeping (post_accept reuse cl) s (ask s.kernel) (asked s.kernel) b

  pub message-Keeping :
      (p : Packet) (s : Service) → Keeping k₀ s → Keeping k₀ (server_post_message p s)
  unfolding server_post_message
  message-Keeping p s b = go (ask s.kernel) (asked s.kernel)
    where
      go : (r : Answer × Kernel) → IsOwning s.kernel r.1 [] → Keeping k₀ (posted_to_workers p s r)
      go (done n, k) o = quiet b o
      go (failed e, k) o = quiet b o

  both-Keeping : (s : Service) → Keeping k₀ s → Keeping k₀ (shut_down_both s)
  both-Keeping s b =
      let t = server_post_message shut_down s in
      posted-Keeping shut_down t (ask t.kernel) (asked t.kernel) (message-Keeping shut_down s b)

  pub control-Keeping :
      (ctrl : ControlType) (s : Service) → Keeping k₀ s → Keeping k₀ (server_control_handler ctrl s)
  unfolding server_control_handler
  control-Keeping ctrl_logoff_event s b = both-Keeping s b
  control-Keeping ctrl_shutdown_event s b = both-Keeping s b
  control-Keeping ctrl_other s b = go (ask s.kernel) (asked s.kernel)
    where
      go : (r : Answer × Kernel) → IsOwning s.kernel r.1 [] → Keeping k₀ (confirmed s r)
      go (done n, k) o = elim (Bool-cases (n == idok)) [
        | inl e ↦ rw e (both-Keeping (record s { kernel = k }) (quiet b o))
        | inr e ↦ rw e (quiet b o)
      ]
      go (failed e, k) o = quiet b o

  -- A change of a client that leaves what it owns.
  pub modified :
      (a : ℕ) (c c' : Client) (s : Service)
      → s.store a ≡ some c
      → client_owned c' [] ≡ client_owned c []
      → Keeping k₀ s
      → Keeping k₀ (set_client a c' s)
  modified a c c' s alive same b = closed b a c alive c' (
      subst (IsOwning (rest k₀ s.store s.sv_clients (others b a c alive)) s.kernel) (sym same)
        (opened b a c alive))

  pub begun-Keeping :
      (a : ℕ) (s : Service) (r : Answer × Kernel)
      → IsOwning s.kernel r.1 []
      → Keeping k₀ s
      → Keeping k₀ (begun a s r).1
  begun-Keeping a s (done n, k) o b = quiet b o
  begun-Keeping a s (failed e, k) o b = elim (Bool-cases (e == wsa_io_pending)) [
    | inl t ↦ rw t (quiet b o)
    | inr t ↦ rw t (quiet b o)
  ]

  read-Keeping :
      (a : ℕ) (c : Client) (s : Service)
      → s.store a ≡ some c
      → Keeping k₀ s
      → Keeping k₀ (server_read_from_client a c s).1
  unfolding server_read_from_client
  read-Keeping a c s alive b =
      let c' = record c { aio_opcode = io_opcode_sock_0_bytes_recv } in
      begun-Keeping a (set_client a c' s) (ask s.kernel) (asked s.kernel)
        (modified a c c' s alive refl b)

  after_read-Keeping : (a : ℕ) (r : Bool × Service) → Keeping k₀ r.1 → Keeping k₀ (after_read a r)
  after_read-Keeping a (true, s) b = more-Keeping none false (fewer_outstanding s) b
  after_read-Keeping a (false, s) b = more-Keeping (some a) false s b

  answered-Still :
      (a : ℕ) (c : Client) (s : Service) (r : Answer × Kernel)
      → IsOwning s.kernel r.1 []
      → s.store a ≡ some c
      → Keeping k₀ s
      → Still k₀ a c (answered s r)
  answered-Still a c s (done n, k) o alive b = (alive, quiet b o)
  answered-Still a c s (failed e, k) o alive b = (alive, quiet b o)

  port-Still :
      (a : ℕ) (c : Client) (t : Bool) (s : Service)
      → s.store a ≡ some c
      → Keeping k₀ s
      → Still k₀ a c (if t then server_update_completion_port s else (true, s))
  unfolding server_update_completion_port
  port-Still a c true s alive b = answered-Still a c s (ask s.kernel) (asked s.kernel) alive b
  port-Still a c false s alive b = (alive, b)

  after_port-Keeping :
      (a : ℕ) (c : Client) (r : Bool × Service) → Still k₀ a c r → Keeping k₀ (after_port a c r)
  after_port-Keeping a c (true, s) (alive, b) =
      after_read-Keeping a (server_read_from_client a c s) (read-Keeping a c s alive b)
  after_port-Keeping a c (false, s) (alive, b) = more-Keeping (some a) false s b

  after_option-Keeping :
      (a : ℕ) (c : Client) (r : Bool × Service) → Still k₀ a c r → Keeping k₀ (after_option a c r)
  after_option-Keeping a c (true, s) (alive, b) =
      after_port-Keeping a c
        (if not c.cl_sock_reused then server_update_completion_port s else (true, s))
        (port-Still a c (not c.cl_sock_reused) s alive b)
  after_option-Keeping a c (false, s) (alive, b) = more-Keeping (some a) false s b

  pub accept-Keeping :
      (a : ℕ) (c : Client) (s : Service)
      → s.store a ≡ some c
      → Keeping k₀ s
      → Keeping k₀ (server_accept_new_connection a c s)
  unfolding server_accept_new_connection
  accept-Keeping a c s alive b =
      after_option-Keeping a c (answered s (ask s.kernel))
        (answered-Still a c s (ask s.kernel) (asked s.kernel) alive b)
