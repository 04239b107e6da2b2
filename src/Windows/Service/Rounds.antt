-- ===== src/Windows/Service/Rounds.antt =====
-- What the accepting thread of the Windows server does to the books.
use aio_server.Base.{
  ℕ, zero, suc, ◌<◌, ◌≡◌, refl, Bool, true, false, Option, none, some, List, ◌∷◌, ◌==◌, ==_refl,
  if◌then◌else◌, arith, subst, inl, inr, Bool-cases, Option-cases,
}
use aio_server.Kernel.{Answer, done, failed, Kernel, ask, acquire, block, ◌>>◌}
use aio_server.Atomic.{atomic32_increment}
use aio_server.Windows.Client.{
  Client, io_opcode_connection, client_create, with_structure, with_buffer, with_socket,
  client_reinit, renewed, not_reused, close_valid, create_overlapped_socket,
}
use aio_server.Windows.Service.{
  ◌>>=◌, Listed, Service, Outcome, use_after_free, stopped, out_of_fuel, ok, wsa_io_pending,
}
use aio_server.Windows.Service.Accept.{
  freed, remove_equal, removed, server_remove_client_from_list, cleanup_of,
  server_cleanup_client_data,
}
use aio_server.Windows.Service.Main.{
  AcceptExResult, accept_ex_result_success, accept_ex_result_conn_reset, accept_ex_result_failed,
  wsaeconnreset, accept_result, server_post_acceptex_with_client, more_outstanding, reinit_of,
  reinit_client, after_post, server_try_post_accept,
}
use aio_server.Windows.Service.Books.{Proper, sending, connecting, receiving, Books}
use aio_server.Windows.Service.Moves.{modify-Books, begin_accept-Books, free-Books}
use aio_server.Windows.Service.Sound.{
  Sound, Allowed, faulty, broken, unfinished, allowed, >>=-Allowed,
}

-- `cl_is_tracked` is of no matter.
pub tracked-Proper : (b : Bool) (c : Client) → Proper c → Proper (record c { cl_is_tracked = b })
tracked-Proper b c (sending e) = sending e
tracked-Proper b c (connecting e f) = connecting e f
tracked-Proper b c (receiving e f) = receiving e f

renewed-Proper :
    (c : Client) (r : Option ℕ × Kernel)
    → c.aio_opcode ≡ io_opcode_connection
    → c.cl_file ≡ none
    → Proper (renewed c r).1
renewed-Proper c (some s, k) e f = connecting e f
renewed-Proper c (none, k) e f = connecting e f

reinit-Proper : (b : Bool) (c : Client) (k : Kernel) → Proper (client_reinit b c k).1
unfolding client_reinit
reinit-Proper true c k = connecting refl refl
reinit-Proper false c k =
    renewed-Proper
      (record c {
        aio_opcode = io_opcode_connection;
        cl_file = none;
        cl_sock_reused = not_reused c;
      })
      (create_overlapped_socket ((close_valid c.cl_file >> close_valid c.cl_sock) k).1) refl refl

abbrev pub IsNew : Option Client × Kernel → Type 0
IsNew (none, k) = Unit
IsNew (some c, k) = Proper c

pub create-IsNew : (k : Kernel) → IsNew (client_create k)
unfolding client_create
create-IsNew k = structure (acquire block k)
  where
    socket : (p b : ℕ) (r : Option ℕ × Kernel) → IsNew (with_socket p b r)
    socket p b (some s, k) = connecting refl refl
    socket p b (none, k) = tt

    buffer : (p : ℕ) (r : Option ℕ × Kernel) → IsNew (with_buffer p r)
    buffer p (some b, k) = socket p b _
    buffer p (none, k) = tt

    structure : (r : Option ℕ × Kernel) → IsNew (with_structure r)
    structure (some p, k) = buffer p _
    structure (none, k) = tt

-- The accepting thread may post for what it has in hand.
pub record Ready (m lost : ℕ) (h : List ℕ) (s : Service) : Type 0 where
  pub sound : Sound m lost s h
  pub room : s.sv_outstanding_accepts < m

-- The client is gone, from the books and from the store.
pub record Gone (m lost a : ℕ) (h : List ℕ) (s : Service) : Type 0 where
  pub sound : Sound m lost s h
  pub gone : s.store a ≡ none

-- A call of `AcceptEx`: the operating system has the client, or it is still in hand.
abbrev Posted : ℕ → ℕ → List ℕ → ℕ → AcceptExResult × Service → Type 0
Posted m lost h a (accept_ex_result_success, s) = Sound m lost (more_outstanding s) h
Posted m lost h a (accept_ex_result_conn_reset, s) = Ready m lost (a ∷ h) s
Posted m lost h a (accept_ex_result_failed, s) = Ready m lost (a ∷ h) s

-- A round for a client that is gone faults.
gone-faulty :
    {P : Service → Type 0} (a fuel : ℕ) (s : Service)
    → s.store a ≡ none
    → Allowed P (server_try_post_accept fuel a s)
unfolding server_try_post_accept
gone-faulty a zero s e = unfinished
gone-faulty a (suc fuel) s e = rw e faulty

module _ {m lost : ℕ} {h : List ℕ} (a : ℕ) where
  removed-Gone :
      (c : Client) (s : Service)
      → Proper c
      → Sound m lost s (a ∷ h)
      → (r : Outcome (List Listed × Kernel))
      → Allowed (Gone m lost a h) (r >>= removed a c s >>= freed a c)
  removed-Gone c s good books (ok (xs, k)) = allowed (record {
    sound = free-Books (modify-Books (tracked-Proper false c good) books);
    gone = rw (==_refl a) refl;
  })
  removed-Gone c s good books use_after_free = faulty
  removed-Gone c s good books stopped = broken
  removed-Gone c s good books out_of_fuel = unfinished

  pub cleanup-Gone :
      (s : Service)
      → Sound m lost s (a ∷ h)
      → Allowed (Gone m lost a h) (server_cleanup_client_data a s)
  unfolding server_cleanup_client_data server_remove_client_from_list
  cleanup-Gone s books = go (s.store a) (books.proper a)
    where
      on_flag :
          (c : Client) (b : Bool)
          → Proper c
          → let r = remove_equal s.store c s.sv_clients s.kernel in
            Allowed (Gone m lost a h) ((if b then r >>= removed a c s else stopped) >>= freed a c)
      on_flag c true good = removed-Gone c s good books _
      on_flag c false good = broken

      go :
          (o : Option Client)
          → ((c : Client) → o ≡ some c → Proper c)
          → Allowed (Gone m lost a h) (cleanup_of a s o)
      go none good = faulty
      go (some c) good = on_flag c c.cl_is_tracked (good c refl)

  pub reinit-Ready :
      (b : Bool) (s : Service)
      → Ready m lost (a ∷ h) s
      → Allowed (Ready m lost (a ∷ h)) (reinit_client a b s)
  unfolding reinit_client
  reinit-Ready b s ready = go (s.store a)
    where
      go : (o : Option Client) → Allowed (Ready m lost (a ∷ h)) (reinit_of a b s o)
      go none = faulty
      go (some c) = allowed (record {
        sound = modify-Books (reinit-Proper b c s.kernel) ready.sound;
        room = ready.room;
      })

  success-Sound :
      (s : Service) (k : Kernel)
      → Ready m lost (a ∷ h) s
      → Sound m lost (more_outstanding (record s { kernel = k; pending = a ∷ s.pending })) h
  unfolding atomic32_increment
  success-Sound s k ready =
      subst
        (λ w.
          Books m lost s.store (a ∷ s.pending) s.sv_iocp_accept w s.so_max_outstanding_accepts h)
        (omega (arith, ready.room, ready.sound.small)) (begin_accept-Books ready.room ready.sound)

  post-Posted :
      (s : Service)
      → Ready m lost (a ∷ h) s
      → Posted m lost h a (server_post_acceptex_with_client a s)
  unfolding server_post_acceptex_with_client
  post-Posted s ready = go (ask s.kernel)
    where
      go : (r : Answer × Kernel) → Posted m lost h a (accept_result a s r)
      go (done n, k) = success-Sound s k ready
      go (failed e, k) = elim (Bool-cases (e == wsa_io_pending)) [
        | inl t ↦ rw t (success-Sound s k ready)
        | inr t ↦ rw t (elim (Bool-cases (e == wsaeconnreset)) [
          | inl u ↦ rw u (record { sound = ready.sound; room = ready.room })
          | inr u ↦ rw u (record { sound = ready.sound; room = ready.room })
        ])
      ]

  after-Sound :
      (again : Service → Outcome Service) (r : AcceptExResult × Service)
      → ((s : Service) → Ready m lost (a ∷ h) s → Allowed (λ t. Sound m lost t h) (again s))
      → ((s : Service) → Gone m lost a h s → Allowed (λ t. Sound m lost t h) (again s))
      → Posted m lost h a r
      → Allowed (λ t. Sound m lost t h) (after_post again a r)
  after-Sound again (accept_ex_result_success, t) f g books = allowed books
  after-Sound again (accept_ex_result_conn_reset, t) f g books =
      >>=-Allowed again f (reinit-Ready false t books)
  after-Sound again (accept_ex_result_failed, t) f g books =
      >>=-Allowed again g (cleanup-Gone t books.sound)

  pub try-Sound :
      (fuel : ℕ) (s : Service)
      → Ready m lost (a ∷ h) s
      → Allowed (λ t. Sound m lost t h) (server_try_post_accept fuel a s)
  unfolding server_try_post_accept
  try-Sound zero s ready = unfinished
  try-Sound (suc fuel) s ready = elim (Option-cases (s.store a)) [
    | inl e ↦ rw e faulty
    | inr (c, e) ↦ rw e (
        after-Sound (server_try_post_accept fuel a) _ (try-Sound fuel)
          (λ t g. gone-faulty a fuel t g.gone) (post-Posted s ready))
  ]
