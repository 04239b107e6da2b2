-- ===== src/Windows/Service/Ledger/Reachable.antt =====
-- The ledger over the steps of the Windows server.
use aio_server.Base.{
  ℕ, zero, suc, ◌≡◌, refl, Bool, true, false, Option, none, some, List, [], ◌==◌, if◌then◌else◌,
  inl, inr, Bool-cases, Option-cases, arith, ◌∙◌,
}
use aio_server.Atomic.{atomic32_load}
use aio_server.Kernel.{block, Answer, done, failed, Kernel, ask, acquire}
use aio_server.Kernel.Owns.{IsOwning, acquire-cases}
use aio_server.Windows.Client.{Client, client_create}
use aio_server.Windows.Client.Owned.{Made, complete, refused, create-Made}
use aio_server.Windows.Service.{
  ◌>>=◌, shut_down, Service, Outcome, stopped, ok, set_client, wsa_io_pending,
}
use aio_server.Windows.Service.Accept.{pushed, tracked, server_add_client_to_list}
use aio_server.Windows.Service.Main.{
  AcceptExResult, accept_ex_result_success, accept_ex_result_conn_reset, accept_ex_result_failed,
  wsaeconnreset, accept_result, server_post_acceptex_with_client, after_post,
  server_try_post_accept, reaches, with_address, listed, client_for_round, going_on, posting,
  enough_posted, accept_round,
}
use aio_server.Windows.Service.Filling.{Fresh}
use aio_server.Windows.Service.Ledger.{Ledger, Keeping, added, quiet, listed_more, update-same}
use aio_server.Windows.Service.Ledger.Removed.{cleanup-Allowed, reinit-Allowed}
use aio_server.Windows.Service.Ledger.Requests.{process-Allowed}
use aio_server.Windows.Service.Ledger.Workers.{
  asked, modified, more-Keeping, message-Keeping, control-Keeping,
}
use aio_server.Windows.Service.Reachable.{Allowed-ok}
use aio_server.Windows.Service.Sound.{
  taken, Allowed, broken, faulty, unfinished, allowed, >>=-Allowed,
}
use aio_server.Windows.Service.System.{
  System, Step, completes, worker_stops, controls, takes, ends, fills, initial, Reach, start, later,
}

pushed-store : (a x : ℕ) (s : Service) (r : Option ℕ × Kernel) → (pushed a s r).store x ≡ s.store x
pushed-store a x s (some n, k) = refl
pushed-store a x s (none, k) = refl

module _ {k₀ : Kernel} where
  post-Keeping :
      (a : ℕ) (s : Service) (r : Answer × Kernel)
      → IsOwning s.kernel r.1 []
      → Keeping k₀ s
      → Keeping k₀ (accept_result a s r).1
  post-Keeping a s (done n, k) o b = quiet b o
  post-Keeping a s (failed e, k) o b = elim (Bool-cases (e == wsa_io_pending)) [
    | inl t ↦ rw t (quiet b o)
    | inr t ↦ rw t (elim (Bool-cases (e == wsaeconnreset)) [
      | inl u ↦ rw u (quiet b o)
      | inr u ↦ rw u (quiet b o)
    ])
  ]

  after-Allowed :
      (again : Service → Outcome Service) (a : ℕ) (r : AcceptExResult × Service)
      → ((s : Service) → Keeping k₀ s → Allowed (Keeping k₀) (again s))
      → Keeping k₀ r.1
      → Allowed (Keeping k₀) (after_post again a r)
  after-Allowed again a (accept_ex_result_success, s) next b = allowed b
  after-Allowed again a (accept_ex_result_conn_reset, s) next b =
      >>=-Allowed again next (reinit-Allowed a false s b)
  after-Allowed again a (accept_ex_result_failed, s) next b =
      >>=-Allowed again next (cleanup-Allowed a s b)

  try-Allowed :
      (fuel a : ℕ) (s : Service)
      → Keeping k₀ s
      → Allowed (Keeping k₀) (server_try_post_accept fuel a s)
  unfolding server_try_post_accept server_post_acceptex_with_client
  try-Allowed zero a s b = unfinished
  try-Allowed (suc fuel) a s b = elim (Option-cases (s.store a)) [
    | inl free ↦ rw free faulty
    | inr (c, alive) ↦ rw alive (
        after-Allowed (server_try_post_accept fuel a) a (accept_result a s (ask s.kernel))
          (try-Allowed fuel a) (post-Keeping a s (ask s.kernel) (asked s.kernel) b))
  ]

  pushed-Keeping :
      (a : ℕ) (s : Service) → Keeping k₀ s → Keeping k₀ (pushed a s (acquire block s.kernel))
  pushed-Keeping a s b = elim (acquire-cases block s.kernel) [
    | inl (g, e, o) ↦ rw e (quiet b o)
    | inr (n, g, e, o) ↦ rw e (listed_more b (record { node = n; item = a }) o)
  ]

  -- The client of a round, if there is one.
  listed-Allowed :
      (c : Client) (s : Service)
      → s.store c.cl_address ≡ some c
      → Keeping k₀ s
      → Allowed
          (λ r. Keeping k₀ r.1)
          (server_add_client_to_list c.cl_address c s >>= with_address c.cl_address)
  unfolding server_add_client_to_list
  listed-Allowed c s alive b = go c.cl_is_tracked
    where
      t : Service
      t = pushed c.cl_address s (acquire block s.kernel)

      go :
          (flag : Bool)
          → Allowed
              (λ r. Keeping k₀ r.1)
              ((if flag then stopped else ok (tracked c.cl_address c true t))
                >>= with_address c.cl_address)
      go true = broken
      go false = allowed (
          modified c.cl_address c (record c { cl_is_tracked = true }) t
            (pushed-store c.cl_address c.cl_address s (acquire block s.kernel) ∙ alive) refl
            (pushed-Keeping c.cl_address s b))

  Made-Allowed :
      (s : Service) (r : Option Client × Kernel)
      → Made s.kernel r
      → ((c : Client) (k : Kernel) → r ≡ (some c, k) → s.store c.cl_address ≡ none)
      → Keeping k₀ s
      → Allowed (λ x. Keeping k₀ x.1) (listed s r)
  Made-Allowed s r (refused o) fresh b = allowed (quiet b o)
  Made-Allowed s r (complete {c} {k} e o) fresh b =
      listed-Allowed c (set_client c.cl_address c (record s { kernel = k }))
        (update-same s.store c.cl_address (some c)) (added b c.cl_address c (fresh c k refl) o)

  client-Allowed :
      (opts : Bool) (cli : Option ℕ) (s : Service)
      → Fresh s
      → Keeping k₀ s
      → Allowed (λ x. Keeping k₀ x.1) (client_for_round opts cli s)
  unfolding client_for_round Fresh
  client-Allowed opts none s fresh b =
      Made-Allowed s (client_create s.kernel) (create-Made s.kernel) fresh b
  client-Allowed opts (some a) s fresh b =
      >>=-Allowed (with_address a) (λ t b'. allowed b') (reinit-Allowed a opts s b)

  posting-Allowed :
      (fuel : ℕ) (r : Option ℕ × Service)
      → Keeping k₀ r.1
      → Allowed (λ x. Keeping k₀ x.1) (posting fuel r)
  posting-Allowed fuel (some a, s) b =
      >>=-Allowed (going_on true) (λ t b'. allowed b') (try-Allowed fuel a s b)
  posting-Allowed fuel (none, s) b = allowed b

  enough-Allowed :
      (cli : Option ℕ) (s : Service)
      → Keeping k₀ s
      → Allowed (λ x. Keeping k₀ x.1) (enough_posted cli s)
  enough-Allowed none s b = allowed b
  enough-Allowed (some a) s b =
      >>=-Allowed (going_on false) (λ t b'. allowed b') (cleanup-Allowed a s b)

  round-Allowed :
      (fuel : ℕ) (opts : Bool) (cli : Option ℕ) (s : Service)
      → Fresh s
      → Keeping k₀ s
      → Allowed (λ x. Keeping k₀ x.1) (accept_round fuel opts cli s)
  unfolding accept_round
  round-Allowed fuel opts cli s fresh b =
      elim (Bool-cases
        (reaches (atomic32_load s.sv_outstanding_accepts) s.so_max_outstanding_accepts)) [
          | inl e ↦ rw e (enough-Allowed cli s b)
          | inr e ↦ rw e (
              >>=-Allowed (posting fuel) (posting-Allowed fuel) (client-Allowed opts cli s fresh b))
        ]

  step-Keeping :
      {content_of : ℕ → List ℕ} {x y : System}
      → Step content_of x y
      → Keeping k₀ x.service
      → Keeping k₀ y.service
  step-Keeping {content_of} (completes bytes a {s} has e) b =
      Allowed-ok (process-Allowed content_of bytes a (taken a s) b) e
  step-Keeping (worker_stops {s} {ps = ps} e) b =
      message-Keeping shut_down (record s { sv_iocp = ps }) b
  step-Keeping (controls ctrl {s}) b = control-Keeping ctrl s b
  step-Keeping (takes e) b = b
  step-Keeping (ends e) b = b
  step-Keeping (fills fuel {s} {t} {opts} {go} {cli} fresh e) b =
      Allowed-ok (round-Allowed fuel opts cli s fresh b) e

initial-Keeping : (m : ℕ) (root : List ℕ) (k : Kernel) → Keeping k (initial m root k)
initial-Keeping m root k = record {
  clients = [];
  once = λ a. refl;
  holds = λ r. omega arith;
  sound = refl;
}

-- In every reachable state of the Windows server, no release has gone wrong, and beside what the
-- kernel held at the start just the blocks and handles of the allocated clients and the nodes of
-- the list are held, each as often as it is had.
pub Reach-Ledger :
    {content_of : ℕ → List ℕ} {m : ℕ} {root : List ℕ} {k : Kernel} {x : System}
    → Reach content_of m root k x
    → Ledger k x.service.store x.service.sv_clients x.service.kernel
Reach-Ledger {m} {root} {k} start =
    more-Keeping none false (initial m root k) (initial-Keeping m root k)
Reach-Ledger (later r step) = step-Keeping step (Reach-Ledger r)
