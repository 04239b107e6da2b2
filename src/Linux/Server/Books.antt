-- ===== src/Linux/Server/Books.antt =====
-- `server_init` and `server_cleanup` together.
use aio_server.Base.{ℕ, suc, ◌+◌, ◌≤◌, ◌≡◌, refl, Bool, Option, none, some, [], ◌∷◌, arith, subst}
use aio_server.Kernel.{ResourceKind, descriptor, block, resource, Kernel, Sys}
use aio_server.Kernel.Owns.{IsOwning, IsOwning-refl, IsOwning-trans}
use aio_server.Kernel.Build.{
  step, step_by, attempt, check_by, taken, Ensures, returns, leaves, bind, step-Ensures,
  attempt-Ensures, check_by-Ensures,
}
use aio_server.Linux.Epoll.{add_fd-IsOwning}
use aio_server.Linux.Socket.{
  create_server_socket, Opened, opened, unopened, create_server_socket-Opened,
}
use aio_server.Linux.Server.{Server, zeroed, server_cleanup}
use aio_server.Linux.Server.Owned.{server_owned, IsServer, cleanup-IsOwning}
use aio_server.Linux.Server.Init.{init_steps, server_init}
use aio_server.Linux.Server.Start.{IsRunning, IsAt, IsFilling, workers_step-Ensures, again, stop}

-- A level whose resource comes from a function `m` that returns it exactly where it is held.
taken-IsAt :
    {k₀ k : Kernel} (r : ℕ) (c : ResourceKind) (set : ℕ → Server → Server) (s : Server)
    (x : Option ℕ × Kernel)
    → r ≤ 4
    → IsAt k₀ r s k
    → ((n : ℕ)
        → ((set n s).sv_rollback ≡ s.sv_rollback + 1)
          × ((set n s).sv_workers ≡ s.sv_workers)
          × ((set n s).sv_worker_count ≡ s.sv_worker_count))
    → ((n : ℕ) → resource c n ∷ server_owned r s ≡ server_owned (suc r) (set n s))
    → ((x.0 ≡ none) → IsOwning k x.1 [])
    → ((n : ℕ) → x.0 ≡ some n → IsOwning k x.1 (resource c n ∷ []))
    → Ensures (IsAt k₀ (suc r)) (IsServer k₀) (taken set s x)
taken-IsAt r c set s (none, g) le a same owned fail win =
    leaves (stop r le s a g (IsOwning-trans a.owning (fail refl)))
taken-IsAt {k₀} r c set s (some n, g) le a same owned fail win = returns (record {
  level = ground (arith, same n, a.level);
  no_workers = ground (arith, same n, a.no_workers);
  no_count = ground (arith, same n, a.no_count);
  owning = subst (λ ys. IsOwning k₀ g ys) (owned n) (IsOwning-trans a.owning (win n refl));
})

-- A setter of a level writes its own fields and raises the level.
abbrev IsRaising : (ℕ → Server → Server) → Server → Type 0
IsRaising set s =
    (n : ℕ)
    → ((set n s).sv_rollback ≡ s.sv_rollback + 1)
      × ((set n s).sv_workers ≡ s.sv_workers)
      × ((set n s).sv_worker_count ≡ s.sv_worker_count)

socket-IsAt :
    {k₀ : Kernel} (set : ℕ → Server → Server) (s : Server) (k : Kernel)
    → IsAt k₀ 0 s k
    → IsRaising set s
    → ((n : ℕ) → resource descriptor n ∷ [] ≡ server_owned 1 (set n s))
    → Ensures (IsAt k₀ 1) (IsServer k₀) (step_by create_server_socket set s k)
unfolding step_by
socket-IsAt {k₀} set s k a same owned = go (create_server_socket k) (create_server_socket-Opened k)
  where
    go : (x : Option ℕ × Kernel) → Opened k x → Ensures (IsAt k₀ 1) (IsServer k₀) (taken set s x)
    go _ (unopened {k = g} o) =
        taken-IsAt 0 descriptor set s (none, g) (omega arith) a same owned (λ e. o) (λ n e. cc)
    go _ (opened {fd} {k = g} o) =
        taken-IsAt 0 descriptor set s (some fd, g) (omega arith) a same owned (λ e. cc)
          λ n e. let e' : fd ≡ n = cc in subst (λ m. IsOwning k g (resource descriptor m ∷ [])) e' o

level-IsAt :
    {k₀ : Kernel} (r : ℕ) (c : ResourceKind) (set : ℕ → Server → Server) (s : Server) (k : Kernel)
    → r ≤ 4
    → IsAt k₀ r s k
    → IsRaising set s
    → ((n : ℕ) → resource c n ∷ server_owned r s ≡ server_owned (suc r) (set n s))
    → Ensures (IsAt k₀ (suc r)) (IsServer k₀) (step c set s k)
level-IsAt {k₀} r c set s k le a same owned =
    step-Ensures c set s k a.owning (λ g o. stop r le s a g o)
      λ n g o. record {
        level = ground (arith, same n, a.level);
        no_workers = ground (arith, same n, a.no_workers);
        no_count = ground (arith, same n, a.no_count);
        owning = subst (λ ys. IsOwning k₀ g ys) (owned n) o;
      }

-- A call that changes nothing the server owns.
attempt-IsAt :
    {k₀ : Kernel} (r : ℕ) (s : Server) (k : Kernel)
    → r ≤ 4
    → IsAt k₀ r s k
    → Ensures (IsAt k₀ r) (IsServer k₀) (attempt s k)
attempt-IsAt r s k le a = attempt-Ensures s k a.owning (stop r le s a) (again r le s a)

check-IsAt :
    {k₀ : Kernel} (r : ℕ) (m : Server → Sys Bool) (s : Server) (k : Kernel)
    → r ≤ 4
    → IsAt k₀ r s k
    → IsOwning k (m s k).1 []
    → Ensures (IsAt k₀ r) (IsServer k₀) (check_by m s k)
check-IsAt r m s k le a p = check_by-Ensures m s k a.owning p (stop r le s a) (again r le s a)

IsAt-IsFilling : {k₀ : Kernel} {s : Server} {k : Kernel} → IsAt k₀ 5 s k → IsFilling k₀ s k
IsAt-IsFilling a = record {
  level = a.level;
  count = rw (a.no_workers, a.no_count);
  low = rw a.no_workers tt;
  owning = a.owning;
}

init_steps-Ensures :
    {k₀ : Kernel} (s : Server) (k : Kernel)
    → IsAt k₀ 0 s k
    → Ensures (IsRunning k₀) (IsServer k₀) (init_steps s k)
unfolding init_steps
init_steps-Ensures s k a =
    bind (socket-IsAt _ s k a (λ n. (refl, refl, refl)) (λ n. refl)) λ _ s k a.
      bind (level-IsAt 1 descriptor _ s k (omega arith) a (λ n. (refl, refl, refl)) (λ n. refl))
        λ _ s k a. bind (attempt-IsAt 2 s k (omega arith) a) λ _ s k a.
          bind (attempt-IsAt 2 s k (omega arith) a) λ _ s k a.
            bind
              (level-IsAt 2 descriptor _ s k (omega arith) a (λ n. (refl, refl, refl)) (λ n. refl))
              λ _ s k a.
                bind (check-IsAt 3 _ s k (omega arith) a (add_fd-IsOwning _ _ _ _ _ k)) λ _ s k a.
                  bind (check-IsAt 3 _ s k (omega arith) a (add_fd-IsOwning _ _ _ _ _ k)) λ _ s k a.
                    bind
                      (level-IsAt 3 descriptor _ s k (omega arith) a (λ n. (refl, refl, refl))
                        (λ n. refl))
                      λ _ s k a. bind (attempt-IsAt 4 s k (omega arith) a) λ n s k a.
                        bind
                          (level-IsAt 4 block _ s k (omega arith) a (λ n. (refl, refl, refl))
                            (λ n. simp a.no_workers))
                          λ _ s k a. workers_step-Ensures n s k (IsAt-IsFilling a)

pub init-Ensures : (k : Kernel) → Ensures (IsRunning k) (IsServer k) (server_init k)
unfolding server_init
init-Ensures k =
    init_steps-Ensures zeroed k
      (record { level = refl; no_workers = refl; no_count = refl; owning = IsOwning-refl k })

-- In every environment of answers, server_init followed by server_cleanup gives back every
-- resource that was taken, each once, whichever call of server_init fails, and releases nothing
-- that is not held.
pub init-cleanup :
    (k : Kernel) → IsOwning k (server_cleanup (server_init k).1 (server_init k).2).1 []
init-cleanup k = go (server_init k) (init-Ensures k)
  where
    go :
        (r : Option (Unit {0}) × Server × Kernel)
        → Ensures (IsRunning k) (IsServer k) r
        → IsOwning k (server_cleanup r.1 r.2).1 []
    go _ (returns {s} h) = cleanup-IsOwning s h.server
    go _ (leaves {s} h) = cleanup-IsOwning s h
