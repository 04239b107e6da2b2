-- ===== src/Windows/Start/Threads.antt =====
-- The threads that `server_init` of the Windows server starts.
use aio_server.Base.{ℕ, zero, suc, ◌≡◌, Option, none, some, List, [], ◌∷◌, arith, sym, inl, inr}
use aio_server.Kernel.{
  ResourceKind, descriptor, block, thread, winsock, lock, Resource, resource, Kernel, acquire,
}
use aio_server.Kernel.Owns.{count, IsOwning, IsOwning-trans, IsOwning-reorder, acquire-cases}
use aio_server.Kernel.Build.{Ensures, returns}
use aio_server.Windows.Start.{Server}
use aio_server.Windows.Start.Init.{with_thread, start_threads, threads_end, threads_step, rounds_of}
use aio_server.Windows.Start.Owned.{
  list_owned, server_owned, threads_owned, running_owned, IsServer,
}
use aio_server.Windows.Start.Levels.{count-threads}

-- The server at work without clients, as `server_init` leaves it.
pub record IsRunning (k₀ : Kernel) (s : Server) (k : Kernel) : Type 0 where
  pub owning : IsOwning k₀ k (running_owned [] s)

-- The threads that have been started, above what the last level stands for.
unfoldable pub IsStarting : Kernel → Server → Kernel → Type 0
IsStarting k₀ s k =
    IsOwning k₀ k
      (threads_owned s.sv_worker_threads (resource block s.sv_threads_block ∷ server_owned 6 s))

acquired : ResourceKind → Option ℕ → List Resource
acquired c none = []
acquired c (some n) = resource c n ∷ []

acquire-IsOwning :
    (c : ResourceKind) (k : Kernel) → IsOwning k (acquire c k).1 (acquired c (acquire c k).0)
unfolding acquired
acquire-IsOwning c k = elim (acquire-cases c k) [
  | inl (g, e, p) ↦ rw e p
  | inr (n, g, e, p) ↦ rw e p
]

with_thread-IsStarting :
    (k₀ : Kernel) (s : Server) {k : Kernel} (r : Option ℕ × Kernel)
    → IsStarting k₀ s k
    → IsOwning k r.1 (acquired thread r.0)
    → IsStarting k₀ (with_thread s r).0 (with_thread s r).1
unfolding IsStarting acquired
with_thread-IsStarting k₀ s (none, g) o p =
    IsOwning-reorder _ (IsOwning-trans o p) (λ r. count-threads r s.sv_worker_threads none _)
with_thread-IsStarting k₀ s (some t, g) o p =
    IsOwning-reorder _ (IsOwning-trans o p) (λ r. count-threads r s.sv_worker_threads (some t) _)

start_threads-IsStarting :
    (k₀ : Kernel) (n : ℕ) (s : Server) (k : Kernel)
    → IsStarting k₀ s k
    → IsStarting k₀ (start_threads n s k).0 (start_threads n s k).1
unfolding start_threads
start_threads-IsStarting k₀ zero s k o = o
start_threads-IsStarting k₀ (suc n) s k o =
    let r = acquire thread k in
    start_threads-IsStarting k₀ n (with_thread s r).0 (with_thread s r).1
      (with_thread-IsStarting k₀ s r o (acquire-IsOwning thread k))

count-running :
    (r : Resource) (ts : List (Option ℕ)) (s : Server)
    → count r (threads_owned ts (resource block s.sv_threads_block ∷ server_owned 6 s))
      ≡ count r (
          threads_owned ts (
            resource block s.sv_threads_block
            ∷ resource descriptor s.sv_sock
            ∷ list_owned s.sv_clients (
                resource descriptor s.sv_iocp
                ∷ resource descriptor s.sv_iocp_accept
                ∷ resource lock 0
                ∷ resource lock 1
                ∷ resource winsock 0
                ∷ [])))
count-running r [] s = go s.sv_clients
  where
    go :
        (l : Option ℕ)
        → count r (
            resource block s.sv_threads_block
            ∷ resource descriptor s.sv_sock
            ∷ resource descriptor s.sv_iocp_accept
            ∷ resource descriptor s.sv_iocp
            ∷ list_owned l (resource lock 0 ∷ resource lock 1 ∷ resource winsock 0 ∷ []))
          ≡ count r (
              resource block s.sv_threads_block
              ∷ resource descriptor s.sv_sock
              ∷ list_owned l (
                  resource descriptor s.sv_iocp
                  ∷ resource descriptor s.sv_iocp_accept
                  ∷ resource lock 0
                  ∷ resource lock 1
                  ∷ resource winsock 0
                  ∷ []))
    go none = omega arith
    go (some l) = omega arith
count-running r (none ∷ ts) s = count-running r ts s
count-running r (some t ∷ ts) s = omega (arith, count-running r ts s)

pub threads-Ensures :
    {k₀ : Kernel} (s : Server) (k : Kernel)
    → IsStarting k₀ s k
    → Ensures (IsRunning k₀) (IsServer k₀) (threads_step s k)
unfolding threads_step IsStarting
threads-Ensures {k₀} s k o =
    go (start_threads (rounds_of s.sv_worker_count) s k)
      (start_threads-IsStarting k₀ (rounds_of s.sv_worker_count) s k o)
  where
    go :
        (r : Server × Kernel)
        → IsStarting k₀ r.0 r.1
        → Ensures (IsRunning k₀) (IsServer k₀) (threads_end r)
    go (t, g) p = returns (record {
      owning = IsOwning-reorder _ p (λ r. sym (count-running r t.sv_worker_threads t));
    })
