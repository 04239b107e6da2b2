-- ===== src/Windows/Start/Books.antt =====
-- `server_init` of the Windows server, in every environment.
use aio_server.Base.{[], ◌∷◌, ℕ, refl, Bool, true, false, Option, ◌∷◌, arith, subst, sym, inl, inr}
use aio_server.Kernel.{descriptor, block, client_list, winsock, lock, resource, Kernel, hold}
use aio_server.Kernel.Owns.{
  IsOwning-reorder, IsOwning, IsOwning-refl, IsOwning-trans, hold-IsOwning, acquire-cases,
}
use aio_server.Kernel.Build.{step, step_by, taken, Ensures, returns, leaves, bind, step-Ensures}
use aio_server.Linux.Socket.{Opened, opened, unopened}
use aio_server.Windows.Start.{Server, zeroed}
use aio_server.Windows.Start.Init.{raised, list_step, init_steps, init_end, server_init}
use aio_server.Windows.Start.Socket.{create_server_socket, create_server_socket-Opened}
use aio_server.Windows.Start.Owned.{
  server_owned, threads_owned, GivenBack, IsServer, undo-GivenBack,
}
use aio_server.Windows.Start.Levels.{
  IsAt, leave, attempt-IsAt, check-IsAt, step-IsAt, load-IsOwning,
}
use aio_server.Windows.Start.Threads.{IsRunning, IsStarting, threads-Ensures}

list-Ensures :
    {k₀ : Kernel} (s : Server) (k : Kernel)
    → IsAt k₀ 2 s k
    → Ensures (IsAt k₀ 3) (IsServer k₀) (list_step s k)
unfolding list_step
list-Ensures s k a = elim (acquire-cases client_list k) [
  | inl (g, e, p) ↦ rw e (
      returns (record {
        level = omega (arith, a.level);
        no_threads = a.no_threads;
        owning = IsOwning-trans a.owning p;
      }))
  | inr (l, g, e, p) ↦ rw e (
      returns (record {
        level = omega (arith, a.level);
        no_threads = a.no_threads;
        owning = IsOwning-trans a.owning p;
      }))
]

socket-Ensures :
    {k₀ : Kernel} (s : Server) (k : Kernel)
    → IsAt k₀ 5 s k
    → Ensures
        (IsAt k₀ 6)
        (IsServer k₀)
        (step_by create_server_socket (λ n s. raised (record s { sv_sock = n })) s k)
unfolding step_by
socket-Ensures {k₀} s k a = go (create_server_socket k) (create_server_socket-Opened k)
  where
    go :
        (x : Option ℕ × Kernel)
        → Opened k x
        → Ensures (IsAt k₀ 6) (IsServer k₀) (taken (λ n s. raised (record s { sv_sock = n })) s x)
    go _ (unopened {k = g} o) = leaves (leave s g (omega arith) a.level (IsOwning-trans a.owning o))
    go _ (opened {fd} {k = g} o) = returns (record {
      level = omega (arith, a.level);
      no_threads = a.no_threads;
      owning = IsOwning-trans a.owning o;
    })

block-Ensures :
    {k₀ : Kernel} (s : Server) (k : Kernel)
    → IsAt k₀ 6 s k
    → Ensures
        (IsStarting k₀)
        (IsServer k₀)
        (step block (λ n s. record s { sv_threads_block = n }) s k)
unfolding IsStarting
block-Ensures {k₀} s k a =
    step-Ensures block _ s k a.owning (λ g o. leave s g (omega arith) a.level o)
      λ n g o.
        subst (λ ts. IsOwning k₀ g (threads_owned ts (resource block n ∷ server_owned 6 s)))
          (sym a.no_threads) o

-- A port, on top of the level below.
iocp-Ensures :
    {k₀ : Kernel} (s : Server) (k : Kernel)
    → IsAt k₀ 3 s k
    → Ensures
        (IsAt k₀ 4)
        (IsServer k₀)
        (step descriptor (λ n s. raised (record s { sv_iocp = n })) s k)
iocp-Ensures s k a =
    step-IsAt 3 descriptor _ s k (omega arith) (λ n. (omega (arith, a.level), a.no_threads))
      (λ n. refl) a

accept-Ensures :
    {k₀ : Kernel} (s : Server) (k : Kernel)
    → IsAt k₀ 4 s k
    → Ensures
        (IsAt k₀ 5)
        (IsServer k₀)
        (step descriptor (λ n s. raised (record s { sv_iocp_accept = n })) s k)
accept-Ensures s k a =
    step-IsAt 4 descriptor _ s k (omega arith) (λ n. (omega (arith, a.level), a.no_threads))
      (λ n. refl) a

-- Winsock and the two locks, in the order in which they are given back
locks-IsOwning :
    {k₀ k : Kernel}
    → IsOwning k₀ k []
    → IsOwning k₀
        (hold (resource lock 1) (hold (resource lock 0) (hold (resource winsock 0) k).1).1).1
        (resource lock 0 ∷ resource lock 1 ∷ resource winsock 0 ∷ [])
locks-IsOwning o =
    IsOwning-reorder (resource lock 0 ∷ resource lock 1 ∷ resource winsock 0 ∷ [])
      (hold-IsOwning (resource lock 1)
        (hold-IsOwning (resource lock 0) (hold-IsOwning (resource winsock 0) o)))
      (λ r. omega arith)

init-Ensures :
    {k₀ : Kernel} (processors ratio : ℕ) (k : Kernel)
    → IsAt k₀ 0 zeroed k
    → Ensures (IsRunning k₀) (IsServer k₀) (init_steps processors ratio zeroed k)
unfolding init_steps
init-Ensures processors ratio k a = bind (attempt-IsAt 0 zeroed k (omega arith) a) λ _ s k a.
    bind
      (list-Ensures _ _ (record {
        level = omega (arith, a.level);
        no_threads = a.no_threads;
        owning = locks-IsOwning a.owning;
      }))
      λ _ s k a.
        bind
          (iocp-Ensures _ k
            (record { level = a.level; no_threads = a.no_threads; owning = a.owning }))
          λ _ s k a. bind (accept-Ensures s k a) λ _ s k a. bind (socket-Ensures s k a) λ _ s k a.
            bind (check-IsAt 6 _ s k (omega arith) a (load-IsOwning k)) λ _ s k a.
              bind (check-IsAt 6 _ s k (omega arith) a (load-IsOwning k)) λ _ s k a.
                bind (check-IsAt 6 _ s k (omega arith) a (load-IsOwning k)) λ _ s k a.
                  bind (attempt-IsAt 6 s k (omega arith) a)
                    λ _ s k a. bind (block-Ensures s k a) λ _ s k o. threads-Ensures s k o

-- How `server_init` ends.
pub data Initialised (k₀ : Kernel) : Bool × Server × Kernel → Type 0 where
  running : {s : Server} {k : Kernel} → IsRunning k₀ s k → Initialised k₀ (true, s, k)
  undone : {s : Server} {k : Kernel} → GivenBack k₀ s.sv_clients k → Initialised k₀ (false, s, k)

-- In every environment, server_init of the Windows server either returns TRUE with the server at
-- work, or FALSE with all given back that was taken, each once, whichever call fails; but where
-- there is no memory for the list of clients and a later call fails, the test for the list stops
-- the program.
pub server_init-Initialised :
    (processors ratio : ℕ) (k : Kernel) → Initialised k (server_init processors ratio k)
unfolding server_init
server_init-Initialised processors ratio k = go (init_steps processors ratio zeroed k) (
    init-Ensures processors ratio k
      (record { level = refl; no_threads = refl; owning = IsOwning-refl k }))
  where
    go :
        (r : Option (Unit {0}) × Server × Kernel)
        → Ensures (IsRunning k) (IsServer k) r
        → Initialised k (init_end r)
    go _ (returns h) = running h
    go _ (leaves {s} h) = undone (undo-GivenBack s h)
