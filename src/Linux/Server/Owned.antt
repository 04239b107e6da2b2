-- ===== src/Linux/Server/Owned.antt =====
-- `server_cleanup`: what the server owns at each level.
use aio_server.Base.{
  ℕ, zero, suc, ◌≤◌, ◌≡◌, refl, ◌==◌, if◌then◌else◌, List, [], ◌∷◌, ◌++◌, arith, append_assoc,
  subst, length,
}
use aio_server.Kernel.{descriptor, block, Resource, resource, Kernel}
use aio_server.Kernel.Owns.{IsOwning, release-IsOwning}
use aio_server.Linux.Worker.{WorkerThread, worker_thread_destroy}
use aio_server.Linux.Worker.Owned.{owned_at, destroy-IsOwning}
use aio_server.Linux.Server.{Server, destroy_workers, server_cleanup}

abbrev pub workers_owned : List WorkerThread → List Resource
workers_owned [] = []
workers_owned (w ∷ ws) = owned_at w.wk_rollback w ++ workers_owned ws

-- No worker's level is above the highest that there is.
abbrev pub AllLow : List WorkerThread → Type 0
AllLow [] = Unit
AllLow (w ∷ ws) = (w.wk_rollback ≤ 6) × AllLow ws

abbrev pub server_level_at : ℕ → Server → List Resource
server_level_at r s =
    if r == 1
    then resource descriptor s.sv_acceptfd ∷ []
    else if r == 2
    then resource descriptor s.sv_epollfd ∷ []
    else if r == 3
    then resource descriptor s.sv_sigfds ∷ []
    else if r == 4
    then resource descriptor s.sv_threadrdy_eventfds ∷ []
    else if r == 5
    then workers_owned s.sv_workers ++ resource block s.sv_workers_block ∷ []
    else []

abbrev pub server_owned : ℕ → Server → List Resource
server_owned zero s = []
server_owned (suc r) s = server_level_at (suc r) s ++ server_owned r s

-- What holds of the server between two calls, as far as resources go.
pub record IsServer (k₀ : Kernel) (s : Server) (k : Kernel) : Type 0 where
  pub level : s.sv_rollback ≤ 5
  pub count : s.sv_worker_count ≡ length s.sv_workers
  pub low : AllLow s.sv_workers
  pub owning : IsOwning k₀ k (server_owned s.sv_rollback s)

destroy_workers-IsOwning :
    {k₀ : Kernel} (k : Kernel) (ws : List WorkerThread) {xs : List Resource}
    → AllLow ws
    → IsOwning k₀ k (workers_owned ws ++ xs)
    → IsOwning k₀ (destroy_workers (length ws) ws k).1 xs
unfolding destroy_workers
destroy_workers-IsOwning k [] low o = o
destroy_workers-IsOwning {k₀} k (w ∷ ws) {xs} (lw, low) o =
    destroy_workers-IsOwning (worker_thread_destroy w k).1 ws low (
      destroy-IsOwning w lw (
        subst (λ ys. IsOwning k₀ k ys)
          (append_assoc (owned_at w.wk_rollback w) (workers_owned ws) xs) o))

-- The `switch` of `server_cleanup`, for each level.
cleanup_at :
    (r : ℕ) {k₀ k : Kernel} (s : Server)
    → r ≤ 5
    → s.sv_rollback ≡ r
    → s.sv_worker_count ≡ length s.sv_workers
    → AllLow s.sv_workers
    → IsOwning k₀ k (server_owned r s)
    → IsOwning k₀ (server_cleanup s k).1 []
unfolding server_cleanup
cleanup_at zero s le e c low o = rw e o
cleanup_at (suc zero) s le e c low o = rw e (release-IsOwning _ o)
cleanup_at (suc (suc zero)) s le e c low o = rw e (release-IsOwning _ (release-IsOwning _ o))
cleanup_at (suc (suc (suc zero))) s le e c low o =
    rw e (release-IsOwning _ (release-IsOwning _ (release-IsOwning _ o)))
cleanup_at (suc (suc (suc (suc zero)))) s le e c low o =
    rw e (release-IsOwning _ (release-IsOwning _ (release-IsOwning _ (release-IsOwning _ o))))
cleanup_at (suc (suc (suc (suc (suc zero))))) {k₀} {k} s le e c low o =
    let o' = destroy_workers-IsOwning k s.sv_workers low (
      subst (λ ys. IsOwning k₀ k ys)
        (append_assoc (workers_owned s.sv_workers) (resource block s.sv_workers_block ∷ [])
          (server_owned 4 s))
        o) in
    rw (e, c)
      (release-IsOwning _
        (release-IsOwning _ (release-IsOwning _ (release-IsOwning _ (release-IsOwning _ o')))))
cleanup_at (suc (suc (suc (suc (suc (suc r)))))) s le e c low o = absurd (omega arith)

-- `server_cleanup` gives back all that the server owns, each once.
pub cleanup-IsOwning :
    {k₀ k : Kernel} (s : Server) → IsServer k₀ s k → IsOwning k₀ (server_cleanup s k).1 []
cleanup-IsOwning s i = cleanup_at s.sv_rollback s i.level refl i.count i.low i.owning
