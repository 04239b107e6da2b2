-- ===== src/Linux/Server/Start.antt =====
-- `server_init`: what is owned after each of its steps.
use aio_server.Base.{
  ℕ, zero, suc, ◌+◌, ◌≤◌, ◌<◌, ◌≡◌, ◌==◌, Bool, true, false, Option, some, List, [], ◌∷◌, ◌++◌,
  arith, inl, inr, length, length-append, Bool-cases,
}
use aio_server.Kernel.{block, thread, Resource, resource, Kernel}
use aio_server.Kernel.Owns.{
  count, count-append, IsOwning, IsOwning-trans, IsOwning-reorder, acquire-cases, ask-IsOwning,
}
use aio_server.Kernel.Build.{Ensures, returns, leaves}
use aio_server.Linux.Worker.{WorkerThread, worker_thread_start}
use aio_server.Linux.Worker.Owned.{
  owned_at, destroy-IsOwning, Created, made, refused, create-Created,
}
use aio_server.Linux.Worker.Create.{worker_thread_create}
use aio_server.Linux.Server.{Server}
use aio_server.Linux.Server.Owned.{workers_owned, AllLow, server_owned, IsServer}
use aio_server.Linux.Server.Init.{
  with_worker, started_end, created_end, start_workers, workers_end, workers_step,
}

-- The server after a start that succeeded: every level is reached, and a worker runs.
pub record IsRunning (k₀ : Kernel) (s : Server) (k : Kernel) : Type 0 where
  pub server : IsServer k₀ s k
  pub level : s.sv_rollback ≡ 5
  pub some_workers : 0 < s.sv_worker_count

-- After `worker_thread_start`, whether it succeeds or not.
data Started (k₀ : Kernel) (xs : List Resource) : Bool × WorkerThread × Kernel → Type 0 where
  started :
      {b : Bool} {w : WorkerThread} {k : Kernel}
      → w.wk_rollback ≤ 6
      → IsOwning k₀ k (owned_at w.wk_rollback w ++ xs)
      → Started k₀ xs (b, w, k)

start-Started :
    {k₀ k : Kernel} {xs : List Resource} (ready : ℕ) (w : WorkerThread)
    → w.wk_rollback ≡ 5
    → IsOwning k₀ k (owned_at 5 w ++ xs)
    → Started k₀ xs (worker_thread_start ready w k)
unfolding worker_thread_start
start-Started {k₀} {k} ready w e o = elim (acquire-cases thread k) [
  | inl (g, eq, p) ↦ rw eq (started (omega (arith, e)) (simp e (IsOwning-trans o p)))
  | inr (t, g, eq, p) ↦
      let six : w.wk_rollback + 1 ≡ 6 = omega (arith, e) in
      rw eq (started (omega (arith, e)) (simp six (ask-IsOwning (IsOwning-trans o p))))
]

-- While the loop over the processors runs.
pub record IsFilling (k₀ : Kernel) (s : Server) (k : Kernel) : Type 0 where
  pub level : s.sv_rollback ≡ 5
  pub count : s.sv_worker_count ≡ length s.sv_workers
  pub low : AllLow s.sv_workers
  pub owning : IsOwning k₀ k (server_owned 5 s)

IsFilling-IsServer : {k₀ : Kernel} {s : Server} {k : Kernel} → IsFilling k₀ s k → IsServer k₀ s k
IsFilling-IsServer i = record {
  level = omega (arith, i.level);
  count = i.count;
  low = i.low;
  owning = simp i.level i.owning;
}

AllLow-snoc :
    (ws : List WorkerThread) (w : WorkerThread)
    → AllLow ws
    → w.wk_rollback ≤ 6
    → AllLow (ws ++ w ∷ [])
AllLow-snoc [] w l e = (e, tt)
AllLow-snoc (v ∷ ws) w (h, l) e = (h, AllLow-snoc ws w l e)

count-workers_snoc :
    (r : Resource) (ws : List WorkerThread) (w : WorkerThread)
    → count r (workers_owned (ws ++ w ∷ []))
      ≡ count r (owned_at w.wk_rollback w) + count r (workers_owned ws)
count-workers_snoc r [] w = omega (arith, count-append r (owned_at w.wk_rollback w) [])
count-workers_snoc r (v ∷ ws) w = omega (
  arith,
  count-append r (owned_at v.wk_rollback v) (workers_owned (ws ++ w ∷ [])),
  count-append r (owned_at v.wk_rollback v) (workers_owned ws),
  count-workers_snoc r ws w,
)

count-server :
    (r : Resource) (s : Server)
    → count r (server_owned 5 s)
      ≡ count r (workers_owned s.sv_workers)
        + count r (resource block s.sv_workers_block ∷ server_owned 4 s)
count-server r s = omega (
  arith,
  count-append r (workers_owned s.sv_workers ++ resource block s.sv_workers_block ∷ [])
      (server_owned 4 s),
  count-append r (workers_owned s.sv_workers) (resource block s.sv_workers_block ∷ []),
)

data Filled (k₀ : Kernel) : Server × Kernel → Type 0 where
  filled : {s : Server} {k : Kernel} → IsFilling k₀ s k → Filled k₀ (s, k)

started_end-Filled :
    {k₀ : Kernel} (s : Server) (r : Bool × WorkerThread × Kernel)
    → s.sv_rollback ≡ 5
    → s.sv_worker_count ≡ length s.sv_workers
    → AllLow s.sv_workers
    → Started k₀ (server_owned 5 s) r
    → Filled k₀ (started_end s r)
started_end-Filled s (true, w, k) e c low (started le o) = filled (record {
  level = e;
  count = omega (arith, c, length-append {0} s.sv_workers (w ∷ []));
  low = AllLow-snoc s.sv_workers w low le;
  owning = IsOwning-reorder (server_owned 5 (with_worker w s)) o λ r. omega (
    arith,
    count-server r s,
    count-server r (with_worker w s),
    count-workers_snoc r s.sv_workers w,
    count-append r (owned_at w.wk_rollback w) (server_owned 5 s),
  );
})
started_end-Filled s (false, w, k) e c low (started le o) =
    filled (record { level = e; count = c; low = low; owning = destroy-IsOwning w le o })

created_end-Filled :
    {k₀ k : Kernel} (s : Server) (r : Option WorkerThread × Kernel)
    → IsFilling k₀ s k
    → Created k r
    → Filled k₀ (created_end s r)
created_end-Filled s _ i (refused o) =
    filled
      (record { level = i.level; count = i.count; low = i.low; owning = IsOwning-trans i.owning o })
created_end-Filled s (some w, k) i (made five o) =
    started_end-Filled s (worker_thread_start s.sv_threadrdy_eventfds w k) i.level i.count i.low
      (start-Started s.sv_threadrdy_eventfds w five (IsOwning-trans i.owning o))

start_workers-Filled :
    {k₀ : Kernel} (n l : ℕ) (s : Server) (k : Kernel)
    → IsFilling k₀ s k
    → Filled k₀ (start_workers n l s k)
unfolding start_workers
start_workers-Filled zero l s k i = filled i
start_workers-Filled {k₀ = k₀} (suc n) l s k i =
    go (created_end s (worker_thread_create l k)) (created_end-Filled s _ i (create-Created l k))
      (start_workers-Filled {k₀ = k₀} n (suc l))
  where
    go :
        (r : Server × Kernel)
        → Filled k₀ r
        → ((s : Server) (k : Kernel) → IsFilling k₀ s k → Filled k₀ (start_workers n (suc l) s k))
        → Filled k₀ (start_workers n (suc l) r.0 r.1)
    go _ (filled {s} {k} i) next = next s k i

pub workers_step-Ensures :
    {k₀ : Kernel} (n : ℕ) (s : Server) (k : Kernel)
    → IsFilling k₀ s k
    → Ensures (IsRunning k₀) (IsServer k₀) (workers_step n s k)
unfolding workers_step
workers_step-Ensures {k₀} n s k i = go (start_workers n 0 s k) (start_workers-Filled n 0 s k i)
  where
    go : (r : Server × Kernel) → Filled k₀ r → Ensures (IsRunning k₀) (IsServer k₀) (workers_end r)
    go _ (filled {s} j) = elim (Bool-cases (s.sv_worker_count == 0)) [
      | inl z ↦ rw z (leaves (IsFilling-IsServer j))
      | inr p ↦ rw p (
          returns (record {
            server = IsFilling-IsServer j;
            level = j.level;
            some_workers = ground arith;
          }))
    ]

-- Before there are workers, the level says what is owned.
pub record IsAt (k₀ : Kernel) (r : ℕ) (s : Server) (k : Kernel) : Type 0 where
  pub level : s.sv_rollback ≡ r
  pub no_workers : s.sv_workers ≡ []
  pub no_count : s.sv_worker_count ≡ 0
  pub owning : IsOwning k₀ k (server_owned r s)

module _ {k₀ : Kernel} (r : ℕ) (le : r ≤ 4) (s : Server) where
  pub IsAt-IsServer : {k : Kernel} → IsAt k₀ r s k → IsServer k₀ s k
  IsAt-IsServer a = record {
    level = omega (arith, a.level);
    count = rw (a.no_workers, a.no_count);
    low = rw a.no_workers tt;
    owning = simp a.level a.owning;
  }

  pub again :
      {k : Kernel} → IsAt k₀ r s k → (g : Kernel) → IsOwning k₀ g (server_owned r s) → IsAt k₀ r s g
  again a g o = record {
    level = a.level;
    no_workers = a.no_workers;
    no_count = a.no_count;
    owning = o;
  }

  pub stop :
      {k : Kernel}
      → IsAt k₀ r s k
      → (g : Kernel) → IsOwning k₀ g (server_owned r s)
      → IsServer k₀ s g
  stop a g o = IsAt-IsServer (again a g o)
