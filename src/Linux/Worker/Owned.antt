-- ===== src/Linux/Worker/Owned.antt =====
-- `worker_thread_create` and `worker_thread_destroy`: what a worker owns at each level.
use aio_server.Base.{
  ℕ, zero, suc, ◌≤◌, ◌≡◌, refl, ◌==◌, if◌then◌else◌, Option, none, some, List, [], ◌∷◌, ◌++◌, arith,
  inl, inr, append-nil, subst,
}
use aio_server.Kernel.{
  ResourceKind, descriptor, block, string_copy, queue, queue_name, thread, client_list, Resource,
  resource, Kernel, release_all,
}
use aio_server.Kernel.Owns.{
  IsOwning, IsOwning-reorder, hold-IsOwning, release_all-IsOwning, acquire-cases,
}
use aio_server.Kernel.Build.{step, Ensures, returns, leaves, bind, step-Ensures}
use aio_server.Linux.Worker.{WorkerThread, zeroed, create_cleanup, worker_thread_destroy}
use aio_server.Linux.Worker.Create.{create_steps, create_end, worker_thread_create}

-- What the step to a level takes, and what is owned at a level, latest first.
abbrev pub level_at : ℕ → WorkerThread → List Resource
level_at r w =
    if r == 1
    then resource descriptor w.wk_termsig ∷ []
    else if r == 2
    then resource client_list w.wk_clients ∷ []
    else if r == 3
    then resource string_copy w.wk_mqueue_name ∷ []
    else if r == 4
    then resource descriptor w.wk_epoll_fds ∷ []
    else if r == 5
    then resource queue w.wk_messagequeue ∷ resource queue_name w.wk_mqueue_text ∷ []
    else if r == 6
    then resource thread w.wk_threadid ∷ []
    else []

abbrev pub owned_at : ℕ → WorkerThread → List Resource
owned_at zero w = resource block w.wk_address ∷ []
owned_at (suc r) w = level_at (suc r) w ++ owned_at r w

-- The `switch` of `worker_thread_destroy` gives back what its level says, latest first.
destroy-release_all :
    (r : ℕ) (w : WorkerThread) (k : Kernel)
    → r ≤ 6
    → w.wk_rollback ≡ r
    → (worker_thread_destroy w k).1 ≡ (release_all (owned_at r w) k).1
unfolding worker_thread_destroy release_all
destroy-release_all zero w k le e = rw e
destroy-release_all (suc zero) w k le e = rw e
destroy-release_all (suc (suc zero)) w k le e = rw e
destroy-release_all (suc (suc (suc zero))) w k le e = rw e
destroy-release_all (suc (suc (suc (suc zero)))) w k le e = rw e
destroy-release_all (suc (suc (suc (suc (suc zero))))) w k le e = rw e
destroy-release_all (suc (suc (suc (suc (suc (suc zero)))))) w k le e = rw e
destroy-release_all (suc (suc (suc (suc (suc (suc (suc r))))))) w k le e = absurd (omega arith)

create_cleanup-release_all :
    (r : ℕ) (w : WorkerThread) (k : Kernel)
    → r ≤ 4
    → w.wk_rollback ≡ r
    → (create_cleanup w k).1 ≡ (release_all (owned_at r w) k).1
unfolding create_cleanup release_all
create_cleanup-release_all zero w k le e = rw e
create_cleanup-release_all (suc zero) w k le e = rw e
create_cleanup-release_all (suc (suc zero)) w k le e = rw e
create_cleanup-release_all (suc (suc (suc zero))) w k le e = rw e
create_cleanup-release_all (suc (suc (suc (suc zero)))) w k le e = rw e
create_cleanup-release_all (suc (suc (suc (suc (suc r))))) w k le e = absurd (omega arith)

-- worker_thread_destroy of a structure of level at most 6 gives back exactly what its level
-- stands for, each once.
pub destroy-IsOwning :
    {k₀ k : Kernel} {xs : List Resource} (w : WorkerThread)
    → w.wk_rollback ≤ 6
    → IsOwning k₀ k (owned_at w.wk_rollback w ++ xs)
    → IsOwning k₀ (worker_thread_destroy w k).1 xs
destroy-IsOwning {k₀} {k} {xs} w le o =
    rw (destroy-release_all w.wk_rollback w k le refl)
      (release_all-IsOwning k (owned_at w.wk_rollback w) xs o)

-- Where a step of the creation fails, the level says what is owned.
record IsPartial (k₀ : Kernel) (w : WorkerThread) (k : Kernel) : Type 0 where
  low : w.wk_rollback ≤ 4
  owning : IsOwning k₀ k (owned_at w.wk_rollback w)

record IsAt (k₀ : Kernel) (r : ℕ) (w : WorkerThread) (k : Kernel) : Type 0 where
  level : w.wk_rollback ≡ r
  owning : IsOwning k₀ k (owned_at r w)

IsAt-IsPartial :
    {k₀ : Kernel} (r : ℕ) {w : WorkerThread} {k : Kernel} → r ≤ 4 → IsAt k₀ r w k → IsPartial k₀ w k
IsAt-IsPartial r le a = record { low = omega (arith, a.level); owning = simp a.level a.owning }

-- A creation that succeeds has reached level 5 and owns what that level says; one that fails has
-- given everything back.
pub data Created (k₀ : Kernel) : Option WorkerThread × Kernel → Type 0 where
  made :
      {w : WorkerThread} {k : Kernel}
      → w.wk_rollback ≡ 5
      → IsOwning k₀ k (owned_at 5 w)
      → Created k₀ (some w, k)
  refused : {k : Kernel} → IsOwning k₀ k [] → Created k₀ (none, k)

step-IsAt :
    {k₀ : Kernel} (r : ℕ) (c : ResourceKind) (set : ℕ → WorkerThread → WorkerThread)
    (w : WorkerThread) (k : Kernel)
    → r ≤ 4
    → IsAt k₀ r w k
    → ((n : ℕ) → (set n w).wk_rollback ≡ suc r)
    → ((n : ℕ) → resource c n ∷ owned_at r w ≡ owned_at (suc r) (set n w))
    → Ensures (IsAt k₀ (suc r)) (IsPartial k₀) (step c set w k)
step-IsAt {k₀} r c set w k le a level owned =
    step-Ensures c set w k a.owning
      (λ g o. IsAt-IsPartial r le (record { level = a.level; owning = o }))
      (λ n g o. record { level = level n; owning = subst (λ ys. IsOwning k₀ g ys) (owned n) o })

-- Between the two resources of level 5.
record IsQueueOpen (k₀ : Kernel) (w : WorkerThread) (k : Kernel) : Type 0 where
  level : w.wk_rollback ≡ 5
  owning : IsOwning k₀ k (resource queue w.wk_messagequeue ∷ owned_at 4 w)

create_steps-Ensures :
    {k₀ : Kernel} (name : ℕ) (w : WorkerThread) (k : Kernel)
    → IsAt k₀ 0 w k
    → Ensures (IsAt k₀ 5) (IsPartial k₀) (create_steps name w k)
unfolding create_steps
create_steps-Ensures {k₀} name w k a =
    bind (step-IsAt 0 descriptor _ w k (omega arith) a (λ n. omega (arith, a.level)) (λ n. refl))
      λ _ w k a.
        bind
          (step-IsAt 1 client_list _ w k (omega arith) a (λ n. omega (arith, a.level)) (λ n. refl))
          λ _ w k a.
            bind
              (step-IsAt 2 string_copy _ w k (omega arith) a (λ n. omega (arith, a.level))
                (λ n. refl))
              λ _ w k a.
                bind
                  (step-IsAt 3 descriptor _ w k (omega arith) a (λ n. omega (arith, a.level))
                    (λ n. refl))
                  λ _ w k a.
                    bind
                      (step-Ensures {good = IsQueueOpen k₀} queue _ w k a.owning
                        (λ g o.
                          IsAt-IsPartial 4 (omega arith) (record { level = a.level; owning = o }))
                        (λ n g o. record { level = omega (arith, a.level); owning = o }))
                      λ _ w k q. returns (record {
                        level = q.level;
                        owning =
                            IsOwning-reorder (owned_at 5 w)
                              (hold-IsOwning (resource queue_name w.wk_mqueue_text) q.owning)
                              (λ r. omega arith);
                      })

create_end-Created :
    {k₀ : Kernel} (r : Option (Unit {0}) × WorkerThread × Kernel)
    → Ensures (IsAt k₀ 5) (IsPartial k₀) r
    → Created k₀ (create_end r)
create_end-Created _ (returns a) = made a.level a.owning
create_end-Created _ (leaves {s = w} {k = k} p) = refused (
    rw (create_cleanup-release_all w.wk_rollback w k p.low refl)
      (release_all-IsOwning k (owned_at w.wk_rollback w) [] (rw append-nil p.owning)))

-- worker_thread_create either returns a structure of level 5 and takes exactly what that level
-- stands for, or returns null and has given back all that it took, whichever call fails.
pub create-Created : (name : ℕ) (k : Kernel) → Created k (worker_thread_create name k)
unfolding worker_thread_create
create-Created name k = elim (acquire-cases block k) [
  | inl (g, e, o) ↦ rw e (refused o)
  | inr (p, g, e, o) ↦ rw e (
      create_end-Created (create_steps name (zeroed p) g)
        (create_steps-Ensures name (zeroed p) g (record { level = refl; owning = o })))
]
