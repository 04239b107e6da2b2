-- ===== src/Windows/Start/Levels.antt =====
-- The steps of `server_init` of the Windows server, between two levels.
use aio_server.Base.{
  ℕ, suc, ◌≤◌, ◌≡◌, refl, Bool, Option, none, some, List, [], ◌∷◌, ◌++◌, arith, subst, sym, inl,
  inr, Bool-cases, ◌==◌,
}
use aio_server.Kernel.{ResourceKind, Resource, resource, Answer, done, failed, Kernel, Sys, ask}
use aio_server.Kernel.Owns.{count, IsOwning, IsOwning-refl, ask-IsOwning}
use aio_server.Kernel.Build.{
  step, attempt, check_by, Ensures, step-Ensures, attempt-Ensures, check_by-Ensures,
}
use aio_server.Windows.Service.{wsa_io_pending}
use aio_server.Windows.Start.{Server}
use aio_server.Windows.Start.Init.{polled, ioctl_done, load_function_pointer_from_wsa}
use aio_server.Windows.Start.Owned.{server_owned, threads_owned, IsServer}

-- Between two steps, at a level.
pub record IsAt (k₀ : Kernel) (r : ℕ) (s : Server) (k : Kernel) : Type 0 where
  pub level : s.rollback ≡ r
  pub no_threads : s.sv_worker_threads ≡ []
  pub owning : IsOwning k₀ k (server_owned r s)

pub leave :
    {k₀ : Kernel} {r : ℕ} (s : Server) (k : Kernel)
    → r ≤ 6
    → s.rollback ≡ r
    → IsOwning k₀ k (server_owned r s)
    → IsServer k₀ s k
leave {k₀} s k le e o = record {
  level = omega (arith, le, e);
  owning = subst (λ n. IsOwning k₀ k (server_owned n s)) (sym e) o;
}

-- A call that takes nothing.
pub attempt-IsAt :
    {k₀ : Kernel} (r : ℕ) (s : Server) (k : Kernel)
    → r ≤ 6
    → IsAt k₀ r s k
    → Ensures (IsAt k₀ r) (IsServer k₀) (attempt s k)
attempt-IsAt r s k le a =
    attempt-Ensures s k a.owning (λ g o. leave s g le a.level o)
      (λ g o. record { level = a.level; no_threads = a.no_threads; owning = o })

pub check-IsAt :
    {k₀ : Kernel} (r : ℕ) (m : Sys Bool) (s : Server) (k : Kernel)
    → r ≤ 6
    → IsAt k₀ r s k
    → IsOwning k (m k).1 []
    → Ensures (IsAt k₀ r) (IsServer k₀) (check_by (λ _. m) s k)
check-IsAt r m s k le a p =
    check_by-Ensures (λ _. m) s k a.owning p (λ g o. leave s g le a.level o)
      (λ g o. record { level = a.level; no_threads = a.no_threads; owning = o })

pub step-IsAt :
    {k₀ : Kernel} (r : ℕ) (c : ResourceKind) (set : ℕ → Server → Server) (s : Server) (k : Kernel)
    → r ≤ 6
    → ((n : ℕ) → ((set n s).rollback ≡ suc r) × ((set n s).sv_worker_threads ≡ []))
    → ((n : ℕ) → resource c n ∷ server_owned r s ≡ server_owned (suc r) (set n s))
    → IsAt k₀ r s k
    → Ensures (IsAt k₀ (suc r)) (IsServer k₀) (step c set s k)
step-IsAt {k₀} r c set s k le kept owned a =
    step-Ensures c set s k a.owning (λ g o. leave s g le a.level o)
      λ n g o. record {
        level = (kept n).0;
        no_threads = (kept n).1;
        owning = subst (λ ys. IsOwning k₀ g ys) (owned n) o;
      }

pub load-IsOwning : (k : Kernel) → IsOwning k (load_function_pointer_from_wsa k).1 []
unfolding load_function_pointer_from_wsa
load-IsOwning k = go (ask k) (ask-IsOwning (IsOwning-refl k))
  where
    last : (r : Answer × Kernel) → IsOwning k r.1 [] → IsOwning k (polled r).1 []
    last (done n, g) o = o
    last (failed e, g) o = o

    go : (r : Answer × Kernel) → IsOwning k r.1 [] → IsOwning k (ioctl_done r).1 []
    go (done n, g) o = o
    go (failed e, g) o = elim (Bool-cases (e == wsa_io_pending)) [
      | inl t ↦ rw t (last (ask g) (ask-IsOwning o))
      | inr t ↦ rw t o
    ]

pub count-threads :
    (r : Resource) (ts : List (Option ℕ)) (t : Option ℕ) (xs : List Resource)
    → count r (threads_owned (ts ++ t ∷ []) xs) ≡ count r (threads_owned (t ∷ ts) xs)
count-threads r [] t xs = refl
count-threads r (none ∷ ts) none xs = count-threads r ts none xs
count-threads r (none ∷ ts) (some n) xs = count-threads r ts (some n) xs
count-threads r (some m ∷ ts) none xs = omega (arith, count-threads r ts none xs)
count-threads r (some m ∷ ts) (some n) xs = omega (arith, count-threads r ts (some n) xs)
