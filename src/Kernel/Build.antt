-- ===== src/Kernel/Build.antt =====
-- Code that sets an object up in steps, each of which may fail, and leaves at the first failure.
-- What has been set up so far stays in the object, whose `rollback` level says how much that is.
use aio_server.Base.{ℕ, Bool, true, false, Option, none, some, List, [], ◌∷◌, inl, inr}
use aio_server.Kernel.{
  ResourceKind, Resource, resource, Answer, done, failed, Kernel, Sys, ask, acquire, hold,
}
use aio_server.Kernel.Owns.{IsOwning, IsOwning-trans, acquire-cases, ask-IsOwning}

-- `none` is the early return with an error.
abbrev pub Build : Type 0 → Type 0 → Type 0
Build S A = S → Kernel → Option A × S × Kernel

module _ {S A B : Type 0} where
  abbrev pub and_then : Option A × S × Kernel → (A → Build S B) → Option B × S × Kernel
  and_then (none, s, k) f = (none, s, k)
  and_then (some a, s, k) f = f a s k

  infixl 5 ◌>>=◌ ◌>>◌
  abbrev pub ◌>>=◌ : Build S A → (A → Build S B) → Build S B
  ◌>>=◌ m f s k = and_then (m s k) f

  abbrev pub ◌>>◌ : Build S A → Build S B → Build S B
  m >> n = m >>= λ _. n

module _ {S : Type 0} where
  abbrev pub taken : (ℕ → S → S) → S → Option ℕ × Kernel → Option (Unit {0}) × S × Kernel
  taken set s (none, g) = (none, s, g)
  taken set s (some n, g) = (some tt, set n s, g)

  abbrev answered : S → Answer × Kernel → Option ℕ × S × Kernel
  answered s (done n, g) = (some n, s, g)
  answered s (failed e, g) = (none, s, g)

  -- A step by a call of another function of the program.
  unfoldable pub step_by : Sys (Option ℕ) → (ℕ → S → S) → Build S (Unit {0})
  step_by m set s k = taken set s (m k)

  -- A step that takes a resource and, where it gets it, updates the object.
  unfoldable pub step : ResourceKind → (ℕ → S → S) → Build S (Unit {0})
  step c set s k = taken set s (acquire c k)

  -- A call that takes no resource and may fail.
  unfoldable pub attempt : Build S ℕ
  attempt s k = answered s (ask k)

  abbrev pub modify : (S → S) → Build S (Unit {0})
  modify f s k = (some tt, f s, k)

-- What holds where the code goes on, and where it has left.
pub data Ensures {S A : Type 0} (good bad : S → Kernel → Type 0)
    : Option A × S × Kernel → Type 0 where
  returns : {a : A} {s : S} {k : Kernel} → good s k → Ensures good bad (some a, s, k)
  leaves : {s : S} {k : Kernel} → bad s k → Ensures good bad (none, s, k)

pub bind :
    {S A B : Type 0} {mid good bad : S → Kernel → Type 0} {r : Option A × S × Kernel}
    {f : A → Build S B}
    → Ensures mid bad r
    → ((a : A) (s : S) (k : Kernel) → mid s k → Ensures good bad (f a s k))
    → Ensures good bad (and_then r f)
bind (returns h) next = next _ _ _ h
bind (leaves h) next = leaves h

module _ {S : Type 0} {good bad : S → Kernel → Type 0} {k₀ : Kernel} {xs : List Resource} where
  -- A step by what is owned before and after it.
  pub step-Ensures :
      (c : ResourceKind) (set : ℕ → S → S) (s : S) (k : Kernel)
      → IsOwning k₀ k xs
      → ((g : Kernel) → IsOwning k₀ g xs → bad s g)
      → ((n : ℕ) (g : Kernel) → IsOwning k₀ g (resource c n ∷ xs) → good (set n s) g)
      → Ensures good bad (step c set s k)
  unfolding step
  step-Ensures c set s k o fail win = elim (acquire-cases c k) [
    | inl (g, e, p) ↦ rw e (leaves (fail g (IsOwning-trans o p)))
    | inr (n, g, e, p) ↦ rw e (returns (win n g (IsOwning-trans o p)))
  ]

  pub attempt-Ensures :
      (s : S) (k : Kernel)
      → IsOwning k₀ k xs
      → ((g : Kernel) → IsOwning k₀ g xs → bad s g)
      → ((g : Kernel) → IsOwning k₀ g xs → good s g)
      → Ensures good bad (attempt s k)
  unfolding attempt
  attempt-Ensures s k o fail win = go (ask k).0 (ask k).1 (ask-IsOwning o)
    where
      go : (a : Answer) (g : Kernel) → IsOwning k₀ g xs → Ensures good bad (answered s (a, g))
      go (done n) g p = returns (win g p)
      go (failed e) g p = leaves (fail g p)

module _ {S : Type 0} where
  -- What comes with the resource of the step before.
  abbrev pub also : (S → Resource) → Build S (Unit {0})
  also f s k = (some tt, s, (hold (f s) k).1)

module _ {S : Type 0} where
  abbrev checked : S → Bool × Kernel → Option (Unit {0}) × S × Kernel
  checked s (true, g) = (some tt, s, g)
  checked s (false, g) = (none, s, g)

  -- A step by a call of the program's that only reports success.
  unfoldable pub check_by : (S → Sys Bool) → Build S (Unit {0})
  check_by m s k = checked s (m s k)

module _ {S : Type 0} {good bad : S → Kernel → Type 0} {k₀ : Kernel} {xs : List Resource} where
  pub check_by-Ensures :
      (m : S → Sys Bool) (s : S) (k : Kernel)
      → IsOwning k₀ k xs
      → IsOwning k (m s k).1 []
      → ((g : Kernel) → IsOwning k₀ g xs → bad s g)
      → ((g : Kernel) → IsOwning k₀ g xs → good s g)
      → Ensures good bad (check_by m s k)
  unfolding check_by
  check_by-Ensures m s k o p fail win = go (m s k).0 (m s k).1 (IsOwning-trans o p)
    where
      go : (b : Bool) (g : Kernel) → IsOwning k₀ g xs → Ensures good bad (checked s (b, g))
      go true g q = returns (win g q)
      go false g q = leaves (fail g q)
