-- ===== src/Linux/Dispatch/Accepted/Sockets.antt =====
-- What the accepting loop, and the signal to the workers, do to what is owned.
use aio_server.Base.{ℕ, zero, suc, List, [], ◌∷◌, ◌++◌, arith, Bool-cases, inl, inr, length}
use aio_server.Kernel.{descriptor, Resource, resource, Kernel, hold, write_event}
use aio_server.Kernel.Owns.{IsOwning, IsOwning-trans, ask-cases}
use aio_server.Linux.Worker.{WorkerThread}
use aio_server.Linux.Dispatch.{would_block, accept_loop, signal_workers}

-- `k` with the descriptors `fds` held in addition.
abbrev pub with_sockets : List ℕ → Kernel → Kernel
with_sockets [] k = k
with_sockets (n ∷ fds) k = with_sockets fds (hold (resource descriptor n) k).1

hold-both :
    {k g : Kernel} {xs : List Resource} (x : Resource)
    → IsOwning k g xs
    → IsOwning (hold x k).1 (hold x g).1 xs
unfolding hold
hold-both x o = record { holds = λ r. ground (arith, o.holds r); sound = o.sound }

-- From `k₀` to `k` come `xs` and some descriptors, whatever they are: the accepting loop leaves those
-- of clients.
abbrev pub IsLeaking : Kernel → Kernel → List Resource → Type 0
IsLeaking k₀ k xs = (fds : List ℕ) × IsOwning (with_sockets fds k₀) k xs

-- What the accepting loop does is to leave more sockets behind.
leak-hold :
    (k₀ : Kernel) {k : Kernel} {xs : List Resource} (n : ℕ) (fds : List ℕ)
    → IsOwning (with_sockets fds k₀) k xs
    → IsOwning (with_sockets (fds ++ n ∷ []) k₀) (hold (resource descriptor n) k).1 xs
leak-hold k₀ n [] o = hold-both (resource descriptor n) o
leak-hold k₀ n (m ∷ fds) o = leak-hold (hold (resource descriptor m) k₀).1 n fds o

pub accept_loop-IsLeaking :
    (f : ℕ) {k₀ : Kernel} (k : Kernel) {xs : List Resource}
    → IsLeaking k₀ k xs
    → IsLeaking k₀ (accept_loop f k).1 xs
unfolding accept_loop
accept_loop-IsLeaking zero k l = l
accept_loop-IsLeaking (suc f) {k₀} k {xs} (fds, o) = elim (ask-cases k) [
  | inl (n, g, e, p, w) ↦ rw e (
      accept_loop-IsLeaking f (hold (resource descriptor n) g).1
        (fds ++ n ∷ [], leak-hold k₀ n fds (IsOwning-trans o p)))
  | inr (x, g, e, p, w) ↦ rw e (elim (Bool-cases (would_block x)) [
    | inl b ↦ rw b (fds, IsOwning-trans o p)
    | inr b ↦ rw b (accept_loop-IsLeaking f g (fds, IsOwning-trans o p))
  ])
]

write_event-IsOwning :
    {k₀ k : Kernel} {xs : List Resource} (fd v : ℕ)
    → IsOwning k₀ k xs
    → IsOwning k₀ (write_event fd v k).1 xs
unfolding write_event
write_event-IsOwning {k₀} {k} {xs} fd v o = elim (ask-cases k) [
  | inl (n, g, e, p, w) ↦
      let q = IsOwning-trans o p in rw e (record { holds = q.holds; sound = q.sound })
  | inr (x, g, e, p, w) ↦ rw e (IsOwning-trans o p)
]

pub signal_workers-IsOwning :
    {k₀ : Kernel} (k : Kernel) {xs : List Resource} (ws : List WorkerThread)
    → IsOwning k₀ k xs
    → IsOwning k₀ (signal_workers (length ws) ws k).1 xs
unfolding signal_workers
signal_workers-IsOwning k [] o = o
signal_workers-IsOwning k (w ∷ ws) o =
    signal_workers-IsOwning (write_event w.wk_termsig 1 k).1 ws
      (write_event-IsOwning w.wk_termsig 1 o)
