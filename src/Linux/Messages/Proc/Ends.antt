-- ===== src/Linux/Messages/Proc/Ends.antt =====
-- `worker_thread_handle_msgqueue_event`: the rounds of its loop.
use aio_server.Base.{ℕ, ◌+◌, ◌≤◌, ◌≡◌, refl, ◌==◌, false, arith}
use aio_server.Kernel.{done, failed, Kernel, ask}
use aio_server.Linux.Client.{Client}
use aio_server.Linux.Messages.{
  State, Message, HandlerEnd, handled, bugstop, out_of_fuel, itt_message_add_client,
}

-- The environment is the same, and no fewer calls have been made.
record IsLater (k g : Kernel) : Type 0 where
  same_answers : g.answers ≡ k.answers
  later : k.calls ≤ g.calls

ask-IsLater : (k : Kernel) → IsLater k (ask k).1
unfolding ask
ask-IsLater k = record { same_answers = refl; later = omega arith }

-- How the loop stands after `f` rounds from `k` on, at most. `refused`: its last call, number `c`, has
-- failed. `unknown`: its last call has brought a message with another code. `receiving`: it is still
-- at it, after a call for each round.
pub data Drained (message_of : ℕ → Message) (f : ℕ) (k : Kernel)
    : HandlerEnd × State × Kernel → Type 0 where
  refused :
      (c e : ℕ) {t : State} {g : Kernel}
      → k.calls ≤ c
      → g.calls ≡ c + 1
      → k.answers c ≡ failed e
      → Drained message_of f k (handled, t, g)
  unknown :
      (c n : ℕ) {t : State} {g : Kernel}
      → k.calls ≤ c
      → g.calls ≡ c + 1
      → k.answers c ≡ done n
      → ((message_of n).msg_code == itt_message_add_client) ≡ false
      → Drained message_of f k (bugstop, t, g)
  receiving :
      {t : State} {g : Kernel} → k.calls + f ≤ g.calls → Drained message_of f k (out_of_fuel, t, g)
