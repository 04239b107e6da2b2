-- ===== src/Windows/Service/Starving.antt =====
-- server_impl_windows.c: connections whose handling fails in `server_accept_new_connection`, and the
-- calls of `AcceptEx` that may still be made.
mod Tests
use aio_server.Base.{
  ℕ, false, ◌+◌, ◌≤◌, ◌<◌, ◌≡◌, Option, none, some, List, [], ◌∷◌, arith, subst, sym, ap,
}
use aio_server.Kernel.{Kernel, failed, ask}
use aio_server.Windows.Client.{Client, io_opcode_connection}
use aio_server.Windows.Service.{Service, ok, server_accept_more_clients}
use aio_server.Windows.Service.Books.{count, waiting, is_waiting}
use aio_server.Windows.Service.Completions.{waiting_one}
use aio_server.Windows.Service.Handlers.{more-Sound, more_none-Sound}
use aio_server.Windows.Service.Moves.{take-Books}
use aio_server.Windows.Service.Reachable.{IsLossy, Allowed-ok, initial-Sound, step-IsLossy}
use aio_server.Windows.Service.Sound.{Sound, Allowed, allowed, taken}
use aio_server.Windows.Service.System.{System, MainThread, waiting_packet, at, Step, initial}
use aio_server.Windows.Service.Worker.{
  process_completion, completion_of, completion_on, server_accept_new_connection, after_option,
  answered,
}

-- A run of the server in which `setsockopt` has failed for `n` of the clients that connected.
pub data Refusing (content_of : ℕ → List ℕ) (m : ℕ) (root : List ℕ) (k : Kernel)
    : ℕ → System → Type 0 where
  begins :
      Refusing content_of m root k 0
        (at (server_accept_more_clients none false (initial m root k)) waiting_packet)
  goes_on :
      {n : ℕ} {x y : System}
      → Refusing content_of m root k n x
      → Step content_of x y
      → Refusing content_of m root k n y
  refuses :
      (bytes a e : ℕ) {n : ℕ} {s t : Service} {p : MainThread} {c : Client}
      → Refusing content_of m root k n (at s p)
      → 0 < count a s.pending
      → s.store a ≡ some c
      → c.aio_opcode ≡ io_opcode_connection
      → (ask s.kernel).0 ≡ failed e
      → process_completion content_of bytes a (taken a s) ≡ ok t
      → Refusing content_of m root k (1 + n) (at t p)

module _ {m lost : ℕ} {h : List ℕ} (a e : ℕ) (c : Client) (s : Service)
    (failure : (ask s.kernel).0 ≡ failed e) where
  -- The client goes back to the accepting thread.
  refused-Sound : Sound m lost s (a ∷ h) → Sound m lost (server_accept_new_connection a c s) h
  unfolding server_accept_new_connection
  refused-Sound books =
      subst (λ x. Sound m lost (after_option a c (answered s (x, (ask s.kernel).1))) h)
        (sym failure) (more-Sound false (record s { kernel = (ask s.kernel).1 }) books)

  refused-Allowed :
      (content_of : ℕ → List ℕ) (bytes : ℕ)
      → s.store a ≡ some c
      → c.aio_opcode ≡ io_opcode_connection
      → Sound m lost s (a ∷ h)
      → Allowed (λ t. Sound m lost t h) (process_completion content_of bytes a s)
  unfolding process_completion
  refused-Allowed content_of bytes at_a opcode books =
      subst (λ o. Allowed (λ t. Sound m lost t h) (completion_of content_of bytes a s o)) (sym at_a)
        (subst (λ o. Allowed (λ t. Sound m lost t h) (completion_on content_of bytes a c s o))
          (sym opcode) (allowed (refused-Sound books)))

-- One more accept is lost.
taken-Sound :
    {m lost : ℕ} {h : List ℕ} (a : ℕ) (c : Client) (s : Service)
    → 0 < count a s.pending
    → s.store a ≡ some c
    → c.aio_opcode ≡ io_opcode_connection
    → Sound m lost s h
    → Sound m (1 + lost) (taken a s) (a ∷ h)
taken-Sound {m} {lost} {h} a c s has at_a opcode books =
    subst (λ n. Sound m (n + lost) (taken a s) (a ∷ h))
      (subst (λ o. is_waiting o ≡ 1) (sym at_a) (waiting_one c opcode)) (take-Books has books)

Refusing-IsLossy :
    {content_of : ℕ → List ℕ} {m : ℕ} {root : List ℕ} {k : Kernel} {n : ℕ} {x : System}
    → m < 2147483648
    → Refusing content_of m root k n x
    → IsLossy m n x
Refusing-IsLossy {m} {root} {k} lt begins =
    more_none-Sound false (initial m root k) (initial-Sound m root k lt)
Refusing-IsLossy lt (goes_on r step) = step-IsLossy step (Refusing-IsLossy lt r)
Refusing-IsLossy {content_of} lt (refuses bytes a e {s} {c} r has at_a opcode failure out) =
    Allowed-ok
      (refused-Allowed a e c (taken a s) failure content_of bytes at_a opcode
        (taken-Sound a c s has at_a opcode (Refusing-IsLossy lt r)))
      out

-- In every state of the Windows server, with a limit m below 2^31, that a run reaches in which
-- setsockopt has failed for n of the clients that connected, the clients that wait for a
-- connection and these n are together at most m: each such failure takes one of the m accepts
-- away for good.
pub refusals-lower :
    {content_of : ℕ → List ℕ} {m : ℕ} {root : List ℕ} {k : Kernel} {n : ℕ} {x : System}
    → m < 2147483648
    → Refusing content_of m root k n x
    → waiting x.service.store x.service.pending + n ≤ m
refusals-lower lt r = let b = Refusing-IsLossy lt r in omega (arith, b.accepting, b.below)
