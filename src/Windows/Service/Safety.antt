-- ===== src/Windows/Service/Safety.antt =====
-- What the invariant of the Windows server gives to its threads.
use aio_server.Base.{ℕ, ◌<◌, ◌≡◌, refl, List}
use aio_server.Kernel.{Kernel}
use aio_server.Windows.Service.{Service, Outcome, ok}
use aio_server.Windows.Service.Worker.{process_completion}
use aio_server.Windows.Service.Books.{count}
use aio_server.Windows.Service.Sound.{Kept, kept, taken}
use aio_server.Windows.Service.Completions.{process-Kept}
use aio_server.Windows.Service.System.{System, Reach}
use aio_server.Windows.Service.Reachable.{Reach-IsSound}

Kept-ends :
    {m lost : ℕ} {h : List ℕ} {r : Outcome Service} → Kept m lost h r → (t : Service) × (r ≡ ok t)
Kept-ends (kept {s} books) = (s, refl)

module _ {content_of : ℕ → List ℕ} {m : ℕ} {root : List ℕ} {k : Kernel} {x : System}
    (small : m < 2147483648) (r : Reach content_of m root k x) where
  -- In every reachable state of the Windows server, with a limit below 2^31, the handling of a
  -- completion that is owed comes to its end, with any number of bytes: no structure that was
  -- freed is read, no assertion fails and no opcode is unknown.
  pub completion-ends :
      (bytes a : ℕ)
      → 0 < count a x.service.pending
      → (t : Service) × (process_completion content_of bytes a (taken a x.service) ≡ ok t)
  completion-ends bytes a has =
      Kept-ends (process-Kept content_of bytes a x.service has (Reach-IsSound small r))
