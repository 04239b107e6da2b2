-- ===== src/Windows/Service/Stopping.antt =====
-- How the worker threads of the Windows server stop.
use aio_server.Base.{ℕ, ◌≡◌, ap, refl, none, some, List, [], ◌∷◌, ◌++◌}
use aio_server.Windows.Service.{
  ◌>>=◌, shut_down, Notification, iocp_shut_down, completed, ServerAction, server_stop,
  server_continue, Service, Outcome, use_after_free, stopped, out_of_fuel, ok, server_post_message,
}
use aio_server.Windows.Service.Worker.{
  process_completion, server_process_completions, server_worker_thread,
}

module _ (content_of : ℕ → List ℕ) where
  continues :
      (next more : Service → Outcome (ServerAction × Service)) (t : Service) (r : Outcome Service)
      → ((s : Service) → next s ≡ ok (server_continue, t) → more s ≡ ok (server_stop, t))
      → (r >>= next) ≡ ok (server_continue, t)
      → (r >>= more) ≡ ok (server_stop, t)
  continues next more t (ok s) f e = f s e
  continues next more t use_after_free f e = absurd (cc e)
  continues next more t stopped f e = absurd (cc e)
  continues next more t out_of_fuel f e = absurd (cc e)

  process-stop :
      (front rest : List Notification) (s t : Service)
      → server_process_completions content_of front s ≡ ok (server_continue, t)
      → server_process_completions content_of (front ++ iocp_shut_down ∷ rest) s
        ≡ ok (server_stop, t)
  unfolding server_process_completions
  process-stop [] rest s t e = let same : s ≡ t = cc e in ap (λ u. ok (server_stop, u)) same
  process-stop (iocp_shut_down ∷ front) rest s t e = absurd (cc e)
  process-stop (completed bytes none ∷ front) rest s t e = absurd (cc e)
  process-stop (completed bytes (some a) ∷ front) rest s t e =
      continues (server_process_completions content_of front)
        (server_process_completions content_of (front ++ iocp_shut_down ∷ rest)) t
        (process_completion content_of bytes a s) (λ u. process-stop front rest u t) e

  -- A worker that meets the message to stop behind completions that it can handle returns, after
  -- it has sent the message on to the port of the workers; what stands behind the message in the
  -- batch, and the later batches, it does not handle.
  pub worker-stops :
      (front rest : List Notification) (batches : List (List Notification)) (s t : Service)
      → server_process_completions content_of front s ≡ ok (server_continue, t)
      → server_worker_thread content_of ((front ++ iocp_shut_down ∷ rest) ∷ batches) s
        ≡ ok (server_post_message shut_down t)
  unfolding server_worker_thread
  worker-stops front rest batches s t e = rw (process-stop front rest s t e) refl
