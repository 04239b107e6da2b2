-- ===== src/Linux/Dispatch/Loops.antt =====
-- `server_dispatch_event` and `server_start_accepting_clients`: the rounds of the accepting loop,
-- and the signal.
use aio_server.Base.{
  ◌∙◌, ℕ, zero, suc, ◌+◌, ◌<◌, ◌≡◌, refl, ap, sym, ◌≢◌, true, false, Option, none, some, List, [],
  ◌∷◌, ◌++◌, ◌==◌, arith, Bool-cases, inl, inr, ◌⊎◌, length, ==_refl, ne→==_false, subst,
  append_assoc,
}
use aio_server.Kernel.{
  descriptor, resource, Answer, done, failed, Kernel, ask, hold, eagain, write_event,
}
use mathlib.Core.List.{reverse, reverse-cons}
use aio_server.Linux.Worker.{WorkerThread}
use aio_server.Linux.Server.{Server}
use aio_server.Linux.Dispatch.Accepted.{with_sockets}
use aio_server.Linux.Dispatch.{
  would_block, accept_loop, signal_workers, handled, server_dispatch_event, dispatch_events, quit,
  server_start_accepting_clients,
}

Answer-cases : (a : Answer) → ((n : ℕ) × (a ≡ done n)) ⊎ ((e : ℕ) × (a ≡ failed e))
Answer-cases (done n) = inl (n, refl)
Answer-cases (failed e) = inr (e, refl)

-- Where the answer i calls from now is EAGAIN, more than i rounds are enough for the accepting
-- loop to end.
pub accept_loop-ends :
    (f i : ℕ) (k : Kernel)
    → k.answers (k.calls + i) ≡ failed eagain
    → i < f
    → (accept_loop f k).0 ≡ true
unfolding accept_loop ask hold
accept_loop-ends zero i k e lt = absurd (omega arith)
accept_loop-ends (suc f) zero k e lt =
    let now : k.calls + 0 ≡ k.calls = omega arith in
    rw (subst (λ j. k.answers j ≡ failed eagain) now e)
accept_loop-ends (suc f) (suc i) k e lt =
    let later : k.calls + suc i ≡ k.calls + 1 + i = omega arith in
    let e' = subst (λ j. k.answers j ≡ failed eagain) later e in
    let g = record k { calls = k.calls + 1 } in
    elim (Answer-cases (k.answers k.calls)) [
      | inl (n, a) ↦ rw a (accept_loop-ends f i (hold (resource descriptor n) g).1 e' (omega arith))
      | inr (x, a) ↦ elim (Bool-cases (would_block x)) [
        | inl b ↦ rw (a, b)
        | inr b ↦ rw (a, b) (accept_loop-ends f i g e' (omega arith))
      ]
    ]

-- Where every answer is one same error other than EAGAIN and EWOULDBLOCK, no number of rounds is
-- enough for the accepting loop to end.
pub accept_loop-spins :
    (f x : ℕ) (k : Kernel)
    → would_block x ≡ false
    → ((i : ℕ) → k.answers i ≡ failed x)
    → (accept_loop f k).0 ≡ false
unfolding accept_loop ask
accept_loop-spins zero x k b all = refl
accept_loop-spins (suc f) x k b all =
    rw (all k.calls, b) (accept_loop-spins f x (record k { calls = k.calls + 1 }) b all)

-- From the call `i` on the answers are the clients `fds`, and then EAGAIN.
abbrev pub Clients : (ℕ → Answer) → ℕ → List ℕ → Type 0
Clients answers i [] = answers i ≡ failed eagain
Clients answers i (n ∷ fds) = (answers i ≡ done n) × Clients answers (i + 1) fds

-- Where accept4 returns any clients one after another and then would block, more rounds than
-- there are clients are enough for the accepting loop to end, and all that it has done are the
-- calls of accept4, one for each client and one more, and to hold the clients' sockets: it makes
-- no other call, so that none of them is sent, watched or closed.
pub accept_loop-drops :
    (f : ℕ) (fds : List ℕ) (k : Kernel)
    → Clients k.answers k.calls fds
    → length fds < f
    → accept_loop f k ≡ (true, with_sockets fds (record k { calls = k.calls + length fds + 1 }))
unfolding accept_loop ask hold
accept_loop-drops zero fds k e lt = absurd (omega (arith, lt))
accept_loop-drops (suc f) [] k e lt = rw e (ap (λ c. (true, record k { calls = c })) (omega arith))
accept_loop-drops (suc f) (n ∷ fds) k (e, es) lt =
    let g = (hold (resource descriptor n) (record k { calls = k.calls + 1 })).1 in
    rw e (
      accept_loop-drops f fds g es (omega (arith, lt))
      ∙ ap (λ c. (true, with_sockets fds (record g { calls = c }))) (omega arith))

dispatch_events-quit :
    (fuel : ℕ) (es : List ℕ) (s : Server) (k : Kernel)
    → s.sv_quitflag ≢ 0
    → dispatch_events fuel es s k ≡ (handled, s, k)
unfolding dispatch_events
dispatch_events-quit fuel [] s k q = refl
dispatch_events-quit fuel (e ∷ es) s k q = rw (ne→==_false s.sv_quitflag 0 q) refl

accepting-quit :
    (fuel : ℕ) (bs : List (Option (List ℕ))) (s : Server) (k : Kernel)
    → s.sv_quitflag ≢ 0
    → server_start_accepting_clients fuel bs s k ≡ (quit, s, k)
unfolding server_start_accepting_clients
accepting-quit fuel [] s k q = rw (ne→==_false s.sv_quitflag 0 q) refl
accepting-quit fuel (none ∷ bs) s k q = rw (ne→==_false s.sv_quitflag 0 q) refl
accepting-quit fuel (some es ∷ bs) s k q = rw (ne→==_false s.sv_quitflag 0 q) refl

dispatch-signal :
    (fuel : ℕ) (s : Server) (k : Kernel)
    → s.sv_sigfds ≢ s.sv_acceptfd
    → server_dispatch_event fuel s.sv_sigfds s k
      ≡ (handled, record s { sv_quitflag = 1 }, (signal_workers s.sv_worker_count s.sv_workers k).1)
unfolding server_dispatch_event
dispatch-signal fuel s k apart =
    rw (ne→==_false s.sv_sigfds s.sv_acceptfd apart, ==_refl s.sv_sigfds) refl

dispatch_events-signal :
    (fuel : ℕ) (es : List ℕ) (s : Server) (k : Kernel)
    → s.sv_quitflag ≡ 0
    → s.sv_sigfds ≢ s.sv_acceptfd
    → dispatch_events fuel (s.sv_sigfds ∷ es) s k
      ≡ (handled, record s { sv_quitflag = 1 }, (signal_workers s.sv_worker_count s.sv_workers k).1)
unfolding dispatch_events
dispatch_events-signal fuel es s k running apart =
    let signalled = record s { sv_quitflag = 1 } in
    let told = (signal_workers s.sv_worker_count s.sv_workers k).1 in
    let now = dispatch-signal fuel s k apart in
    rw (ap (λ q. q == 0) running, now, now)
      (dispatch_events-quit fuel es signalled told (λ q. absurd (omega arith)))

-- Where the quit flag is not set and the signal descriptor is not the accept socket, a batch that
-- starts with the signal makes the loop write to the workers, set the flag and return; the rest
-- of the batch and the later batches are not handled.
pub signal-quits :
    (fuel : ℕ) (es : List ℕ) (bs : List (Option (List ℕ))) (s : Server) (k : Kernel)
    → s.sv_quitflag ≡ 0
    → s.sv_sigfds ≢ s.sv_acceptfd
    → server_start_accepting_clients fuel (some (s.sv_sigfds ∷ es) ∷ bs) s k
      ≡ (quit, record s { sv_quitflag = 1 }, (signal_workers s.sv_worker_count s.sv_workers k).1)
unfolding server_start_accepting_clients
signal-quits fuel es bs s k running apart =
    let signalled = record s { sv_quitflag = 1 } in
    let told = (signal_workers s.sv_worker_count s.sv_workers k).1 in
    let now = dispatch_events-signal fuel es s k running apart in
    rw (ap (λ q. q == 0) running, now, now)
      (accepting-quit fuel bs signalled told (λ q. absurd (omega arith)))

-- The number 1 to the termination event of each worker.
abbrev pub term_events : List WorkerThread → List (ℕ × ℕ)
term_events [] = []
term_events (w ∷ ws) = (w.wk_termsig, 1) ∷ term_events ws

write_event-done :
    (fd v n : ℕ) (k : Kernel)
    → k.answers k.calls ≡ done n
    → write_event fd v k ≡ (tt, record k { calls = k.calls + 1; written = (fd, v) ∷ k.written })
unfolding write_event ask
write_event-done fd v n k e = rw e refl

-- Where every call succeeds, the loop over all the workers writes 1 to the termination event of
-- each, in their order.
signal_workers-written :
    (ws : List WorkerThread) (k : Kernel)
    → ((i : ℕ) → (n : ℕ) × (k.answers i ≡ done n))
    → (signal_workers (length ws) ws k).1.written ≡ reverse (term_events ws) ++ k.written
unfolding signal_workers
signal_workers-written [] k all = refl
signal_workers-written (w ∷ ws) k all =
    let (n, e) = all k.calls in
    let g = record k { calls = k.calls + 1; written = (w.wk_termsig, 1) ∷ k.written } in
    let told = λ (r : Unit {0} × Kernel). (signal_workers (length ws) ws r.1).1.written in
    let rest : reverse (term_events ws) ++ (w.wk_termsig, 1) ∷ k.written
        ≡ reverse (term_events (w ∷ ws)) ++ k.written =
      rw (reverse-cons (w.wk_termsig, 1) (term_events ws))
        (sym (append_assoc (reverse (term_events ws)) ((w.wk_termsig, 1) ∷ []) k.written)) in
    ap told (write_event-done w.wk_termsig 1 n k e) ∙ signal_workers-written ws g all ∙ rest
