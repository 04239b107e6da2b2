-- ===== src/Linux/Dispatch/Accepted.antt =====
-- `server_start_and_run`: what is owned during a run, and the descriptors of accepted clients.
mod Sockets
pub use Sockets.*
use aio_server.Base.{
  ℕ, zero, suc, ◌≡◌, refl, ap, sym, subst, Bool, true, false, Option, none, some, List, [], ◌∷◌,
  ◌++◌, ◌==◌, arith, Bool-cases, inl, inr, ◌⊎◌, length,
}
use aio_server.Kernel.{descriptor, Resource, resource, Kernel, hold, write_event}
use aio_server.Kernel.Owns.{IsOwning, IsOwning-trans, ask-cases}
use aio_server.Kernel.Build.{Ensures, returns, leaves}
use aio_server.Linux.Worker.{WorkerThread}
use aio_server.Linux.Server.{Server}
use aio_server.Linux.Server.Init.{server_init}
use aio_server.Linux.Server.Owned.{IsServer, server_owned, server_level_at, cleanup-IsOwning}
use aio_server.Linux.Server.Start.{IsRunning}
use aio_server.Linux.Server.Books.{init-Ensures}
use aio_server.Linux.Dispatch.{
  would_block, accept_loop, signal_workers, Progress, handled, out_of_fuel, accepted_end,
  server_dispatch_event, dispatch_events, AcceptEnd, quit, wait_failed, waiting, stuck,
  server_start_accepting_clients, RunEnd, init_failed, ended, accept_end, init_end,
  server_start_and_run,
}

-- The server beside the sockets that it left behind.
pub record IsLeaky (k₀ : Kernel) (s : Server) (k : Kernel) : Type 0 where
  pub fds : List ℕ
  pub server : IsServer (with_sockets fds k₀) s k

accepted_end-IsLeaky :
    {k₀ k₁ k : Kernel} (s : Server) (r : Bool × Kernel)
    → IsServer k₁ s k
    → IsLeaking k₀ r.1 (server_owned s.sv_rollback s)
    → IsLeaky k₀ (accepted_end s r).1 (accepted_end s r).2
accepted_end-IsLeaky s (true, k) i (fds, o) = record {
  fds = fds;
  server = record { level = i.level; count = i.count; low = i.low; owning = o };
}
accepted_end-IsLeaky s (false, k) i (fds, o) = record {
  fds = fds;
  server = record { level = i.level; count = i.count; low = i.low; owning = o };
}

-- Neither the quit flag nor the count is a resource.
pub server_owned-quitting :
    (r : ℕ) (s : Server) (c : ℕ)
    → server_owned r (record s { sv_worker_count = c; sv_quitflag = 1 }) ≡ server_owned r s
server_owned-quitting zero s c = refl
server_owned-quitting (suc r) s c =
    ap (λ ys. server_level_at (suc r) s ++ ys) (server_owned-quitting r s c)

-- An event keeps the books, but for the accepted sockets.
dispatch-IsLeaky :
    (fuel e : ℕ) {k₀ : Kernel} (s : Server) (k : Kernel)
    → IsLeaky k₀ s k
    → let (p, s', g) = server_dispatch_event fuel e s k in IsLeaky k₀ s' g
unfolding server_dispatch_event
dispatch-IsLeaky fuel e {k₀} s k l = elim (Bool-cases (e == s.sv_acceptfd)) [
  | inl here ↦ rw here (
      accepted_end-IsLeaky s (accept_loop fuel k) l.server
        (accept_loop-IsLeaking fuel k (l.fds, l.server.owning)))
  | inr other ↦ elim (Bool-cases (e == s.sv_sigfds)) [
    | inl sig ↦
        rw (other, sig, l.server.count)
          (record {
            fds = l.fds;
            server = record {
              level = l.server.level;
              count = refl;
              low = l.server.low;
              owning =
                  subst
                    (λ ys.
                      IsOwning (with_sockets l.fds k₀)
                        (signal_workers (length s.sv_workers) s.sv_workers k).1 ys)
                    (sym (server_owned-quitting s.sv_rollback s (length s.sv_workers)))
                    (signal_workers-IsOwning k s.sv_workers l.server.owning);
            };
          })
    | inr none_of ↦ rw (other, none_of) l
  ]
]

-- The end of the handler, so that the loops can be split on it.
pub Progress-cases : (p : Progress) → (p ≡ handled) ⊎ (p ≡ out_of_fuel)
Progress-cases handled = inl refl
Progress-cases out_of_fuel = inr refl

dispatch_events-IsLeaky :
    (fuel : ℕ) (es : List ℕ) {k₀ : Kernel} (s : Server) (k : Kernel)
    → IsLeaky k₀ s k
    → let (p, s', g) = dispatch_events fuel es s k in IsLeaky k₀ s' g
unfolding dispatch_events
dispatch_events-IsLeaky fuel [] s k l = l
dispatch_events-IsLeaky fuel (e ∷ es) {k₀} s k l =
    let r = server_dispatch_event fuel e s k in
    let l' : IsLeaky k₀ r.1 r.2 = dispatch-IsLeaky fuel e s k l in
    let rest = dispatch_events-IsLeaky fuel es r.1 r.2 l' in
    elim (Bool-cases (s.sv_quitflag == 0)) [
      | inr stop ↦ rw stop l
      | inl go ↦ elim (Progress-cases r.0) [
        | inl more ↦ rw (go, more) rest
        | inr end ↦ rw (go, end) l'
      ]
    ]

accepting-IsLeaky :
    (fuel : ℕ) (bs : List (Option (List ℕ))) {k₀ : Kernel} (s : Server) (k : Kernel)
    → IsLeaky k₀ s k
    → let (p, s', g) = server_start_accepting_clients fuel bs s k in IsLeaky k₀ s' g
unfolding server_start_accepting_clients
accepting-IsLeaky fuel [] s k l = elim (Bool-cases (s.sv_quitflag == 0)) [
  | inl e ↦ rw e l
  | inr e ↦ rw e l
]
accepting-IsLeaky fuel (none ∷ bs) s k l = elim (Bool-cases (s.sv_quitflag == 0)) [
  | inl e ↦ rw e l
  | inr e ↦ rw e l
]
accepting-IsLeaky fuel (some es ∷ bs) {k₀} s k l =
    let r = dispatch_events fuel es s k in
    let l' : IsLeaky k₀ r.1 r.2 = dispatch_events-IsLeaky fuel es s k l in
    let rest = accepting-IsLeaky fuel bs r.1 r.2 l' in
    elim (Bool-cases (s.sv_quitflag == 0)) [
      | inr stop ↦ rw stop l
      | inl go ↦ elim (Progress-cases r.0) [
        | inl more ↦ rw (go, more) rest
        | inr end ↦ rw (go, end) l'
      ]
    ]

-- Whether a run of the program has come to its end.
abbrev pub Returned : RunEnd → Type 0
Returned init_failed = Unit
Returned (ended quit) = Unit
Returned (ended wait_failed) = Unit
Returned (ended waiting) = ⊥
Returned (ended stuck) = ⊥

abbrev EndLeaks : Kernel → RunEnd × Kernel → Type 0
EndLeaks k₀ (e, k) = Returned e → IsLeaking k₀ k []

cleanup-EndLeaks :
    {k₀ : Kernel} (r : AcceptEnd × Server × Kernel)
    → IsLeaky k₀ r.1 r.2
    → EndLeaks k₀ (accept_end r)
cleanup-EndLeaks (quit, s, k) l ret = (l.fds, cleanup-IsOwning s l.server)
cleanup-EndLeaks (wait_failed, s, k) l ret = (l.fds, cleanup-IsOwning s l.server)
cleanup-EndLeaks (waiting, s, k) l ret = absurd ret
cleanup-EndLeaks (stuck, s, k) l ret = absurd ret

-- A run of server_start_and_run that returns (it quits, its epoll_wait fails or its start fails)
-- gives back every resource that it took, except that a list of descriptors may stay held, and
-- releases nothing that is not held.
pub run-IsLeaking :
    (fuel : ℕ) (bs : List (Option (List ℕ))) (k : Kernel)
    → Returned (server_start_and_run fuel bs k).0
    → IsLeaking k (server_start_and_run fuel bs k).1 []
unfolding server_start_and_run
run-IsLeaking fuel bs k = go (server_init k) (init-Ensures k)
  where
    go :
        (r : Option (Unit {0}) × Server × Kernel)
        → Ensures (IsRunning k) (IsServer k) r
        → EndLeaks k (init_end fuel bs r)
    go _ (returns {s} {k = g} h) =
        cleanup-EndLeaks (server_start_accepting_clients fuel bs s g)
          (accepting-IsLeaky fuel bs s g (record { fds = []; server = h.server }))
    go _ (leaves {s} h) = λ ret. ([], cleanup-IsOwning s h)
