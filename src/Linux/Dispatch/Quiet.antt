-- ===== src/Linux/Dispatch/Quiet.antt =====
-- `server_start_accepting_clients` and `server_cleanup` where no client comes.
use aio_server.Base.{
  ℕ, ◌≡◌, ◌≢◌, refl, sym, ◌∙◌, subst, Option, none, some, List, [], ◌∷◌, ◌==◌, Bool-cases, inl, inr,
  length, ne→==_false,
}
use aio_server.Kernel.{Kernel}
use aio_server.Kernel.Owns.{IsOwning}
use aio_server.Linux.Server.{Server}
use aio_server.Linux.Server.Owned.{IsServer, cleanup-IsOwning}
use aio_server.Linux.Dispatch.{
  server_dispatch_event, signal_workers, dispatch_events, AcceptEnd, quit, wait_failed, waiting,
  stuck, server_start_accepting_clients, accept_end,
}
use aio_server.Linux.Dispatch.Accepted.{
  Returned, Progress-cases, signal_workers-IsOwning, server_owned-quitting,
}

-- No event is one of the descriptor `fd`.
abbrev pub AllOther : ℕ → List ℕ → Type 0
AllOther fd [] = Unit
AllOther fd (e ∷ es) = (e ≢ fd) × AllOther fd es

abbrev pub AllQuiet : ℕ → List (Option (List ℕ)) → Type 0
AllQuiet fd [] = Unit
AllQuiet fd (none ∷ bs) = AllQuiet fd bs
AllQuiet fd (some es ∷ bs) = AllOther fd es × AllQuiet fd bs

-- The server with its accept socket.
record IsWaiting (k₀ : Kernel) (fd : ℕ) (s : Server) (k : Kernel) : Type 0 where
  socket : s.sv_acceptfd ≡ fd
  server : IsServer k₀ s k

module _ {k₀ : Kernel} {fd : ℕ} where
  event-IsWaiting :
      (fuel e : ℕ) (s : Server) (k : Kernel)
      → e ≢ fd
      → IsWaiting k₀ fd s k
      → let r = server_dispatch_event fuel e s k in IsWaiting k₀ fd r.1 r.2
  unfolding server_dispatch_event
  event-IsWaiting fuel e s k other w =
      let miss = ne→==_false e s.sv_acceptfd (λ q. other (q ∙ w.socket)) in
      elim (Bool-cases (e == s.sv_sigfds)) [
        | inr none_of ↦ rw (miss, none_of) w
        | inl sig ↦
            rw (miss, sig, w.server.count)
              (record {
                socket = w.socket;
                server = record {
                  level = w.server.level;
                  count = refl;
                  low = w.server.low;
                  owning =
                      subst
                        (λ ys.
                          IsOwning k₀ (signal_workers (length s.sv_workers) s.sv_workers k).1 ys)
                        (sym (server_owned-quitting s.sv_rollback s (length s.sv_workers)))
                        (signal_workers-IsOwning k s.sv_workers w.server.owning);
                };
              })
      ]

  events-IsWaiting :
      (fuel : ℕ) (es : List ℕ) (s : Server) (k : Kernel)
      → AllOther fd es
      → IsWaiting k₀ fd s k
      → let r = dispatch_events fuel es s k in IsWaiting k₀ fd r.1 r.2
  unfolding dispatch_events
  events-IsWaiting fuel [] s k others w = w
  events-IsWaiting fuel (e ∷ es) s k (other, others) w =
      let r = server_dispatch_event fuel e s k in
      let w' : IsWaiting k₀ fd r.1 r.2 = event-IsWaiting fuel e s k other w in
      let rest = events-IsWaiting fuel es r.1 r.2 others w' in
      elim (Bool-cases (s.sv_quitflag == 0)) [
        | inr stop ↦ rw stop w
        | inl go ↦ elim (Progress-cases r.0) [
          | inl more ↦ rw (go, more) rest
          | inr end ↦ rw (go, end) w'
        ]
      ]

  accepting-IsWaiting :
      (fuel : ℕ) (bs : List (Option (List ℕ))) (s : Server) (k : Kernel)
      → AllQuiet fd bs
      → IsWaiting k₀ fd s k
      → let r = server_start_accepting_clients fuel bs s k in IsWaiting k₀ fd r.1 r.2
  unfolding server_start_accepting_clients
  accepting-IsWaiting fuel [] s k quiet w = elim (Bool-cases (s.sv_quitflag == 0)) [
    | inl e ↦ rw e w
    | inr e ↦ rw e w
  ]
  accepting-IsWaiting fuel (none ∷ bs) s k quiet w = elim (Bool-cases (s.sv_quitflag == 0)) [
    | inl e ↦ rw e w
    | inr e ↦ rw e w
  ]
  accepting-IsWaiting fuel (some es ∷ bs) s k (others, quiet) w =
      let r = dispatch_events fuel es s k in
      let w' : IsWaiting k₀ fd r.1 r.2 = events-IsWaiting fuel es s k others w in
      let rest = accepting-IsWaiting fuel bs r.1 r.2 quiet w' in
      elim (Bool-cases (s.sv_quitflag == 0)) [
        | inr stop ↦ rw stop w
        | inl go ↦ elim (Progress-cases r.0) [
          | inl more ↦ rw (go, more) rest
          | inr end ↦ rw (go, end) w'
        ]
      ]

accept_end-IsOwning :
    {k₀ : Kernel} {fd : ℕ} (r : AcceptEnd × Server × Kernel)
    → IsWaiting k₀ fd r.1 r.2
    → Returned (accept_end r).0
    → IsOwning k₀ (accept_end r).1 []
accept_end-IsOwning (quit, s, k) w ret = cleanup-IsOwning s w.server
accept_end-IsOwning (wait_failed, s, k) w ret = cleanup-IsOwning s w.server
accept_end-IsOwning (waiting, s, k) w ret = absurd ret
accept_end-IsOwning (stuck, s, k) w ret = absurd ret

-- Where the server's level is at most 5, that of each worker at most 6, its count of workers is
-- right and it holds what its level says, a run of the accepting loop and the end of the server
-- in which no event is one of the accept socket, if it returns, gives back every resource and
-- releases nothing that is not held.
pub quiet-IsOwning :
    {k₀ : Kernel} (fuel : ℕ) (bs : List (Option (List ℕ))) (s : Server) (k : Kernel)
    → IsServer k₀ s k
    → AllQuiet s.sv_acceptfd bs
    → Returned (accept_end (server_start_accepting_clients fuel bs s k)).0
    → IsOwning k₀ (accept_end (server_start_accepting_clients fuel bs s k)).1 []
quiet-IsOwning fuel bs s k i quiet ret =
    accept_end-IsOwning (server_start_accepting_clients fuel bs s k)
      (accepting-IsWaiting fuel bs s k quiet (record { socket = refl; server = i })) ret
