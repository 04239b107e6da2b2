-- ===== src/Windows/Service/Reachable.antt =====
-- What holds in every state that the Windows server reaches.
use aio_server.Base.{
  ℕ, ◌<◌, ◌≡◌, refl, Bool, true, false, Option, none, some, List, [], ◌∷◌, arith, inl, inr,
  Bool-cases, subst, ◌==◌,
}
use aio_server.Kernel.{Kernel, Answer, done, failed, ask}
use aio_server.Windows.Service.{
  Packet, shut_down, post_accept, ControlType, ctrl_logoff_event, ctrl_shutdown_event, ctrl_other,
  Service, Outcome, ok, posted, posted_to_workers, server_post_message, shut_down_both, confirmed,
  server_control_handler, idok,
}
use aio_server.Windows.Service.Main.{without_packet}
use aio_server.Windows.Service.Books.{Books}
use aio_server.Windows.Service.Moves.{packet-Books, pop-Books, shut_down-Books}
use aio_server.Windows.Service.Sound.{
  Sound, Kept, kept, Allowed, allowed, faulty, broken, unfinished,
}
use aio_server.Windows.Service.Handlers.{more_none-Sound}
use aio_server.Windows.Service.Completions.{process-Kept}
use aio_server.Windows.Service.Filling.{in_hand, round-Rest}
use aio_server.Windows.Service.System.{
  MainThread, waiting_packet, ended, filling, System, at, next_main, Step, completes, worker_stops,
  controls, takes, ends, fills, initial, Reach, start, later,
}

abbrev hands : MainThread → List ℕ
hands waiting_packet = []
hands ended = []
hands (filling opts cli) = in_hand cli

-- `lost` counts the accepts that are counted as outstanding and for which no client waits.
abbrev pub IsLossy : ℕ → ℕ → System → Type 0
IsLossy m lost x = Sound m lost x.service (hands x.main)

-- Every place of a client, the accepting thread's hand included, is accounted for.
abbrev pub IsSound : ℕ → System → Type 0
IsSound m x = IsLossy m 0 x

Kept-ok :
    {m lost : ℕ} {h : List ℕ} {r : Outcome Service} {t : Service}
    → Kept m lost h r
    → r ≡ ok t
    → Sound m lost t h
Kept-ok {m} {lost} {h} {t = t} (kept {s = s} books) e =
    subst (λ u. Sound m lost u h) {x = s} {y = t} (cc e) books

pub Allowed-ok :
    {R : Type 0} {P : R → Type 0} {r : Outcome R} {t : R} → Allowed P r → r ≡ ok t → P t
Allowed-ok {P} (allowed p) e = subst P (cc e) p
Allowed-ok faulty e = absurd (cc e)
Allowed-ok broken e = absurd (cc e)
Allowed-ok unfinished e = absurd (cc e)

next-IsLossy :
    {m lost : ℕ} (opts go : Bool) (t : Service)
    → Sound m lost t []
    → IsLossy m lost (at t (next_main opts go))
next-IsLossy opts true t books = books
next-IsLossy opts false t books = books

module _ {m lost : ℕ} {h : List ℕ} where
  message-Sound :
      (s : Service) → Sound m lost s h → Sound m lost (server_post_message shut_down s) h
  unfolding server_post_message
  message-Sound s books = go (ask s.kernel)
    where
      go : (r : Answer × Kernel) → Sound m lost (posted_to_workers shut_down s r) h
      go (done n, k) = books
      go (failed e, k) = books

  both-Sound : (s : Service) → Sound m lost s h → Sound m lost (shut_down_both s) h
  both-Sound s books = go (server_post_message shut_down s) (message-Sound s books) _
    where
      go :
          (t : Service)
          → Sound m lost t h
          → (r : Answer × Kernel) → Sound m lost (posted shut_down t r) h
      go t b (done n, k) = shut_down-Books b
      go t b (failed e, k) = b

  control-Sound :
      (ctrl : ControlType) (s : Service)
      → Sound m lost s h
      → Sound m lost (server_control_handler ctrl s) h
  unfolding server_control_handler
  control-Sound ctrl_logoff_event s books = both-Sound s books
  control-Sound ctrl_shutdown_event s books = both-Sound s books
  control-Sound ctrl_other s books = go (ask s.kernel)
    where
      go : (r : Answer × Kernel) → Sound m lost (confirmed s r) h
      go (done n, k) = elim (Bool-cases (n == idok)) [
        | inl e ↦ rw e (both-Sound _ books)
        | inr e ↦ rw e books
      ]
      go (failed e, k) = books

queue-Sound :
    {m lost : ℕ} {h : List ℕ} {q : List Packet} (s : Service)
    → s.sv_iocp_accept ≡ q
    → Sound m lost s h
    → Sound m lost (without_packet q s) h
queue-Sound {m} {lost} {h} s e books =
    subst
      (λ q.
        Books m lost s.store s.pending q s.sv_outstanding_accepts s.so_max_outstanding_accepts h)
      e books

packet-IsLossy :
    {m lost : ℕ} (opts : Bool) (cli : Option ℕ) (s : Service) (ps : List Packet)
    → s.sv_iocp_accept ≡ post_accept opts cli ∷ ps
    → Sound m lost s []
    → IsLossy m lost (at (without_packet ps s) (filling opts cli))
packet-IsLossy opts none s ps e books =
    pop-Books (post_accept opts none) (λ b. refl) (queue-Sound s e books)
packet-IsLossy opts (some a) s ps e books = packet-Books (queue-Sound s e books)

pub step-IsLossy :
    {content_of : ℕ → List ℕ} {m lost : ℕ} {x y : System}
    → Step content_of x y
    → IsLossy m lost x
    → IsLossy m lost y
step-IsLossy {content_of} (completes bytes a {s} has e) books =
    Kept-ok (process-Kept content_of bytes a s has books) e
step-IsLossy (worker_stops {s} e) books = message-Sound (record s { sv_iocp = _ }) books
step-IsLossy (controls ctrl {s}) books = control-Sound ctrl s books
step-IsLossy (takes {s} {opts} {cli} {ps} e) books = packet-IsLossy opts cli s ps e books
step-IsLossy (ends {s} {ps} e) books = pop-Books shut_down (λ b. refl) (queue-Sound s e books)
step-IsLossy (fills fuel {s} {t} {opts} {go} {cli} fresh e) books =
    next-IsLossy opts go t (Allowed-ok (round-Rest fuel opts cli s fresh books) e)

pub initial-Sound :
    (m : ℕ) (root : List ℕ) (k : Kernel) → m < 2147483648 → Sound m 0 (initial m root k) []
initial-Sound m root k lt = record {
  places = λ a. omega arith;
  proper = λ a c e. absurd (cc e);
  accepting = omega arith;
  below = omega arith;
  small = lt;
  limit = refl;
}

-- In every reachable state of the Windows server, with a limit m below 2^31: a client stands at
-- most once among the operations that are pending, the packets for the accepting thread and that
-- thread's hand, and only an allocated one does; an allocated client has no operation of a plain
-- read, and a file only while it sends an answer; and the clients that wait for a connection are
-- no more than sv_outstanding_accepts, which is at most m.
pub Reach-IsSound :
    {content_of : ℕ → List ℕ} {m : ℕ} {root : List ℕ} {k : Kernel} {x : System}
    → m < 2147483648
    → Reach content_of m root k x
    → IsSound m x
Reach-IsSound {m} {root} {k} lt start =
    more_none-Sound false (initial m root k) (initial-Sound m root k lt)
Reach-IsSound lt (later r step) = step-IsLossy step (Reach-IsSound lt r)
