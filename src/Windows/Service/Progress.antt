-- ===== src/Windows/Service/Progress.antt =====
-- The accepting thread of the Windows server where every call succeeds, and where `AcceptEx` fails.
use aio_server.Base.{
  ℕ, zero, suc, ◌+◌, ◌≤◌, ◌<◌, ◌-◌, ◌≡◌, ◌≢◌, refl, Bool, true, false, Option, none, some, List, [],
  ◌∷◌, ◌++◌, ◌∙◌, ap, append_assoc, length, Bool-cases, ◌==◌, ==_refl, if◌then◌else◌, arith, subst,
  sym, inl, inr, Option-cases, ne→==_false, pos,
}
use mathlib.Core.Path.{fun_ext}
use aio_server.Kernel.{Answer, done, failed, Kernel, ask, hold, acquire}
use aio_server.Atomic.{atomic32_increment, atomic32_load}
use aio_server.Windows.Client.{Client, client_create}
use aio_server.Windows.Service.{
  ◌>>=◌, Listed, Service, Outcome, use_after_free, stopped, out_of_fuel, ok, wsa_io_pending,
}
use aio_server.Windows.Service.Books.{Store, is_waiting, waiting}
use aio_server.Windows.Service.Sound.{Allowed, allowed, faulty, broken, unfinished}
use aio_server.Windows.Service.Accept.{
  remove_equal, removed, freed, server_remove_client_from_list, cleanup_of,
  server_add_client_to_list, server_cleanup_client_data,
}
use aio_server.Windows.Service.Main.{
  server_post_acceptex_with_client, server_try_post_accept, reaches, client_for_round, posting,
  after_round, wsaeconnreset, accept_round, accept_rounds,
}

-- The service with the answers of the environment replaced.
abbrev with_answers : (ℕ → Answer) → Service → Service
with_answers f s = record s { kernel = record s.kernel { answers = f } }

-- Every call returns a value.
abbrev succeeding : (ℕ → ℕ) → ℕ → Answer
succeeding g i = done (g i)

-- A client that waits for a connection in `st` does so in `st'`.
abbrev pub Waits : Store → Store → Type 0
Waits st st' = (b : ℕ) → is_waiting (st b) ≡ 1 → is_waiting (st' b) ≡ 1

-- One more call of `AcceptEx` is outstanding, and the loop goes on.
data Posted (g : ℕ → ℕ) (s : Service) : Outcome (Bool × Service) → Type 0 where
  one_more :
      {t : Service} (a : ℕ)
      → t.pending ≡ a ∷ s.pending
      → is_waiting (t.store a) ≡ 1
      → Waits s.store t.store
      → t.sv_outstanding_accepts ≡ s.sv_outstanding_accepts + 1
      → t.so_max_outstanding_accepts ≡ s.so_max_outstanding_accepts
      → t.kernel.answers ≡ succeeding g
      → Posted g s (ok (true, t))

reaches-below : (w m : ℕ) → w < m → m < 2147483648 → reaches w (pos m) ≡ false
reaches-below w m lt small = ground arith

reaches-limit : (m : ℕ) → m < 2147483648 → reaches m (pos m) ≡ true
reaches-limit m small = ground arith

posting-Posted :
    (g : ℕ → ℕ) (fuel : ℕ) (opts : Bool) (s : Service)
    → s.sv_outstanding_accepts < 2147483648
    → Posted g s (client_for_round opts none (with_answers (succeeding g) s) >>= posting (suc fuel))
unfolding client_for_round client_create server_add_client_to_list acquire ask hold
    server_try_post_accept server_post_acceptex_with_client atomic32_increment atomic32_load
posting-Posted g fuel opts s lt = rw (==_refl (g s.kernel.calls)) (
    one_more (g s.kernel.calls) refl (rw (==_refl (g s.kernel.calls)) refl)
      (λ b e. elim (Bool-cases (b == g s.kernel.calls)) [
        | inl same ↦ rw same refl
        | inr other ↦ rw other e
      ])
      (omega (arith, lt)) refl refl)

round-Posted :
    {g : ℕ → ℕ} {m : ℕ} (fuel : ℕ) (opts : Bool) (s : Service)
    → s.kernel.answers ≡ succeeding g
    → s.so_max_outstanding_accepts ≡ pos m
    → s.sv_outstanding_accepts < m
    → m < 2147483648
    → Posted g s (accept_round (suc fuel) opts none s)
unfolding accept_round atomic32_load
round-Posted {g} {m} fuel opts s h e lt small =
    let below : reaches s.sv_outstanding_accepts s.so_max_outstanding_accepts ≡ false =
      rw e (reaches-below s.sv_outstanding_accepts m lt small) in
    rw below (
      subst (λ f. Posted g s (client_for_round opts none (with_answers f s) >>= posting (suc fuel)))
        (sym h) (posting-Posted g fuel opts s (omega (arith, lt, small))))

-- From `s` on the accepting thread has posted as many calls as it may: those that were missing are
-- pending for clients that wait for a connection.
pub data Filled (m : ℕ) (s : Service) : Outcome Service → Type 0 where
  filled :
      (new : List ℕ) {t : Service}
      → t.pending ≡ new ++ s.pending
      → length new + s.sv_outstanding_accepts ≡ m
      → waiting t.store new ≡ length new
      → Waits s.store t.store
      → t.sv_outstanding_accepts ≡ m
      → Filled m s (ok t)

waiting-append :
    (st : Store) (a : ℕ) (new : List ℕ)
    → waiting st (new ++ a ∷ []) ≡ waiting st new + is_waiting (st a)
waiting-append st a [] = omega arith
waiting-append st a (b ∷ new) = omega (arith, waiting-append st a new)

length-append : (a : ℕ) (new : List ℕ) → length (new ++ a ∷ []) ≡ length new + 1
length-append a [] = refl
length-append a (b ∷ new) = omega (arith, length-append a new)

-- A round in front.
before-Filled :
    {m : ℕ} {s t : Service} (a : ℕ) {r : Outcome Service}
    → t.pending ≡ a ∷ s.pending
    → is_waiting (t.store a) ≡ 1
    → Waits s.store t.store
    → t.sv_outstanding_accepts ≡ s.sv_outstanding_accepts + 1
    → Filled m t r
    → Filled m s r
before-Filled {s} a p now keeps more (filled new {t = u} q long all later full) =
    filled (new ++ a ∷ []) (q ∙ ap (λ l. new ++ l) p ∙ sym (append_assoc new (a ∷ []) s.pending))
      (omega (arith, length-append a new, long, more))
      (omega (arith, waiting-append u.store a new, later a now, all, length-append a new))
      (λ b e. later b (keeps b e)) full

next-Filled :
    {g : ℕ → ℕ} {m : ℕ} (d : ℕ) (s : Service) (again : Service → Outcome Service)
    {r : Outcome (Bool × Service)}
    → ((t : Service)
        → t.kernel.answers ≡ succeeding g
        → t.so_max_outstanding_accepts ≡ pos m
        → t.sv_outstanding_accepts + d ≡ m
        → Filled m t (again t))
    → s.so_max_outstanding_accepts ≡ pos m
    → s.sv_outstanding_accepts + suc d ≡ m
    → Posted g s r
    → Filled m s (r >>= after_round again)
next-Filled d s again f e sum (one_more {t} a p now keeps more lim answers) =
    before-Filled a p now keeps more (f t answers (lim ∙ e) (omega (arith, more, sum)))

module _ {m : ℕ} (small : m < 2147483648) where
  round-at_limit :
      (fuel : ℕ) (opts : Bool) (s : Service)
      → s.so_max_outstanding_accepts ≡ pos m
      → s.sv_outstanding_accepts ≡ m
      → Filled m s (accept_rounds (suc fuel) opts none s)
  unfolding accept_rounds accept_round atomic32_load
  round-at_limit fuel opts s e at =
      let full : reaches s.sv_outstanding_accepts s.so_max_outstanding_accepts ≡ true =
        rw (e, at) (reaches-limit m small) in
      rw full (filled [] refl (omega (arith, at)) refl (λ b w. w) at)

  rounds-Filled :
      {g : ℕ → ℕ} (d fuel : ℕ) (opts : Bool) (s : Service)
      → s.kernel.answers ≡ succeeding g
      → s.so_max_outstanding_accepts ≡ pos m
      → s.sv_outstanding_accepts + d ≡ m
      → d ≤ fuel
      → Filled m s (accept_rounds (suc fuel) opts none s)
  unfolding accept_rounds
  rounds-Filled zero fuel opts s h e sum le = round-at_limit fuel opts s e (omega (arith, sum))
  rounds-Filled (suc d) zero opts s h e sum le = absurd (omega (arith, le))
  rounds-Filled {g} (suc d) (suc fuel) opts s h e sum le =
      next-Filled d s (accept_rounds (suc fuel) opts none)
        (λ t h' e' sum'. rounds-Filled d fuel opts t h' e' sum' (omega (arith, le))) e sum
        (round-Posted fuel opts s h e (omega (arith, sum)) small)

  -- Where every call returns a value and sv_outstanding_accepts is at most the limit, which is
  -- below 2^31, more rounds than are missing are enough for the accepting thread's inner loop,
  -- without a client to start with, to end: just as many operations are pending in addition as
  -- were missing, each for a client that waits for a connection, and the count is the limit.
  pub accept_rounds-Filled :
      {g : ℕ → ℕ} (fuel : ℕ) (opts : Bool) (s : Service)
      → ((i : ℕ) → s.kernel.answers i ≡ done (g i))
      → s.so_max_outstanding_accepts ≡ pos m
      → s.sv_outstanding_accepts ≤ m
      → m < s.sv_outstanding_accepts + fuel
      → Filled m s (accept_rounds fuel opts none s)
  accept_rounds-Filled zero opts s h e le lt = absurd (omega (arith, le, lt))
  accept_rounds-Filled (suc fuel) opts s h e le lt =
      rounds-Filled (m - s.sv_outstanding_accepts) fuel opts s (fun_ext h) e (omega (arith, le))
        (omega (arith, lt))

module _ (a : ℕ) where
  removed-gone :
      (c : Client) (s : Service) (r : Outcome (List Listed × Kernel))
      → Allowed (λ t. t.store a ≡ none) (r >>= removed a c s >>= freed a c)
  removed-gone c s (ok (xs, k)) = allowed (rw (==_refl a) refl)
  removed-gone c s use_after_free = faulty
  removed-gone c s stopped = broken
  removed-gone c s out_of_fuel = unfinished

  cleanup-gone : (s : Service) → Allowed (λ t. t.store a ≡ none) (server_cleanup_client_data a s)
  unfolding server_cleanup_client_data server_remove_client_from_list
  cleanup-gone s = go (s.store a)
    where
      on_flag :
          (c : Client) (b : Bool)
          → let r = remove_equal s.store c s.sv_clients s.kernel in
            Allowed
              (λ t. t.store a ≡ none)
              ((if b then r >>= removed a c s else stopped) >>= freed a c)
      on_flag c true = removed-gone c s _
      on_flag c false = broken

      go : (o : Option Client) → Allowed (λ t. t.store a ≡ none) (cleanup_of a s o)
      go none = faulty
      go (some c) = on_flag c c.cl_is_tracked

  next-faulty :
      (fuel : ℕ) {r : Outcome Service} {t : Service}
      → Allowed (λ u. u.store a ≡ none) r
      → r ≡ ok t
      → r >>= server_try_post_accept (suc fuel) a ≡ use_after_free
  unfolding server_try_post_accept
  next-faulty fuel (allowed g) e = rw g refl
  next-faulty fuel faulty e = refl
  next-faulty fuel broken e = absurd (cc e)
  next-faulty fuel unfinished e = absurd (cc e)

  -- A call of AcceptEx that fails with another error than 997 (pending) and 10054 (reset) makes
  -- the loop free the client and go on with it: where the freeing comes to its end, the next
  -- round reads the freed structure.
  pub try_post-frees :
      (fuel e : ℕ) (s t : Service)
      → s.kernel.answers s.kernel.calls ≡ failed e
      → e ≢ wsa_io_pending
      → e ≢ wsaeconnreset
      → server_cleanup_client_data a (record s { kernel = (ask s.kernel).1 }) ≡ ok t
      → server_try_post_accept (suc (suc fuel)) a s ≡ use_after_free
  unfolding server_try_post_accept server_post_acceptex_with_client ask
  try_post-frees fuel e s t h p q cleaned = elim (Option-cases (s.store a)) [
    | inl f ↦ rw f refl
    | inr (c, f) ↦
        rw (f, h, ne→==_false e wsa_io_pending p, ne→==_false e wsaeconnreset q)
          (next-faulty fuel (cleanup-gone (record s { kernel = (ask s.kernel).1 })) cleaned)
  ]
