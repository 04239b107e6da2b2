-- ===== src/Statistics/Waiting.antt =====
-- Threads that wait for the lock of `struct server_stats`.
use aio_server.Base.{
  ap, some, ℕ, zero, suc, ◌<◌, ◌≡◌, ◌≢◌, ◌⊎◌, refl, ◌∙◌, List, ◌∷◌, inl, inr, arith, ==_refl,
}
use aio_server.Lock.{OsLock, unowned, owned, LockApi}
use aio_server.Statistics.{
  stats_add_connection, stats_del_connection, stats_transfer_success, stats_other,
}
use aio_server.Statistics.Locked.{lock_release-owned, Run-IsLocked}
use aio_server.Statistics.Threads.{
  Shared, Point, at_switch, total_read, total_written, concurrent_read, at_test, peak_read,
  exceeded, greater_read, lowering_concurrent, concurrent_lowered, lowering_total, bytes_read,
  at_dump, dump_total_read, dump_peak_read, dump_bytes_read, leaving, advance, StatsCall, start,
  outside, acquiring, inside, System, Move, entered, left, acquire, access, Run, moved, gave_back,
}

-- The accesses that are left, at most.
accesses : Point → ℕ
accesses (at_switch e) = 8
accesses (total_read n) = 7
accesses total_written = 6
accesses (concurrent_read n) = 5
accesses at_test = 4
accesses (peak_read p) = 3
accesses exceeded = 2
accesses (greater_read n) = 1
accesses (lowering_concurrent n) = 3
accesses concurrent_lowered = 2
accesses (lowering_total n) = 1
accesses (bytes_read n b) = 1
accesses at_dump = 4
accesses (dump_total_read t) = 3
accesses (dump_peak_read t p) = 2
accesses (dump_bytes_read t p b) = 1
accesses leaving = 0

advance-accesses :
    (p : Point) (m : Shared) → (p ≡ leaving) ⊎ (accesses (advance p m).0 < accesses p)
unfolding accesses advance
advance-accesses (at_switch stats_add_connection) m = inr (omega arith)
advance-accesses (at_switch stats_del_connection) m = inr (omega arith)
advance-accesses (at_switch (stats_transfer_success n)) m = inr (omega arith)
advance-accesses (at_switch stats_other) m = inr (omega arith)
advance-accesses (peak_read p) m = inr (ground arith)
advance-accesses leaving m = inl refl
advance-accesses p m = inr (omega arith)

OsLock-cases : (l : OsLock) → (l ≡ unowned) ⊎ ((i : ℕ) × (n : ℕ) × (l ≡ owned i n))
OsLock-cases unowned = inl refl
OsLock-cases (owned i n) = inr (i, n, refl)

-- In front of a call that waits there is one other at most.
abbrev pub Behind : List StatsCall → List StatsCall → Type 0
Behind cs ds = (ds ≡ cs) ⊎ ((c : StatsCall) × (ds ≡ c ∷ cs))

module _ (api : LockApi) where
  -- A run on from `t`, where the calls `cs` have given the lock back, to `u`, where `ds` have.
  pub data Onward : List StatsCall → System → List StatsCall → System → Type 0 where
    here : {cs : List StatsCall} {t : System} → Onward cs t cs t
    moving :
        {cs ds : List StatsCall} {t u v : System}
        → Move api t u
        → Onward cs u ds v
        → Onward cs t ds v
    leaving_first :
        {cs ds : List StatsCall} {t v : System} (i : ℕ) (c : StatsCall)
        → t.place i ≡ inside c leaving
        → Onward (c ∷ cs) (left api i t) ds v
        → Onward cs t ds v

  Onward-trans :
      {cs ds es : List StatsCall} {t u v : System}
      → Onward cs t ds u
      → Onward ds u es v
      → Onward cs t es v
  Onward-trans here b = b
  Onward-trans (moving m a) b = moving m (Onward-trans a b)
  Onward-trans (leaving_first i c at a) b = leaving_first i c at (Onward-trans a b)

  Onward-Run :
      {cs ds : List StatsCall} {t u : System} → Onward cs t ds u → Run api cs t → Run api ds u
  Onward-Run here r = r
  Onward-Run (moving m a) r = Onward-Run a (moved r m)
  Onward-Run (leaving_first i c at a) r = Onward-Run a (gave_back i c r at)

  -- A run on from `t` in which the call `c` of thread `i` is done.
  record Done (i : ℕ) (c : StatsCall) (cs : List StatsCall) (t : System) : Type 0 where
    end : System
    onward : Onward cs t (c ∷ cs) end
    is_free : end.ss_stats_lock ≡ unowned
    is_outside : end.place i ≡ outside
    others : (j : ℕ) → j ≢ i → end.place j ≡ t.place j

  finishes :
      (fuel i : ℕ) (c : StatsCall) (p : Point) {cs : List StatsCall} {t : System}
      → accesses p < fuel
      → Run api cs t
      → t.place i ≡ inside c p
      → Done i c cs t
  finishes zero i c p lt r at = absurd (omega arith)
  finishes (suc fuel) i c p {cs} {t} lt r at = elim (advance-accesses p t.shared) [
    | inl e ↦
        let at_end : t.place i ≡ inside c leaving = cc (at, e) in
        record {
          end = left api i t;
          onward = leaving_first i c at_end here;
          is_free = lock_release-owned api i t.ss_stats_lock ((Run-IsLocked api r).only i c p at);
          is_outside = ground (arith, ==_refl i);
          others = λ j other. ground arith;
        }
    | inr fewer ↦
        let d =
          finishes fuel i c (advance p t.shared).0 (omega arith) (moved r (access i c p at))
            (ground arith) in
        record {
          end = d.end;
          onward = moving (access i c p at) d.onward;
          is_free = d.is_free;
          is_outside = d.is_outside;
          others = λ j other. d.others j other ∙ ground arith;
        }
  ]

  lock_acquire-unowned :
      (i : ℕ) (l : OsLock) → l ≡ unowned → api.lock_acquire i l ≡ some (owned i 0)
  lock_acquire-unowned i l e = ap (api.lock_acquire i) e ∙ api.acquire_unowned i

  enters :
      (i : ℕ) (c : StatsCall) {cs : List StatsCall} {t : System}
      → Run api cs t
      → t.place i ≡ acquiring c
      → t.ss_stats_lock ≡ unowned
      → Done i c cs t
  enters i c {cs} {t} r at no_owner =
      let u = entered i c (owned i 0) t in
      let entry = acquire i c (owned i 0) at (lock_acquire-unowned i t.ss_stats_lock no_owner) in
      let d =
        finishes (suc (accesses (start c))) i c (start c) {t = u} (omega arith) (moved r entry)
          (ground arith) in
      record {
        end = d.end;
        onward = moving entry d.onward;
        is_free = d.is_free;
        is_outside = d.is_outside;
        others = λ j other. d.others j other ∙ ground arith;
      }

  -- In every reachable state, a thread that waits for the lock of the statistics can be served:
  -- from that state there is a run on, in which at most one other call is done first, that ends
  -- with this thread's call done, the thread outside and the lock free.
  pub acquiring-served :
      (i : ℕ) (c : StatsCall) {cs : List StatsCall} {t : System}
      → Run api cs t
      → t.place i ≡ acquiring c
      → (ds : List StatsCall) × (u : System) × Onward cs t (c ∷ ds) u
        × (u.place i ≡ outside)
        × (u.ss_stats_lock ≡ unowned)
        × Behind cs ds
  acquiring-served i c {cs} {t} r at = elim (OsLock-cases t.ss_stats_lock) [
    | inl no_owner ↦
        let d = enters i c r at no_owner in (cs, d.end, d.onward, d.is_outside, d.is_free, inl refl)
    | inr (j, n, owner) ↦
        let (z, (c', p, inner)) = (Run-IsLocked api r).owner j n owner in
        let d = finishes (suc (accesses p)) j c' p (omega arith) r inner in
        let unmoved = d.others i (λ same. differ same inner) ∙ at in
        let e = enters i c (Onward-Run d.onward r) unmoved d.is_free in
        (c' ∷ cs, e.end, Onward-trans d.onward e.onward, e.is_outside, e.is_free, inr (c', refl))
  ]
    where
      differ : {j : ℕ} {c' : StatsCall} {p : Point} → i ≡ j → t.place j ≡ inside c' p → ⊥
      differ same inner = absurd (cc (ap t.place same, at, inner))
