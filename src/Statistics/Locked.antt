-- ===== src/Statistics/Locked.antt =====
-- The lock of `struct server_stats` and the calls of the threads.
mod Finish
use aio_server.Base.{
  ℕ, ◌+◌, ◌%◌, ◌≢◌, ◌⊎◌, ◌≡◌, refl, false, some, List, [], ◌∷◌, ◌==◌, if◌then◌else◌, inl, inr,
  Bool-cases, ==_iff, arith, sym, subst, ◌∙◌, ap,
}
use aio_server.Atomic.{word_mod}
use aio_server.Lock.{OsLock, unowned, owned, LockApi}
use aio_server.Statistics.{
  ServerStats, stats_add_connection, stats_del_connection, stats_transfer_success, stats_other,
  word_increment, word_decrement, signed_ltb, server_update_stats,
}
use aio_server.Statistics.Dump.{dumped_text, server_dump_stats}
use aio_server.Statistics.Locked.Finish.{finish, finish-advance, finish-start}
use aio_server.Statistics.Threads.{
  Shared, Point, at_switch, total_read, total_written, concurrent_read, at_test, peak_read,
  exceeded, greater_read, lowering_concurrent, concurrent_lowered, lowering_total, bytes_read,
  at_dump, dump_total_read, dump_peak_read, dump_bytes_read, leaving, advance, StatsCall, update,
  dump, start, Place, outside, acquiring, inside, System, put, system_initial, entered, accessed,
  left, Move, call, acquire, access, Run, ready, moved, gave_back, effect, after,
}

abbrev pub IsInside : Place → Type 0
IsInside q = (c : StatsCall) × (p : Point) × (q ≡ inside c p)

-- Only the thread that has the lock is inside, once, and what it has left to do completes its call.
pub record IsLocked (cs : List StatsCall) (t : System) : Type 0 where
  pub free : t.ss_stats_lock ≡ unowned → t.shared ≡ after cs
  pub owner : (i n : ℕ) → t.ss_stats_lock ≡ owned i n → (n ≡ 0) × IsInside (t.place i)
  pub only :
      (i : ℕ) (c : StatsCall) (p : Point) → t.place i ≡ inside c p → t.ss_stats_lock ≡ owned i 0
  pub owed :
      (i : ℕ) (c : StatsCall) (p : Point)
      → t.place i ≡ inside c p
      → finish p t.shared ≡ effect c (after cs)

placed :
    (i j : ℕ) (q r : Place) (f : ℕ → Place)
    → (if j == i then q else f j) ≡ r
    → ((j ≡ i) × (q ≡ r)) ⊎ ((j ≢ i) × (f j ≡ r))
placed i j q r f e = elim (Bool-cases (j == i)) [
  | inl same ↦ inl ((==_iff j i).0 same, ground arith)
  | inr other ↦ inr (λ eq. ground arith, ground arith)
]

-- A thread that is not inside moves to another place outside.
waits-IsLocked :
    {cs : List StatsCall} {t : System} (i : ℕ) (q : Place)
    → ¬ IsInside (t.place i)
    → ¬ IsInside q
    → IsLocked cs t
    → IsLocked cs (put i q t)
waits-IsLocked {cs} {t} i q was will h = record {
  free = h.free;
  owner = λ j n e. ((h.owner j n e).0, kept j (h.owner j n e).1);
  only = λ j c p e. h.only j c p (back j c p e);
  owed = λ j c p e. h.owed j c p (back j c p e);
}
  where
    kept : (j : ℕ) → IsInside (t.place j) → IsInside (if j == i then q else t.place j)
    kept j (c, p, e) = elim (Bool-cases (j == i)) [
      | inl same ↦ absurd (was (c, p, ap t.place (sym ((==_iff j i).0 same)) ∙ e))
      | inr other ↦ (c, p, ground arith)
    ]

    back :
        (j : ℕ) (c : StatsCall) (p : Point)
        → (if j == i then q else t.place j) ≡ inside c p
        → t.place j ≡ inside c p
    back j c p e = elim (placed i j q (inside c p) t.place e) [
      | inl (same, eq) ↦ absurd (will (c, p, eq))
      | inr (other, eq) ↦ eq
    ]

differ : (u i : ℕ) → u ≡ i → (u == i) ≡ false → ⊥
differ u i same other = ground arith

entered-IsLocked :
    {cs : List StatsCall} {t : System} (i : ℕ) (c : StatsCall)
    → t.ss_stats_lock ≡ unowned
    → IsLocked cs t
    → IsLocked cs (entered i c (owned i 0) t)
entered-IsLocked {cs} {t} i c no_owner h = record {
  free = λ e. cc e;
  owner = λ j n e. (cc e, (c, start c, ground (arith, e)));
  only = λ j c' p e. elim (placed i j (inside c (start c)) (inside c' p) t.place e) [
    | inl (same, eq) ↦ cc same
    | inr (other, eq) ↦ cc (no_owner, h.only j c' p eq)
  ];
  owed = λ j c' p e. elim (placed i j (inside c (start c)) (inside c' p) t.place e) [
    | inl (same, eq) ↦ cc (finish-start c t.shared, h.free no_owner, eq)
    | inr (other, eq) ↦ cc (no_owner, h.only j c' p eq)
  ];
}

one_owner : {l : OsLock} {i j : ℕ} → l ≡ owned i 0 → l ≡ owned j 0 → j ≡ i
one_owner e f = cc (e, f)

accessed-IsLocked :
    {cs : List StatsCall} {t : System} (i : ℕ) (c : StatsCall) (p : Point)
    → t.place i ≡ inside c p
    → IsLocked cs t
    → IsLocked cs (accessed i c (advance p t.shared) t)
accessed-IsLocked {cs} {t} i c p at h = record {
  free = λ e. cc (h.only i c p at, e);
  owner =
      λ j n e. ((h.owner j n e).0, (c, (advance p t.shared).0, ground (arith, h.only i c p at, e)));
  only = λ j c' p' e. elim (placed i j (inside c (advance p t.shared).0) (inside c' p') t.place e) [
    | inl (same, eq) ↦ cc (same, h.only i c p at)
    | inr (other, eq) ↦ h.only j c' p' eq
  ];
  owed = λ j c' p' e. elim (placed i j (inside c (advance p t.shared).0) (inside c' p') t.place e) [
    | inl (same, eq) ↦ cc (finish-advance p t.shared, h.owed i c p at, eq)
    | inr (other, eq) ↦ absurd (other (one_owner (h.only i c p at) (h.only j c' p' eq)))
  ];
}

module _ (api : LockApi) where
  lock_acquire-cases :
      (i : ℕ) (l : OsLock) {l' : OsLock}
      → api.lock_acquire i l ≡ some l'
      → ((l ≡ unowned) × (l' ≡ owned i 0)) ⊎ ((n : ℕ) × (l ≡ owned i n))
  lock_acquire-cases i unowned e = inl (refl, cc (api.acquire_unowned i, e))
  lock_acquire-cases i (owned u n) e = elim (Bool-cases (u == i)) [
    | inl same ↦ inr (n, ap (λ v. owned v n) ((==_iff u i).0 same))
    | inr other ↦ absurd (cc (api.acquire_waits i u n (λ same. differ u i same other), e))
  ]

  pub lock_release-owned : (i : ℕ) (l : OsLock) → l ≡ owned i 0 → api.lock_release l ≡ unowned
  lock_release-owned i l e = ap api.lock_release e ∙ api.release_once i

  -- When the owner leaves, no thread is inside.
  nobody :
      {cs : List StatsCall} {t : System} (i : ℕ) (c : StatsCall)
      → t.place i ≡ inside c leaving
      → IsLocked cs t
      → (j : ℕ) (c' : StatsCall) (p : Point) → (left api i t).place j ≡ inside c' p
      → ⊥
  nobody {cs} {t} i c at h j c' p e = elim (placed i j outside (inside c' p) t.place e) [
    | inl (same, eq) ↦ cc eq
    | inr (other, eq) ↦ other (one_owner (h.only i c leaving at) (h.only j c' p eq))
  ]

  left-IsLocked :
      {cs : List StatsCall} {t : System} (i : ℕ) (c : StatsCall)
      → t.place i ≡ inside c leaving
      → IsLocked cs t
      → IsLocked (c ∷ cs) (left api i t)
  unfolding after
  left-IsLocked {cs} {t} i c at h =
      let open_now = lock_release-owned i t.ss_stats_lock (h.only i c leaving at) in
      record {
        free = λ e. h.owed i c leaving at;
        owner = λ j n e. cc (open_now, e);
        only = λ j c' p e. absurd (nobody i c at h j c' p e);
        owed = λ j c' p e. absurd (nobody i c at h j c' p e);
      }

  Move-IsLocked :
      {cs : List StatsCall} {t u : System} → Move api t u → IsLocked cs t → IsLocked cs u
  Move-IsLocked {cs} {t} (call i c at) h =
      waits-IsLocked i (acquiring c) (λ w. cc (at, w.2)) (λ w. cc w.2) h
  Move-IsLocked {cs} {t} (acquire i c l at got) h =
      elim (lock_acquire-cases i t.ss_stats_lock got) [
        | inl (was, now) ↦
            subst (λ l'. IsLocked cs (entered i c l' t)) (sym now) (entered-IsLocked i c was h)
        | inr (n, mine) ↦ let (z, (c', p, inner)) = h.owner i n mine in cc (at, inner)
      ]
  Move-IsLocked (access i c p at) h = accessed-IsLocked i c p at h

  initial-IsLocked : IsLocked [] system_initial
  unfolding after
  initial-IsLocked = record {
    free = λ e. refl;
    owner = λ i n e. cc e;
    only = λ i c p e. cc e;
    owed = λ i c p e. cc e;
  }

  -- In every run
  pub Run-IsLocked : {cs : List StatsCall} {t : System} → Run api cs t → IsLocked cs t
  Run-IsLocked ready = initial-IsLocked
  Run-IsLocked (moved r m) = Move-IsLocked m (Run-IsLocked r)
  Run-IsLocked (gave_back i c r at) = left-IsLocked i c at (Run-IsLocked r)

  -- In every interleaving of the accesses of any number of threads that call server_update_stats
  -- and STATS_DUMP, whenever no thread has the lock the counters and the printed texts are those
  -- of the same calls made one after the other, in the order in which they left the lock.
  pub Run-serial :
      {cs : List StatsCall} {t : System}
      → Run api cs t
      → t.ss_stats_lock ≡ unowned
      → t.shared ≡ after cs
  Run-serial r e = (Run-IsLocked r).free e
