-- ===== src/Statistics/Threads.antt =====
-- base/statistics.h, base/statistics.c: threads that call `server_update_stats` and `STATS_DUMP` at
-- the same time, one access to the shared structure at a time.
use aio_server.Base.{ℕ, ◌+◌, ◌%◌, ◌≡◌, some, List, [], ◌∷◌, ◌==◌, if◌then◌else◌}
use aio_server.Atomic.{word_mod}
use aio_server.Lock.{OsLock, unowned, LockApi}
use aio_server.Statistics.{
  ServerStats, StatsType, stats_add_connection, stats_del_connection, stats_transfer_success,
  stats_other, stats_initial, word_increment, word_decrement, signed_ltb, server_update_stats,
}
use aio_server.Statistics.Dump.{dumped_text, server_dump_stats}

-- The counters, and the texts that were printed, latest first.
pub record Shared : Type 0 where
  pub stats : ServerStats
  pub console : List (List ℕ)

abbrev pub shared_initial : Shared
shared_initial = record { stats = stats_initial; console = [] }

-- Where a thread stands between `lock_acquire` and `lock_release`, with what it has read: the
-- `switch`, the cases of it in order, and the dump.
pub data Point : Type 0 where
  at_switch : StatsType → Point
  total_read : ℕ → Point
  total_written : Point
  concurrent_read : ℕ → Point
  at_test : Point
  peak_read : ℕ → Point
  exceeded : Point
  greater_read : ℕ → Point
  lowering_concurrent : ℕ → Point
  concurrent_lowered : Point
  lowering_total : ℕ → Point
  bytes_read : ℕ → ℕ → Point
  at_dump : Point
  dump_total_read : ℕ → Point
  dump_peak_read : ℕ → ℕ → Point
  dump_bytes_read : ℕ → ℕ → ℕ → Point
  leaving : Point

abbrev with_stats : ServerStats → Shared → Shared
with_stats s m = record m { stats = s }

-- The next access.
unfoldable pub advance : Point → Shared → Point × Shared
advance (at_switch stats_add_connection) m = (total_read m.stats.ss_total_connections, m)
advance (at_switch stats_del_connection) m =
    (lowering_concurrent m.stats.ss_concurrent_connections, m)
advance (at_switch (stats_transfer_success n)) m = (bytes_read n m.stats.ss_total_bytes, m)
advance (at_switch stats_other) m = (leaving, m)
advance (total_read n) m =
    (total_written, with_stats (record m.stats { ss_total_connections = word_increment n }) m)
advance total_written m = (concurrent_read m.stats.ss_concurrent_connections, m)
advance (concurrent_read n) m =
    (at_test, with_stats (record m.stats { ss_concurrent_connections = word_increment n }) m)
advance at_test m = (peak_read m.stats.ss_peak_connections, m)
advance (peak_read p) m =
    (if signed_ltb p m.stats.ss_concurrent_connections then exceeded else leaving, m)
advance exceeded m = (greater_read m.stats.ss_concurrent_connections, m)
advance (greater_read n) m = (leaving, with_stats (record m.stats { ss_peak_connections = n }) m)
advance (lowering_concurrent n) m = (
  concurrent_lowered,
  with_stats (record m.stats { ss_concurrent_connections = word_decrement n }) m,
)
advance concurrent_lowered m = (lowering_total m.stats.ss_total_connections, m)
advance (lowering_total n) m =
    (leaving, with_stats (record m.stats { ss_total_connections = word_decrement n }) m)
advance (bytes_read n b) m =
    (leaving, with_stats (record m.stats { ss_total_bytes = (b + n) % word_mod }) m)
advance at_dump m = (dump_total_read m.stats.ss_total_connections, m)
advance (dump_total_read t) m = (dump_peak_read t m.stats.ss_peak_connections, m)
advance (dump_peak_read t p) m = (dump_bytes_read t p m.stats.ss_total_bytes, m)
advance (dump_bytes_read t p b) m = (leaving, record m { console = dumped_text t p b ∷ m.console })
advance leaving m = (leaving, m)

-- A call of `server_update_stats`, or of `STATS_DUMP`.
pub data StatsCall : Type 0 where
  update : StatsType → StatsCall
  dump : StatsCall

abbrev pub start : StatsCall → Point
start (update e) = at_switch e
start dump = at_dump

pub data Place : Type 0 where
  outside : Place
  acquiring : StatsCall → Place
  inside : StatsCall → Point → Place

-- `struct server_stats` with its lock, and where each thread stands.
pub record System : Type 0 where
  pub ss_stats_lock : OsLock
  pub shared : Shared
  pub place : ℕ → Place

abbrev pub put : ℕ → Place → System → System
put i q t = record t { place = λ j. if j == i then q else t.place j }

-- `STATS_INITIALIZE`
abbrev pub system_initial : System
system_initial = record { ss_stats_lock = unowned; shared = shared_initial; place = λ j. outside }

abbrev pub entered : ℕ → StatsCall → OsLock → System → System
entered i c l t = record (put i (inside c (start c)) t) { ss_stats_lock = l }

abbrev pub accessed : ℕ → StatsCall → Point × Shared → System → System
accessed i c (p, m) t = record (put i (inside c p) t) { shared = m }

module _ (api : LockApi) where
  abbrev pub left : ℕ → System → System
  left i t = record (put i outside t) { ss_stats_lock = api.lock_release t.ss_stats_lock }

  -- A step of one thread: it calls, it gets the lock, or it makes its next access.
  pub data Move (t : System) : System → Type 0 where
    call : (i : ℕ) (c : StatsCall) → t.place i ≡ outside → Move t (put i (acquiring c) t)
    acquire :
        (i : ℕ) (c : StatsCall) (l : OsLock)
        → t.place i ≡ acquiring c
        → api.lock_acquire i t.ss_stats_lock ≡ some l
        → Move t (entered i c l t)
    access :
        (i : ℕ) (c : StatsCall) (p : Point)
        → t.place i ≡ inside c p
        → Move t (accessed i c (advance p t.shared) t)

  -- A run from the start, with the calls that have given the lock back, latest first.
  pub data Run : List StatsCall → System → Type 0 where
    ready : Run [] system_initial
    moved : {cs : List StatsCall} {t u : System} → Run cs t → Move t u → Run cs u
    gave_back :
        {cs : List StatsCall} {t : System} (i : ℕ) (c : StatsCall)
        → Run cs t
        → t.place i ≡ inside c leaving
        → Run (c ∷ cs) (left i t)

-- The same calls one after the other.
unfoldable pub effect : StatsCall → Shared → Shared
effect (update e) m = record m { stats = server_update_stats e m.stats }
effect dump m = record m { console = server_dump_stats m.stats ∷ m.console }

unfoldable pub after : List StatsCall → Shared
after [] = shared_initial
after (c ∷ cs) = effect c (after cs)
