-- ===== src/Statistics.antt =====
-- base/statistics.h, base/statistics.c: `server_update_stats`. The counters are 32-bit words; the
-- lock makes an update one step.
pub mod Dump
pub mod Locked
mod Tests
pub mod Threads
pub mod Waiting
use aio_server.Base.{
  ℕ, ◌+◌, ◌-◌, ◌%◌, ◌<◌, ◌≤◌, ◌≡◌, refl, Bool, ltb, if◌then◌else◌, List, [], ◌∷◌, arith,
}
use aio_server.Atomic.{word_mod}

pub record ServerStats : Type 0 where
  pub ss_total_connections : ℕ
  pub ss_concurrent_connections : ℕ
  pub ss_peak_connections : ℕ
  pub ss_total_bytes : ℕ

-- `kStatsType`, with the argument of the third; `stats_other` stands for every other value.
pub data StatsType : Type 0 where
  stats_add_connection stats_del_connection : StatsType
  stats_transfer_success : ℕ → StatsType
  stats_other : StatsType

abbrev pub stats_initial : ServerStats
stats_initial = record {
  ss_total_connections = 0;
  ss_concurrent_connections = 0;
  ss_peak_connections = 0;
  ss_total_bytes = 0;
}

abbrev pub word_increment : ℕ → ℕ
word_increment n = (n + 1) % word_mod

abbrev pub word_decrement : ℕ → ℕ
word_decrement n = (n + word_mod - 1) % word_mod

-- `<` on words read as signed numbers
abbrev pub signed_ltb : ℕ → ℕ → Bool
signed_ltb m n = ltb ((m + 2147483648) % word_mod) ((n + 2147483648) % word_mod)

unfoldable pub server_update_stats : StatsType → ServerStats → ServerStats
server_update_stats stats_add_connection s =
    let concurrent = word_increment s.ss_concurrent_connections in
    record s {
      ss_total_connections = word_increment s.ss_total_connections;
      ss_concurrent_connections = concurrent;
      ss_peak_connections =
          if signed_ltb s.ss_peak_connections concurrent then concurrent else s.ss_peak_connections;
    }
server_update_stats stats_del_connection s = record s {
  ss_concurrent_connections = word_decrement s.ss_concurrent_connections;
  ss_total_connections = word_decrement s.ss_total_connections;
}
server_update_stats (stats_transfer_success n) s = record s {
  ss_total_bytes = (s.ss_total_bytes + n) % word_mod;
}
server_update_stats stats_other s = s

-- A history of updates, latest first.
unfoldable pub stats_after : List StatsType → ServerStats
stats_after [] = stats_initial
stats_after (e ∷ es) = server_update_stats e (stats_after es)

-- What the history says: connections opened and closed, bytes, and the most that were open.
abbrev pub opened : List StatsType → ℕ
opened [] = 0
opened (stats_add_connection ∷ es) = opened es + 1
opened (stats_del_connection ∷ es) = opened es
opened (stats_transfer_success n ∷ es) = opened es
opened (stats_other ∷ es) = opened es

abbrev pub closed : List StatsType → ℕ
closed [] = 0
closed (stats_add_connection ∷ es) = closed es
closed (stats_del_connection ∷ es) = closed es + 1
closed (stats_transfer_success n ∷ es) = closed es
closed (stats_other ∷ es) = closed es

abbrev pub transferred : List StatsType → ℕ
transferred [] = 0
transferred (stats_add_connection ∷ es) = transferred es
transferred (stats_del_connection ∷ es) = transferred es
transferred (stats_transfer_success n ∷ es) = transferred es + n
transferred (stats_other ∷ es) = transferred es

abbrev greater : ℕ → ℕ → ℕ
greater m n = if ltb m n then n else m

abbrev pub most_open : List StatsType → ℕ
most_open [] = 0
most_open (e ∷ es) = greater (most_open es) (opened (e ∷ es) - closed (e ∷ es))

-- At no time were more connections closed than opened.
abbrev pub IsBalanced : List StatsType → Type 0
IsBalanced [] = Unit
IsBalanced (e ∷ es) = (closed (e ∷ es) ≤ opened (e ∷ es)) × IsBalanced es

-- The counters after a history with fewer than 2^31 connections.
pub record Counts (es : List StatsType) (s : ServerStats) : Type 0 where
  pub total : s.ss_total_connections ≡ opened es - closed es
  pub concurrent : s.ss_concurrent_connections ≡ opened es - closed es
  pub peak : s.ss_peak_connections ≡ most_open es
  pub bytes : s.ss_total_bytes ≡ transferred es % word_mod

pub most_open-bounds : (es : List StatsType) → most_open es ≤ opened es
most_open-bounds [] = omega arith
most_open-bounds (stats_add_connection ∷ es) = ground (arith, most_open-bounds es)
most_open-bounds (stats_del_connection ∷ es) = ground (arith, most_open-bounds es)
most_open-bounds (stats_transfer_success n ∷ es) = ground (arith, most_open-bounds es)
most_open-bounds (stats_other ∷ es) = ground (arith, most_open-bounds es)

open_now : (es : List StatsType) → opened es - closed es ≤ most_open es
open_now [] = omega arith
open_now (e ∷ es) = ground arith

IsBalanced-now : (es : List StatsType) → IsBalanced es → closed es ≤ opened es
IsBalanced-now [] balanced = omega arith
IsBalanced-now (e ∷ es) (le, balanced) = le

-- After a history with fewer than 2^31 new connections, in which at no time more connections were
-- closed than opened, the concurrent and the total count are both the number of open connections,
-- the peak is the most that were open at a time, and the bytes are the sum modulo 2^32.
pub stats_after-Counts :
    (es : List StatsType) → IsBalanced es → opened es < 2147483648 → Counts es (stats_after es)
unfolding stats_after server_update_stats
stats_after-Counts [] balanced small = record {
  total = refl;
  concurrent = refl;
  peak = refl;
  bytes = refl;
}
stats_after-Counts (stats_add_connection ∷ es) (le, balanced) small =
    let c = stats_after-Counts es balanced (omega arith) in
    let b = IsBalanced-now es balanced in
    record {
      total = omega (arith, c.total, b);
      concurrent = omega (arith, c.concurrent, b);
      peak = ground (arith, c.peak, c.concurrent, most_open-bounds es, b);
      bytes = c.bytes;
    }
stats_after-Counts (stats_del_connection ∷ es) (le, balanced) small =
    let c = stats_after-Counts es balanced (omega arith) in
    let b = IsBalanced-now es balanced in
    record {
      total = omega (arith, c.total, b);
      concurrent = omega (arith, c.concurrent, b);
      peak = ground (arith, c.peak, open_now es);
      bytes = c.bytes;
    }
stats_after-Counts (stats_transfer_success n ∷ es) (le, balanced) small =
    let c = stats_after-Counts es balanced (omega arith) in
    record {
      total = c.total;
      concurrent = c.concurrent;
      peak = ground (arith, c.peak, open_now es);
      bytes = omega (arith, c.bytes);
    }
stats_after-Counts (stats_other ∷ es) (le, balanced) small =
    let c = stats_after-Counts es balanced (omega arith) in
    record {
      total = c.total;
      concurrent = c.concurrent;
      peak = ground (arith, c.peak, open_now es);
      bytes = c.bytes;
    }
