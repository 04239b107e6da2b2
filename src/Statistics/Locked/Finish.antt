-- ===== src/Statistics/Locked/Finish.antt =====
-- What the section of server_update_stats or server_dump_stats has left to do, at each of its points.
use aio_server.Base.{ℕ, ◌+◌, ◌%◌, ◌≡◌, refl, List, ◌∷◌, if◌then◌else◌, arith}
use aio_server.Atomic.{word_mod}
use aio_server.Statistics.{
  ServerStats, stats_add_connection, stats_del_connection, stats_transfer_success, stats_other,
  word_increment, word_decrement, signed_ltb, server_update_stats,
}
use aio_server.Statistics.Dump.{dumped_text, server_dump_stats}
use aio_server.Statistics.Threads.{
  Shared, Point, at_switch, total_read, total_written, concurrent_read, at_test, peak_read,
  exceeded, greater_read, lowering_concurrent, concurrent_lowered, lowering_total, bytes_read,
  at_dump, dump_total_read, dump_peak_read, dump_bytes_read, leaving, advance, StatsCall, update,
  dump, start, effect,
}

-- What is left to do from a point, all at once.
abbrev pub compared : ℕ → ServerStats → ServerStats
compared p s =
    if signed_ltb p s.ss_concurrent_connections
    then record s { ss_peak_connections = s.ss_concurrent_connections }
    else s

abbrev pub raised : ℕ → ServerStats → ServerStats
raised n s =
    compared s.ss_peak_connections (record s { ss_concurrent_connections = word_increment n })

abbrev pub finish_stats : Point → ServerStats → ServerStats
finish_stats (at_switch e) s = server_update_stats e s
finish_stats (total_read n) s =
    raised s.ss_concurrent_connections (record s { ss_total_connections = word_increment n })
finish_stats total_written s = raised s.ss_concurrent_connections s
finish_stats (concurrent_read n) s = raised n s
finish_stats at_test s = compared s.ss_peak_connections s
finish_stats (peak_read p) s = compared p s
finish_stats exceeded s = record s { ss_peak_connections = s.ss_concurrent_connections }
finish_stats (greater_read n) s = record s { ss_peak_connections = n }
finish_stats (lowering_concurrent n) s = record s {
  ss_concurrent_connections = word_decrement n;
  ss_total_connections = word_decrement s.ss_total_connections;
}
finish_stats concurrent_lowered s = record s {
  ss_total_connections = word_decrement s.ss_total_connections;
}
finish_stats (lowering_total n) s = record s { ss_total_connections = word_decrement n }
finish_stats (bytes_read n b) s = record s { ss_total_bytes = (b + n) % word_mod }
finish_stats p s = s

abbrev pub finish_console : Point → Shared → List (List ℕ)
finish_console at_dump m = server_dump_stats m.stats ∷ m.console
finish_console (dump_total_read t) m =
    dumped_text t m.stats.ss_peak_connections m.stats.ss_total_bytes ∷ m.console
finish_console (dump_peak_read t p) m = dumped_text t p m.stats.ss_total_bytes ∷ m.console
finish_console (dump_bytes_read t p b) m = dumped_text t p b ∷ m.console
finish_console p m = m.console

abbrev pub finish : Point → Shared → Shared
finish p m = record { stats = finish_stats p m.stats; console = finish_console p m }

-- An access leaves what the section does as it is.
pub finish-advance : (p : Point) (m : Shared) → finish (advance p m).0 (advance p m).1 ≡ finish p m
unfolding advance server_update_stats server_dump_stats
finish-advance (at_switch stats_add_connection) m = ground arith
finish-advance (at_switch stats_del_connection) m = refl
finish-advance (at_switch (stats_transfer_success n)) m = refl
finish-advance (at_switch stats_other) m = refl
finish-advance (total_read n) m = refl
finish-advance total_written m = refl
finish-advance (concurrent_read n) m = refl
finish-advance at_test m = refl
finish-advance (peak_read p) m = ground arith
finish-advance exceeded m = refl
finish-advance (greater_read n) m = refl
finish-advance (lowering_concurrent n) m = refl
finish-advance concurrent_lowered m = refl
finish-advance (lowering_total n) m = refl
finish-advance (bytes_read n b) m = refl
finish-advance at_dump m = refl
finish-advance (dump_total_read t) m = refl
finish-advance (dump_peak_read t p) m = refl
finish-advance (dump_bytes_read t p b) m = refl
finish-advance leaving m = refl

pub finish-start : (c : StatsCall) (m : Shared) → finish (start c) m ≡ effect c m
unfolding effect
finish-start (update e) m = refl
finish-start dump m = refl
