-- ===== src/Statistics/Tests.antt =====
-- The theorems on the threads that update the statistics, at a run in which one thread waits for
-- another.
use aio_server.Base.{◌≡◌, refl, List, [], ◌∷◌}
use aio_server.Lock.{unowned, owned, critical_section}
use aio_server.Statistics.{stats_transfer_success}
use aio_server.Statistics.Locked.{Run-serial}
use aio_server.Statistics.Threads.{
  at_switch, bytes_read, advance, StatsCall, update, dump, acquiring, System, put, system_initial,
  outside, entered, accessed, left, call, acquire, access, Run, ready, moved, gave_back, after,
}
use aio_server.Statistics.Waiting.{Onward, Behind, acquiring-served}

abbrev transfer : StatsCall
transfer = update (stats_transfer_success 5)

-- Thread 1 is about to write its sum, and thread 2 waits for the lock.
abbrev both_called : System
both_called = put 2 (acquiring dump) (put 1 (acquiring transfer) system_initial)

abbrev first_inside : System
first_inside = entered 1 transfer (owned 1 0) both_called

abbrev sum_read : System
sum_read =
    accessed 1 transfer (advance (at_switch (stats_transfer_success 5)) first_inside.shared)
      first_inside

abbrev sum_written : System
sum_written = accessed 1 transfer (advance (bytes_read 5 0) sum_read.shared) sum_read

sum_read-Run : Run critical_section [] sum_read
sum_read-Run =
    moved
      (moved (moved (moved ready (call 1 transfer refl)) (call 2 dump refl))
        (acquire 1 transfer (owned 1 0) refl refl))
      (access 1 transfer (at_switch (stats_transfer_success 5)) refl)

first_left-Run : Run critical_section (transfer ∷ []) (left critical_section 1 sum_written)
unfolding advance
first_left-Run =
    gave_back 1 transfer (moved sum_read-Run (access 1 transfer (bytes_read 5 0) refl)) refl

first_left-unowned : (left critical_section 1 sum_written).ss_stats_lock ≡ unowned
first_left-unowned = refl

Run-serial_example : (left critical_section 1 sum_written).shared ≡ after (transfer ∷ [])
Run-serial_example = Run-serial critical_section first_left-Run first_left-unowned

acquiring-served_example :
    (ds : List StatsCall) × (u : System) × Onward critical_section [] sum_read (dump ∷ ds) u
    × (u.place 2 ≡ outside)
    × (u.ss_stats_lock ≡ unowned)
    × Behind [] ds
acquiring-served_example = acquiring-served critical_section 2 dump sum_read-Run refl
