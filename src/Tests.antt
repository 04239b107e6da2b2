-- ===== src/Tests.antt =====
-- The theorems on the files of base/ other than linked_list.c, at concrete inputs.
use aio_server.Base.{ℕ, ◌+◌, ◌<◌, ◌≡◌, none, some, List, [], ◌∷◌, arith, ltb, if◌then◌else◌}
use aio_server.Kernel.{Answer, done, failed}
use aio_server.Kernel.Eintr.{eintr, handle_eintr, handle_eintr-first}
use aio_server.Statistics.{
  StatsType, stats_add_connection, stats_del_connection, stats_transfer_success, stats_after,
  Counts, stats_after-Counts,
}
use aio_server.Allocator.{Counted, Call, alloc, free_block, internals_after, internals_after-counts}

-- Two attempts are interrupted.
abbrev attempt : ℕ → Answer
attempt i = if ltb i 2 then failed eintr else done 8

attempt-interrupted : (j : ℕ) → j < 2 → attempt (0 + j) ≡ failed eintr
attempt-interrupted j lt = ground arith

handle_eintr-first_example : handle_eintr attempt 3 0 ≡ some (done 8, 3)
handle_eintr-first_example =
    handle_eintr-first attempt 2 3 0 attempt-interrupted (λ e. cc e) (omega arith)

-- Two connections are opened, one of them sends and is closed. Latest first.
abbrev history : List StatsType
history =
    stats_del_connection
    ∷ stats_transfer_success 4000000000
    ∷ stats_add_connection
    ∷ stats_add_connection
    ∷ []

stats_after-Counts_example : Counts history (stats_after history)
stats_after-Counts_example =
    stats_after-Counts history (omega arith, (omega arith, (omega arith, (omega arith, tt))))
      (omega arith)

abbrev calls : List Call
calls = free_block (some 16) ∷ alloc 64 none ∷ alloc 64 (some 16) ∷ []

internals_after-counts_example : Counted calls (internals_after calls)
internals_after-counts_example = internals_after-counts calls
