-- ===== src/Allocator/Dump.antt =====
-- base/allocator.c: `default_stats_dumper` on Linux and on Windows.
use aio_server.Base.{
  ℕ, ◌+◌, ◌%◌, ◌≡◌, refl, ◌↔◌, Option, none, some, List, [], ◌∷◌, length, arith, ◌==◌,
  if◌then◌else◌, ℤ, pos, negsuc,
}
use aio_server.Allocator.{AllocatorInternals}
use aio_server.Atomic.{word_mod, atomic32_load}
use aio_server.Kernel.{Answer, done, failed}
use aio_server.Printf.{codes, Piece, string, signed, formatted, length-formatted}
use aio_server.Printf.Buffer.{
  Printed, printed, snprintf, write_bytes, write_bytes-whole, snprintf-result, CchPrintf,
}

abbrev pub dump_format : ℕ → ℕ → List Piece
dump_format commits releases =
    string (codes "\nTotal operations ")
    ∷ signed ((commits + releases) % word_mod)
    ∷ string (codes "\nAllocations ")
    ∷ signed commits
    ∷ string (codes "\nReleases")
    ∷ signed releases
    ∷ string (codes "\n")
    ∷ []

-- `bytes_out == (ssize_t) bytecount`
abbrev pub all_written : ℕ → Answer → ℤ
all_written count (done n) = if n == count then pos 1 else pos 0
all_written count (failed e) = pos 0

-- The text of the two counters, which are loaded one after the other, in a buffer of 1024 bytes;
-- what `write` gets, and the result by its answer.
unfoldable pub dumped : List ℕ → ℕ → ℕ → Answer → Printed × ℤ
dumped buffer commits releases answer =
    let buff_stats = snprintf 1024 buffer (formatted (dump_format commits releases)) in
    (write_bytes buff_stats, all_written buff_stats.1 answer)

-- `a` is what the counters are at the first load, and `b` at the second.
unfoldable pub default_stats_dumper :
    List ℕ → AllocatorInternals → AllocatorInternals → Answer → Printed × ℤ
default_stats_dumper buffer a b answer =
    dumped buffer (atomic32_load a.ai_total_commits) (atomic32_load b.ai_total_releases) answer

abbrev pub dump_format_windows : ℕ → ℕ → List Piece
dump_format_windows commits releases =
    string (codes "\nTotal operations: ")
    ∷ signed ((commits + releases) % word_mod)
    ∷ string (codes "\nAllocations: ")
    ∷ signed commits
    ∷ string (codes "\nReleases: ")
    ∷ signed releases
    ∷ string (codes "\n")
    ∷ []

-- `WriteFile`; `none` is a text that is not written, with -1 for the result.
abbrev pub dumped_windows : Option (List ℕ) → Answer → Option (List ℕ) × ℤ
dumped_windows none answer = (none, negsuc 0)
dumped_windows (some t) answer = (some t, all_written (length t) answer)

all_written_iff : (n : ℕ) (answer : Answer) → (all_written n answer ≡ pos 1) ↔ (answer ≡ done n)
all_written_iff n (done m) = (λ e. ground arith, λ e. ground arith)
all_written_iff n (failed x) = (λ e. absurd (cc e), λ e. absurd (cc e))

-- default_stats_dumper on Linux, whatever the counters are at its two loads, hands the whole text
-- to write, and returns 1 if and only if write wrote all of it.
pub dumper-whole :
    (buffer : List ℕ) (a b : AllocatorInternals) (answer : Answer)
    → length buffer ≡ 1024
    → let text = formatted (dump_format a.ai_total_commits b.ai_total_releases) in
      let (given, result) = default_stats_dumper buffer a b answer in
      (given ≡ printed text) × ((result ≡ pos 1) ↔ (answer ≡ done (length text)))
unfolding default_stats_dumper dumped atomic32_load
dumper-whole buffer a b answer sized =
    let f = dump_format a.ai_total_commits b.ai_total_releases in
    (
      write_bytes-whole 1024 buffer (formatted f) sized (omega (arith, length-formatted f)),
      rw (snprintf-result 1024 buffer (formatted f))
          (all_written_iff (length (formatted f)) answer),
    )

module _ (api : CchPrintf) where
  unfoldable pub default_stats_dumper_windows :
      AllocatorInternals → AllocatorInternals → Answer → Option (List ℕ) × ℤ
  default_stats_dumper_windows a b answer =
      let commits = atomic32_load a.ai_total_commits in
      let releases = atomic32_load b.ai_total_releases in
      dumped_windows (api.string_cch_printf 1024 (formatted (dump_format_windows commits releases)))
        answer

  -- X
  pub dumper_windows-whole :
      (a b : AllocatorInternals) (answer : Answer)
      → let text = formatted (dump_format_windows a.ai_total_commits b.ai_total_releases) in
        let (given, result) = default_stats_dumper_windows a b answer in
        (given ≡ some text) × ((result ≡ pos 1) ↔ (answer ≡ done (length text)))
  unfolding default_stats_dumper_windows atomic32_load
  dumper_windows-whole a b answer =
      let f = dump_format_windows a.ai_total_commits b.ai_total_releases in
      rw (api.fits 1024 (formatted f) (omega (arith, length-formatted f)))
        (refl, all_written_iff (length (formatted f)) answer)
