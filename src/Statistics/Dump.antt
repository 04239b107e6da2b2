-- ===== src/Statistics/Dump.antt =====
-- base/statistics.c: `server_dump_stats` as it is on Windows; on Linux it does nothing.
use aio_server.Base.{ℕ, ◌≡◌, List, [], ◌∷◌, arith, take, take-eq_of_le}
use aio_server.Printf.{codes, Piece, string, signed, formatted, length-formatted}
use aio_server.Statistics.{ServerStats}

-- The format with the total, the peak and the bytes.
abbrev pub stats_format : ℕ → ℕ → ℕ → List Piece
stats_format total peak bytes =
    string (codes "\nTotal connections ")
    ∷ signed total
    ∷ string (codes "\nMaximum simultaneous connections ")
    ∷ signed peak
    ∷ string (codes "\nTotal bytes transferred ")
    ∷ signed bytes
    ∷ []

-- `_snprintf_s` stores 1023 bytes at most, and `WriteFile` has what is stored.
unfoldable pub dumped_text : ℕ → ℕ → ℕ → List ℕ
dumped_text total peak bytes = take 1023 (formatted (stats_format total peak bytes))

unfoldable pub server_dump_stats : ServerStats → List ℕ
server_dump_stats s = dumped_text s.ss_total_connections s.ss_peak_connections s.ss_total_bytes

-- `dumped_text` is the whole text
pub dumped_text-whole :
    (total peak bytes : ℕ)
    → dumped_text total peak bytes ≡ formatted (stats_format total peak bytes)
unfolding dumped_text
dumped_text-whole total peak bytes =
    take-eq_of_le 1023 _ (omega (arith, length-formatted (stats_format total peak bytes)))
