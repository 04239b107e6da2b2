-- ===== src/Debug/Windows.antt =====
-- base/debug_helpers_win.c: the texts for a debugger, the stack trace and the minidump.
use aio_server.Base.{
  ℕ, ◌≡◌, Bool, Option, none, some, List, [], ◌∷◌, ◌++◌, if◌then◌else◌, inl, inr, arith,
}
use aio_server.Kernel.{descriptor, resource, Kernel, Sys, pure, ◌>>=◌, ask, acquire, release}
use aio_server.Kernel.Owns.{IsOwning, acquire-cases, ask-IsOwning, release-IsOwning}
use aio_server.Printf.Buffer.{CchPrintf}
use aio_server.Printf.{codes, Piece, string, signed, hex_64, padded, formatted, length-formatted}

abbrev pub position_format : List ℕ → ℕ → List Piece
position_format file line =
    string (codes "\nFile ")
    ∷ string file
    ∷ string (codes ", line ")
    ∷ signed line
    ∷ string (codes " ")
    ∷ []

abbrev pub user_data : Option (List ℕ) → List (List ℕ)
user_data none = codes "error displaying user data." ∷ []
user_data (some message) = message ∷ (10 ∷ []) ∷ []

module _ (api : CchPrintf) where
  abbrev pub position_data : List ℕ → Option (List ℕ) → List (List ℕ)
  position_data message none = []
  position_data message (some position) = position ∷ user_data (api.string_cch_printf 1024 message)

  -- The strings that `OutputDebugString` is called with, in order.
  unfoldable pub output_formatted_string_to_debugger : List ℕ → ℕ → List ℕ → List (List ℕ)
  output_formatted_string_to_debugger file line message =
      position_data message (api.string_cch_printf 1024 (formatted (position_format file line)))

-- A frame as `StackWalk64` and the functions on symbols give it: whether a module is found for it,
-- its stack address, the name and the displacement of its symbol, and the file, the line and the
-- displacement of its source line.
pub record Frame : Type 0 where
  pub has_module : Bool
  pub addr_stack : ℕ
  pub symbol : Option (List ℕ × ℕ)
  pub source_line : Option (List ℕ × ℕ × ℕ)

abbrev pub trace_format : ℕ → ℕ → List ℕ → List ℕ → ℕ → ℕ → List Piece
trace_format stack disp name file line line_disp =
    hex_64 stack
    ∷ string (codes " + ")
    ∷ hex_64 disp
    ∷ string (codes " ")
    ∷ string name
    ∷ string (codes " ")
    ∷ string file
    ∷ string (codes " ")
    ∷ signed line
    ∷ string (codes " + ")
    ∷ signed line_disp
    ∷ string (10 ∷ [])
    ∷ []

abbrev pub no_line : List ℕ
no_line = codes "file and line info not available"

abbrev pub symbol_format : Frame → Option (List ℕ × ℕ) → Option (List ℕ × ℕ × ℕ) → List Piece
symbol_format f none l =
    trace_format f.addr_stack 0 (codes "function name not available") no_line 0 0
symbol_format f (some (name, disp)) none = trace_format f.addr_stack disp name no_line 0 0
symbol_format f (some (name, disp)) (some (file, line, line_disp)) =
    trace_format f.addr_stack disp name file line line_disp

abbrev pub frame_text : Frame → List ℕ
frame_text f = if f.has_module then formatted (symbol_format f f.symbol f.source_line) else []

-- The loop over the frames, up to the one that has no frame address or fails.
unfoldable pub trace_text : List Frame → List ℕ
trace_text [] = []
trace_text (f ∷ fs) = frame_text f ++ trace_text fs

-- What is written to the standard output; nothing where `SymInitialize` fails.
unfoldable pub print_stack_trace : Bool → List Frame → List ℕ
print_stack_trace initialized frames =
    if initialized
    then codes "\n+++++++++++++++ Stack trace begins +++++++++++++++\n\n"
      ++ trace_text frames
      ++ codes "\n+++++++++++++++ Stack trace ends +++++++++++++++"
    else []

-- `SYSTEMTIME`
pub record SystemTime : Type 0 where
  pub w_year : ℕ
  pub w_month : ℕ
  pub w_day : ℕ
  pub w_hour : ℕ
  pub w_minute : ℕ
  pub w_second : ℕ

abbrev pub dump_file_name_format : SystemTime → List Piece
dump_file_name_format t =
    string (codes "aio_server_minidump_")
    ∷ padded 4 t.w_year
    ∷ string (codes "_")
    ∷ padded 2 t.w_month
    ∷ string (codes "_")
    ∷ padded 2 t.w_day
    ∷ string (codes "_")
    ∷ padded 2 t.w_hour
    ∷ string (codes "_")
    ∷ padded 2 t.w_minute
    ∷ string (codes "_")
    ∷ padded 2 t.w_second
    ∷ string (codes ".mdmp")
    ∷ []

-- `MiniDumpWriteDump`, whose result is not looked at, and the end of the filter.
abbrev pub write_dump : Option ℕ → Sys (Unit {0})
write_dump none = pure tt
write_dump (some n) = ask >>= λ answer. release (resource descriptor n)

-- The dump file is created under a name of at most 260 characters.
abbrev pub create_dump : Option (List ℕ) → Sys (Unit {0})
create_dump none = pure tt
create_dump (some name) = acquire descriptor >>= write_dump

write_dump-IsOwning : (k : Kernel) → IsOwning k ((acquire descriptor >>= write_dump) k).1 []
write_dump-IsOwning k = elim (acquire-cases descriptor k) [
  | inl (g, e, o) ↦ rw e o
  | inr (n, g, e, o) ↦ rw e (release-IsOwning (resource descriptor n) (ask-IsOwning o))
]

module _ (api : CchPrintf) where
  unfoldable pub aio_srv_unhandled_exceptions_filter : SystemTime → Sys (Unit {0})
  aio_srv_unhandled_exceptions_filter t =
      create_dump (api.string_cch_printf 261 (formatted (dump_file_name_format t)))

  -- The name of the dump file always fits.
  dump_file_name-fits :
      (t : SystemTime)
      → api.string_cch_printf 261 (formatted (dump_file_name_format t))
        ≡ some (formatted (dump_file_name_format t))
  dump_file_name-fits t = api.fits 261 _ (omega (arith, length-formatted (dump_file_name_format t)))

  -- X
  pub filter-IsOwning :
      (t : SystemTime) (k : Kernel) → IsOwning k (aio_srv_unhandled_exceptions_filter t k).1 []
  unfolding aio_srv_unhandled_exceptions_filter
  filter-IsOwning t k = rw (dump_file_name-fits t) (write_dump-IsOwning k)
