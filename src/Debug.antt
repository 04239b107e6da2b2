-- ===== src/Debug.antt =====
-- base/debug_helpers_linux.c: what the program writes to its standard error, in the order of the
-- calls. A text that a format gives is an argument, as a list of bytes.
pub mod Bounds
mod Tests
pub mod Windows
use aio_server.Base.{ℕ, List, [], ◌∷◌, ◌++◌}
use aio_server.Printf.{codes, Piece, string, signed, hex, formatted}
use aio_server.Printf.Buffer.{Printed, printed, ◌>>◌, snprintf, write_bytes}

abbrev pub stk_trace_hdr : List ℕ
stk_trace_hdr = codes "\n++++++++++++++++++++ Stack trace begins ++++++++++++++++++++\n"

abbrev pub stk_trace_ftr : List ℕ
stk_trace_ftr = codes "\n++++++++++++++++++++ Stack trace ends ++++++++++++++++++++\n"

-- `trace` is what `backtrace_symbols_fd` writes.
unfoldable pub print_stack_trace : List ℕ → Printed
print_stack_trace trace = printed stk_trace_hdr >> printed trace >> printed stk_trace_ftr

abbrev pub position_format : List ℕ → ℕ → List Piece
position_format file line =
    string (codes "\nFile ") ∷ string file ∷ string (codes ", line ") ∷ signed line ∷ []

-- `buffer` is what `buff_msg` holds at the start.
unfoldable pub output_formatted_string_to_debugger : List ℕ → List ℕ → ℕ → List ℕ → Printed
output_formatted_string_to_debugger buffer file line message =
    let position = snprintf 1024 buffer (formatted (position_format file line)) in
    write_bytes position >> write_bytes (snprintf 1024 position.0 message) >> printed (10 ∷ [])

-- The macros of base/debug_helpers.h with `__DEBUG_ENABLED__`: what follows "error %d" is `descr`.
abbrev pub d_funcfail_format : List ℕ → ℕ → List ℕ → List Piece
d_funcfail_format funcname errcode descr =
    string (codes "Function ")
    ∷ string funcname
    ∷ string (codes " failed, error ")
    ∷ signed errcode
    ∷ string descr
    ∷ []

unfoldable pub d_funcfail : List ℕ → List ℕ → ℕ → List ℕ → ℕ → List ℕ → Printed
d_funcfail buffer file line funcname errcode descr =
    output_formatted_string_to_debugger buffer file line
      (formatted (d_funcfail_format funcname errcode descr))

unfoldable pub d_funcfail_errno : List ℕ → List ℕ → ℕ → List ℕ → ℕ → Printed
unfolding d_funcfail
d_funcfail_errno buffer file line funcname errno = d_funcfail buffer file line funcname errno []

-- The fields of the signal and of the context that the handler prints.
pub record Fault : Type 0 where
  pub si_addr : ℕ
  pub si_errno : ℕ
  pub reg_eip : ℕ
  pub reg_eax : ℕ
  pub reg_ebx : ℕ
  pub reg_ecx : ℕ
  pub reg_edx : ℕ
  pub reg_ebp : ℕ
  pub reg_esp : ℕ

abbrev pub fault_format : Fault → List Piece
fault_format f =
    string (codes "\nSIGSEGV received, faulting address ")
    ∷ hex f.si_addr
    ∷ string (codes ", errno ")
    ∷ signed f.si_errno
    ∷ string (codes "\nDumping registers :\neip = ")
    ∷ hex f.reg_eip
    ∷ string (codes "\neax = ")
    ∷ hex f.reg_eax
    ∷ string (codes "\nebx = ")
    ∷ hex f.reg_ebx
    ∷ string (codes "\necx = ")
    ∷ hex f.reg_ecx
    ∷ string (codes "\nedx = ")
    ∷ hex f.reg_edx
    ∷ string (codes "\nebp = ")
    ∷ hex f.reg_ebp
    ∷ string (codes "\nesp = ")
    ∷ hex f.reg_esp
    ∷ []

-- The handler leaves the program after what it prints.
unfoldable pub linux_sigsegv_handler : List ℕ → Fault → List ℕ → Printed
linux_sigsegv_handler buffer f trace =
    write_bytes (snprintf 1024 buffer (formatted (fault_format f))) >> print_stack_trace trace
