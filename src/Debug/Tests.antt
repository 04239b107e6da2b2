-- ===== src/Debug/Tests.antt =====
-- The theorems on what is printed, at concrete inputs.
use aio_server.Base.{
  ℕ, zero, suc, ◌<◌, ◌≤◌, ◌≡◌, refl, ◌⊎◌, ◌↔◌, List, [], ◌∷◌, ◌++◌, length, arith, pos,
}
use aio_server.Allocator.{def_all_stats}
use aio_server.Allocator.Dump.{dump_format, default_stats_dumper, dumper-whole}
use aio_server.Debug.{
  position_format, output_formatted_string_to_debugger, Fault, fault_format, linux_sigsegv_handler,
  stk_trace_hdr, stk_trace_ftr,
}
use aio_server.Debug.Bounds.{output-cases, sigsegv-whole}
use aio_server.Kernel.{done}
use aio_server.Printf.{codes, digits, formatted, string, signed, hex, padded, hex_digits}
use aio_server.Printf.Buffer.{printed, over_read, shown}

-- A buffer of `n` bytes
bytes : ℕ → List ℕ
bytes zero = []
bytes (suc n) = 0 ∷ bytes n

length-bytes : (n : ℕ) → length (bytes n) ≡ n
unfolding bytes
length-bytes zero = refl
length-bytes (suc n) = omega (arith, length-bytes n)

numbers :
    formatted (
      signed 4294967295
      ∷ string (codes " ")
      ∷ hex 0
      ∷ string (codes " ")
      ∷ hex 48879
      ∷ string (codes " ")
      ∷ padded 4 7
      ∷ [])
    ≡ codes "-1 00000000 0x00beef 0007"
unfolding formatted digits hex_digits
numbers = refl

abbrev file : List ℕ
file = codes "list.c"

abbrev message : List ℕ
message = codes "Invalid list handle"

output-cases_example :
    ((length (formatted (position_format file 51)) ≤ 1024)
      × (length message ≤ 1024)
      × (output_formatted_string_to_debugger (bytes 1024) file 51 message
          ≡ printed (
              (shown 1024 (formatted (position_format file 51)) ++ shown 1024 message) ++ 10 ∷ [])))
    ⊎ (((1024 < length (formatted (position_format file 51))) ⊎ (1024 < length message))
        × (output_formatted_string_to_debugger (bytes 1024) file 51 message ≡ over_read))
output-cases_example = output-cases (bytes 1024) file 51 message (length-bytes 1024)

abbrev fault : Fault
fault = record {
  si_addr = 0;
  si_errno = 0;
  reg_eip = 134513664;
  reg_eax = 1;
  reg_ebx = 2;
  reg_ecx = 3;
  reg_edx = 4;
  reg_ebp = 5;
  reg_esp = 6;
}

sigsegv-whole_example :
    linux_sigsegv_handler (bytes 1024) fault (codes "main")
    ≡ printed (formatted (fault_format fault) ++ ((stk_trace_hdr ++ codes "main") ++ stk_trace_ftr))
sigsegv-whole_example = sigsegv-whole (bytes 1024) fault (codes "main") (length-bytes 1024)

dumper-whole_example :
    let text = formatted (dump_format 0 0) in
    let (given, result) = default_stats_dumper (bytes 1024) def_all_stats def_all_stats (done 3) in
    (given ≡ printed text) × ((result ≡ pos 1) ↔ (done 3 ≡ done (length text)))
dumper-whole_example =
    dumper-whole (bytes 1024) def_all_stats def_all_stats (done 3) (length-bytes 1024)
