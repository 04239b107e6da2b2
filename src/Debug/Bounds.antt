-- ===== src/Debug/Bounds.antt =====
-- The bounds of the buffers of base/debug_helpers_linux.c.
use aio_server.Base.{
  ℕ, ◌<◌, ◌≡◌, refl, List, ◌∷◌, [], ◌++◌, length, ◌⊎◌, inl, inr, leb, Bool-cases, ◌≤◌, arith,
}
use aio_server.Debug.{
  position_format, output_formatted_string_to_debugger, Fault, fault_format, linux_sigsegv_handler,
  stk_trace_hdr, stk_trace_ftr, print_stack_trace,
}
use aio_server.Printf.{formatted, length-formatted}
use aio_server.Printf.Buffer.{
  Printed, printed, over_read, ◌>>◌, snprintf, write_bytes, length-snprintf, write_bytes-whole,
  write_bytes-over_read, write_bytes-within, shown,
}

>>-over_read : (p : Printed) → (p >> over_read) ≡ over_read
>>-over_read (printed s) = refl
>>-over_read over_read = refl

module _ (buffer file : List ℕ) (line : ℕ) (message : List ℕ) (sized : length buffer ≡ 1024) where
  abbrev pub position : List ℕ
  position = formatted (position_format file line)

  kept : length (snprintf 1024 buffer position).0 ≡ 1024
  kept = length-snprintf 1024 buffer position (omega arith) sized

  within :
      length position ≤ 1024
      → length message ≤ 1024
      → output_formatted_string_to_debugger buffer file line message
        ≡ printed ((shown 1024 position ++ shown 1024 message) ++ 10 ∷ [])
  unfolding output_formatted_string_to_debugger
  within le le' = rw (
    write_bytes-within 1024 buffer position (omega arith) sized le,
    write_bytes-within 1024 (snprintf 1024 buffer position).0 message (omega arith) kept le',
  )

  over_reads :
      (1024 < length position) ⊎ (1024 < length message)
      → output_formatted_string_to_debugger buffer file line message ≡ over_read
  unfolding output_formatted_string_to_debugger
  over_reads (inl long) = rw (write_bytes-over_read 1024 buffer position (omega arith) sized long)
  over_reads (inr long) = rw (
    write_bytes-over_read 1024 (snprintf 1024 buffer position).0 message (omega arith) kept long,
    >>-over_read (write_bytes (snprintf 1024 buffer position)),
  )

  -- output_formatted_string_to_debugger on Linux either writes the position, the message and a
  -- newline, where both texts have at most 1024 bytes (one of just 1024 with a NUL for its last
  -- byte), or one of them is longer, and a write reads behind the buffer.
  pub output-cases :
      ((length position ≤ 1024)
        × (length message ≤ 1024)
        × (output_formatted_string_to_debugger buffer file line message
            ≡ printed ((shown 1024 position ++ shown 1024 message) ++ 10 ∷ [])))
      ⊎ (((1024 < length position) ⊎ (1024 < length message))
          × (output_formatted_string_to_debugger buffer file line message ≡ over_read))
  output-cases = elim (Bool-cases (leb (length position) 1024)) [
    | inl le ↦ elim (Bool-cases (leb (length message) 1024)) [
      | inl le' ↦ inl (ground arith, ground arith, within (ground arith) (ground arith))
      | inr gt' ↦ let long = inr (ground arith) in inr (long, over_reads long)
    ]
    | inr gt ↦ let long = inl (ground arith) in inr (long, over_reads long)
  ]

pub sigsegv-whole :
    (buffer : List ℕ) (f : Fault) (trace : List ℕ)
    → length buffer ≡ 1024
    → linux_sigsegv_handler buffer f trace
      ≡ printed (formatted (fault_format f) ++ ((stk_trace_hdr ++ trace) ++ stk_trace_ftr))
unfolding linux_sigsegv_handler print_stack_trace
sigsegv-whole buffer f trace sized =
    let whole =
      write_bytes-whole 1024 buffer (formatted (fault_format f)) sized
        (omega (arith, length-formatted (fault_format f))) in
    rw whole
