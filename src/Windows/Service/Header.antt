-- ===== src/Windows/Service/Header.antt =====
-- server_impl_windows.c: the header of a response 200 in `server_transmit_resource`, and base/misc.c.
use aio_server.Base.{ℕ, ◌≡◌, List, [], ◌∷◌, length, arith, inl, inr}
use aio_server.Printf.{codes, Piece, string, unsigned_64, formatted, length-formatted}
use aio_server.Windows.Service.Path.{string_v_printf-cases}
use aio_server.Windows.Text.{string_v_printf}

-- The text of the response 200 in base/http_codes.c, with the size of the file and the type.
abbrev pub header_format : ℕ → List Piece
header_format f_size =
    string (codes "HTTP/1.1 200 OK\r\nContent-length: ")
    ∷ unsigned_64 f_size
    ∷ string (codes "\r\nConnection: close\r\nContent-Type: ")
    ∷ string (codes "text/html; charset=UTF-8")
    ∷ string (codes "\r\n\r\n")
    ∷ []

-- The header in the client's buffer of 2048 bytes, and `HeadLength`.
unfoldable pub ok_header : ℕ → List ℕ × ℕ
ok_header f_size = string_v_printf 2048 (formatted (header_format f_size))

-- X
pub ok_header-whole :
    (f_size : ℕ)
    → ok_header f_size
      ≡ (formatted (header_format f_size), length (formatted (header_format f_size)))
unfolding ok_header
ok_header-whole f_size =
    elim (string_v_printf-cases 2048 (formatted (header_format f_size)) (omega arith)) [
      | inl (lt, stored, result) ↦ λ i. (stored i, result i)
      | inr (le, e, z) ↦ absurd (omega (arith, length-formatted (header_format f_size)))
    ]
