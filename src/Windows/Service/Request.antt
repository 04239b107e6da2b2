-- ===== src/Windows/Service/Request.antt =====
-- server_impl_windows.c: the request line in `server_handle_client_request`, and the path of the
-- file in `server_transmit_resource`.
use aio_server.Base.{ℕ, ◌&&◌, Option, none, some, List, [], ◌∷◌, ◌++◌, ◌==◌, if◌then◌else◌}
use aio_server.Windows.Text.{string_v_printf, strtok_s, stricmp_equal}

-- "get" and "HTTP/1.1"
abbrev pub get_text : List ℕ
get_text = b'g' ∷ b'e' ∷ b't' ∷ []

abbrev pub version_text : List ℕ
version_text = b'H' ∷ b'T' ∷ b'T' ∷ b'P' ∷ b'/' ∷ b'1' ∷ b'.' ∷ b'1' ∷ []

abbrev pub space : ℕ
space = 32

abbrev pub carriage_return : ℕ
carriage_return = 13

abbrev pub line_feed : ℕ
line_feed = 10

-- The three tokens one after another; a missing or a wrong one gives the null pointer.
abbrev pub checked : List ℕ → List ℕ → Option (List ℕ × List ℕ) → Option (List ℕ)
checked method document none = none
checked method document (some (ver, rest)) =
    if stricmp_equal method get_text && stricmp_equal ver version_text then some document else none

abbrev pub with_document : List ℕ → Option (List ℕ × List ℕ) → Option (List ℕ)
with_document method none = none
with_document method (some (document, rest)) =
    checked method document (strtok_s (space ∷ carriage_return ∷ line_feed ∷ []) rest)

abbrev pub with_method : Option (List ℕ × List ℕ) → Option (List ℕ)
with_method none = none
with_method (some (method, rest)) = with_document method (strtok_s (space ∷ []) rest)

unfoldable pub requested_document : List ℕ → Option (List ℕ)
requested_document buffer = with_method (strtok_s (space ∷ []) buffer)

-- `*res_path == '/' ? res_path + 1 : res_path`
abbrev pub without_slash : List ℕ → List ℕ
without_slash [] = []
without_slash (x ∷ path) = if x == b'/' then path else x ∷ path

-- The size of `file_path`, which is `MAX_PATH + 1`.
abbrev pub file_path_size : ℕ
file_path_size = 261

unfoldable pub resource_path : List ℕ → List ℕ → List ℕ
resource_path root path = (string_v_printf file_path_size (root ++ b'/' ∷ without_slash path)).0
