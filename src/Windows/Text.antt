-- ===== src/Windows/Text.antt =====
-- Texts as lists of bytes: base/misc.c, and what server_impl_windows.c uses of the C library. A text
-- ends at a NUL byte or at the end of the list.
use aio_server.Base.{
  ℕ, ◌+◌, ◌-◌, Bool, true, false, ◌&&◌, ◌||◌, Option, none, some, List, [], ◌∷◌, ◌==◌, leb,
  if◌then◌else◌, length, take,
}

-- `string_v_printf` into `dst_len` bytes, for the text that the format gives: what is stored, and
-- the length that is returned.
unfoldable pub string_v_printf : ℕ → List ℕ → List ℕ × ℕ
string_v_printf dst_len text =
    (take (dst_len - 1) text, if leb (length text) (dst_len - 1) then length text else 0)

abbrev pub is_in : ℕ → List ℕ → Bool
is_in x [] = false
is_in x (d ∷ ds) = (x == d) || is_in x ds

-- The bytes up to a delimiter or the end, and the text behind the delimiter.
abbrev pub in_front : ℕ → List ℕ × List ℕ → List ℕ × List ℕ
in_front x (token, rest) = (x ∷ token, rest)

unfoldable pub split_token : List ℕ → List ℕ → List ℕ × List ℕ
split_token delims [] = ([], [])
split_token delims (x ∷ text) =
    let rest = in_front x (split_token delims text) in
    if x == 0 then ([], []) else if is_in x delims then ([], text) else rest

-- `strtok_s`: leading delimiters are skipped, and there is no empty token.
unfoldable pub strtok_s : List ℕ → List ℕ → Option (List ℕ × List ℕ)
unfolding split_token
strtok_s delims [] = none
strtok_s delims (x ∷ text) =
    let rest = strtok_s delims text in
    if x == 0 then none else if is_in x delims then rest else some (split_token delims (x ∷ text))

abbrev pub lower : ℕ → ℕ
lower x = if leb 65 x && leb x 90 then x + 32 else x

-- `_stricmp` gives 0
unfoldable pub stricmp_equal : List ℕ → List ℕ → Bool
stricmp_equal [] [] = true
stricmp_equal [] (y ∷ ys) = false
stricmp_equal (x ∷ xs) [] = false
stricmp_equal (x ∷ xs) (y ∷ ys) = (lower x == lower y) && stricmp_equal xs ys

-- `strcmp` gives 0
unfoldable pub strcmp_equal : List ℕ → List ℕ → Bool
strcmp_equal [] [] = true
strcmp_equal [] (y ∷ ys) = false
strcmp_equal (x ∷ xs) [] = false
strcmp_equal (x ∷ xs) (y ∷ ys) = (x == y) && strcmp_equal xs ys
