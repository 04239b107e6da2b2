-- ===== src/Printf.antt =====
-- Texts that the program prints, as lists of bytes: the conversions of the C library's formats that
-- the files of base/ and server_impl_windows.c use.
pub mod Buffer
use Prim.Native.Char.{code}
use Prim.Native.String.{String}
use aio_server.Base.{
  ℕ, zero, suc, ◌+◌, ◌-◌, ◌*◌, ◌/◌, ◌%◌, ◌≤◌, ◌<◌, ◌≡◌, refl, sym, ap, ◌∙◌, List, [], ◌∷◌, ◌++◌,
  ◌==◌, if◌then◌else◌, ltb, length, length-append, arith, Bool-cases, inl, inr,
}

-- The bytes of a text, which is ASCII.
abbrev pub codes : String → List ℕ
codes String.[] = []
codes (String.◌∷◌ c s) = code c ∷ codes s

-- The last `width` digits of a number, in front of `out`.
unfoldable pub digits : ℕ → ℕ → List ℕ → List ℕ
digits zero n out = out
digits (suc width) n out =
    let more = digits width (n / 10) ((b'0' + n % 10) ∷ out) in
    if ltb n 10 then (b'0' + n) ∷ out else more

abbrev pub hex_digit : ℕ → ℕ
hex_digit d = if ltb d 10 then b'0' + d else b'a' + d - 10

-- `%u` of a number below 10 ^ width
abbrev pub unsigned_text : ℕ → ℕ → List ℕ
unsigned_text width n = digits width n []

-- `%d` of a 32-bit word
abbrev pub signed_text : ℕ → List ℕ
signed_text w =
    if ltb w 2147483648 then unsigned_text 10 w else b'-' ∷ unsigned_text 10 (4294967296 - w)

-- The last `width` digits of a number in base 16, in front of `out`.
unfoldable pub hex_digits : ℕ → ℕ → List ℕ → List ℕ
hex_digits zero n out = out
hex_digits (suc width) n out =
    let more = hex_digits width (n / 16) (hex_digit (n % 16) ∷ out) in
    if ltb n 16 then hex_digit n ∷ out else more

abbrev pub zeros_to : ℕ → List ℕ → List ℕ
zeros_to zero s = s
zeros_to (suc n) s = b'0' ∷ zeros_to n s

-- `%#08x` of a 32-bit word: 8 bytes with the `0x`, which 0 does not have, or more.
abbrev pub hex_text : ℕ → List ℕ
hex_text w =
    let s = hex_digits 8 w [] in
    if w == 0 then zeros_to 7 s else b'0' ∷ b'x' ∷ zeros_to (6 - length s) s

abbrev pub hex_64_text : ℕ → List ℕ
hex_64_text n = let s = hex_digits 16 n [] in if n == 0 then s else b'0' ∷ b'x' ∷ s

abbrev pub padded_text : ℕ → ℕ → List ℕ
padded_text width n = let s = unsigned_text 5 n in zeros_to (width - length s) s

-- A part of a format with its argument: a text, or `%s`; `%d` and `%#08x` of a 32-bit word;
-- `%I64u`; `%#llx` of a 64-bit number; `%04d` and `%02d` of a number below 2^16, by their widths.
pub data Piece : Type 0 where
  string : List ℕ → Piece
  signed hex unsigned_64 hex_64 : ℕ → Piece
  padded : ℕ → ℕ → Piece

abbrev pub piece_text : Piece → List ℕ
piece_text (string s) = s
piece_text (signed w) = signed_text w
piece_text (hex w) = hex_text w
piece_text (hex_64 n) = hex_64_text n
piece_text (padded width n) = padded_text width n
piece_text (unsigned_64 n) = unsigned_text 20 n

unfoldable pub formatted : List Piece → List ℕ
formatted [] = []
formatted (p ∷ ps) = piece_text p ++ formatted ps

length-digits : (width n : ℕ) (out : List ℕ) → length (digits width n out) ≤ width + length out
unfolding digits
length-digits zero n out = omega arith
length-digits (suc width) n out =
    ground (arith, length-digits width (n / 10) ((b'0' + n % 10) ∷ out))

length-signed_text : (w : ℕ) → length (signed_text w) ≤ 11
length-signed_text w = ground (arith, length-digits 10 w [], length-digits 10 (4294967296 - w) [])

length-hex_digits :
    (width n : ℕ) (out : List ℕ) → length (hex_digits width n out) ≤ width + length out
unfolding hex_digits
length-hex_digits zero n out = omega arith
length-hex_digits (suc width) n out =
    ground (arith, length-hex_digits width (n / 16) (hex_digit (n % 16) ∷ out))

length-zeros_to : (n : ℕ) (s : List ℕ) → length (zeros_to n s) ≡ n + length s
length-zeros_to zero s = omega arith
length-zeros_to (suc n) s = omega (arith, length-zeros_to n s)

length-hex_text : (w : ℕ) → length (hex_text w) ≤ 15
length-hex_text w =
    let s = hex_digits 8 w [] in
    ground (arith, length-hex_digits 8 w [], length-zeros_to (6 - length s) s)

-- The most bytes that a format gives.
abbrev pub piece_room : Piece → ℕ
piece_room (string s) = length s
piece_room (signed w) = 11
piece_room (hex w) = 15
piece_room (hex_64 n) = 18
piece_room (padded width n) = width + 5
piece_room (unsigned_64 n) = 20

abbrev pub room : List Piece → ℕ
room [] = 0
room (p ∷ ps) = piece_room p + room ps

length-piece_text : (p : Piece) → length (piece_text p) ≤ piece_room p
length-piece_text (string s) = omega arith
length-piece_text (signed w) = length-signed_text w
length-piece_text (hex w) = length-hex_text w
length-piece_text (hex_64 n) = ground (arith, length-hex_digits 16 n [])
length-piece_text (padded width n) =
    let s = unsigned_text 5 n in
    omega (arith, length-zeros_to (width - length s) s, length-digits 5 n [])
length-piece_text (unsigned_64 n) = omega (arith, length-digits 20 n [])

pub length-formatted : (ps : List Piece) → length (formatted ps) ≤ room ps
unfolding formatted
length-formatted [] = omega arith
length-formatted (p ∷ ps) =
    omega
      (arith, length-append (piece_text p) (formatted ps), length-piece_text p, length-formatted ps)

-- Reading a text of digits, behind the number that was read before.
pub value : ℕ → List ℕ → ℕ
value acc [] = acc
value acc (c ∷ s) = value (acc * 10 + (c - b'0')) s

abbrev power_of_ten : ℕ → ℕ
power_of_ten zero = 1
power_of_ten (suc width) = 10 * power_of_ten width

value-digits :
    (width n : ℕ) (out : List ℕ)
    → n < power_of_ten width
    → value 0 (digits width n out) ≡ value n out
unfolding digits value
value-digits zero n out lt = let e : n ≡ 0 = omega arith in rw e refl
value-digits (suc width) n out lt =
    ground (arith, value-digits width (n / 10) ((b'0' + n % 10) ∷ out))

-- Reading a text of a 32-bit word.
pub signed_value : List ℕ → ℕ
signed_value [] = 0
signed_value (c ∷ s) = if c == b'-' then 4294967296 - value 0 s else value 0 (c ∷ s)

digits-cons :
    (width n : ℕ) (out : List ℕ)
    → (d : ℕ) × (s : List ℕ) × (digits (suc width) n out ≡ d ∷ s) × (b'0' ≤ d)
unfolding digits
digits-cons zero n out = elim (Bool-cases (ltb n 10)) [
  | inl small ↦ (b'0' + n, out, rw small, omega arith)
  | inr big ↦ (b'0' + n % 10, out, rw big, omega arith)
]
digits-cons (suc width) n out = elim (Bool-cases (ltb n 10)) [
  | inl small ↦ (b'0' + n, out, rw small, omega arith)
  | inr big ↦ rw big (digits-cons width (n / 10) ((b'0' + n % 10) ∷ out))
]

value-nil : (n : ℕ) → value n [] ≡ n
unfolding value
value-nil n = refl

signed_value-minus : (s : List ℕ) → signed_value (b'-' ∷ s) ≡ 4294967296 - value 0 s
unfolding signed_value
signed_value-minus s = refl

signed_value-digit : (d : ℕ) (s : List ℕ) → b'0' ≤ d → signed_value (d ∷ s) ≡ value 0 (d ∷ s)
unfolding signed_value
signed_value-digit d s le = ground arith

pub signed_value-unsigned : (w : ℕ) → w < 4294967296 → signed_value (unsigned_text 10 w) ≡ w
signed_value-unsigned w lt =
    let (d, s, e, le) = digits-cons 9 w [] in
    ap signed_value e
    ∙ signed_value-digit d s le
    ∙ sym (ap (value 0) e)
    ∙ value-digits 10 w [] (omega arith)
    ∙ value-nil w

pub signed_value-signed_text : (w : ℕ) → w < 4294967296 → signed_value (signed_text w) ≡ w
signed_value-signed_text w lt = elim (Bool-cases (ltb w 2147483648)) [
  | inl small ↦ rw small (signed_value-unsigned w lt)
  | inr big ↦
      let v = value-digits 10 (4294967296 - w) [] (ground arith) ∙ value-nil (4294967296 - w) in
      rw big (signed_value-minus (unsigned_text 10 (4294967296 - w)) ∙ ground (arith, v))
]
