-- ===== src/Printf/Buffer.antt =====
-- A text that is formatted into a buffer and written from there, as base/debug_helpers_linux.c and
-- base/allocator.c do on Linux.
use aio_server.Base.{
  ℕ, zero, suc, ◌-◌, ◌<◌, ◌≤◌, ◌≡◌, refl, ap, List, [], ◌∷◌, ◌++◌, length, length-append, take,
  drop, leb, if◌then◌else◌, arith, take-eq_of_le, length-take, append_assoc, take-cases, inl, inr,
  Option, none, some, ltb, Bool-cases,
}

-- What is written, or bytes behind the end of the buffer would be read.
pub data Printed : Type 0 where
  printed : List ℕ → Printed
  over_read : Printed

infixl 5 ◌>>◌
abbrev pub ◌>>◌ : Printed → Printed → Printed
printed s >> printed t = printed (s ++ t)
printed s >> over_read = over_read
over_read >> p = over_read

-- `snprintf` into a buffer of `size` bytes, with what the buffer held: what it holds then, and the
-- length that is returned, which is that of the whole text.
unfoldable pub snprintf : ℕ → List ℕ → List ℕ → List ℕ × ℕ
snprintf size buffer text =
    let stored = take (size - 1) text ++ 0 ∷ [] in
    (stored ++ drop (length stored) buffer, length text)

-- `write` of `count` bytes of a buffer.
unfoldable pub write_bytes : List ℕ × ℕ → Printed
write_bytes (buffer, count) =
    if leb count (length buffer) then printed (take count buffer) else over_read

take-length {ℓ} : {A : Type ℓ} (s t : List A) → take (length s) (s ++ t) ≡ s
take-length [] t = refl
take-length (x ∷ s) t = ap (λ r. x ∷ r) (take-length s t)

length-drop {ℓ} : {A : Type ℓ} (n : ℕ) (l : List A) → length (drop n l) ≡ length l - n
length-drop zero l = omega arith
length-drop (suc n) [] = omega arith
length-drop (suc n) (x ∷ l) = omega (arith, length-drop n l)

-- The buffer keeps its size.
pub length-snprintf :
    (size : ℕ) (buffer text : List ℕ)
    → 0 < size
    → length buffer ≡ size
    → length (snprintf size buffer text).0 ≡ size
unfolding snprintf
length-snprintf size buffer text pos sized =
    let cut = take (size - 1) text in
    let stored = cut ++ 0 ∷ [] in
    omega (
      arith,
      length-append cut (0 ∷ []),
      length-append stored (drop (length stored) buffer),
      length-drop (length stored) buffer,
      length-take (size - 1) text,
    )

pub write_bytes-whole :
    (size : ℕ) (buffer text : List ℕ)
    → length buffer ≡ size
    → length text < size
    → write_bytes (snprintf size buffer text) ≡ printed text
unfolding snprintf write_bytes
write_bytes-whole size buffer text sized fits =
    let whole = take-eq_of_le (size - 1) text (omega arith) in
    let fill = drop (length (text ++ 0 ∷ [])) buffer in
    let room : length text ≤ length (text ++ 0 ∷ fill) =
      omega (arith, length-append text (0 ∷ fill)) in
    rw (whole, append_assoc text (0 ∷ []) fill, take-length text (0 ∷ fill)) (ground arith)

pub snprintf-result :
    (size : ℕ) (buffer text : List ℕ) → (snprintf size buffer text).1 ≡ length text
unfolding snprintf
snprintf-result size buffer text = refl

pub write_bytes-over_read :
    (size : ℕ) (buffer text : List ℕ)
    → 0 < size
    → length buffer ≡ size
    → size < length text
    → write_bytes (snprintf size buffer text) ≡ over_read
unfolding write_bytes
write_bytes-over_read size buffer text pos sized long =
    let l = length-snprintf size buffer text pos sized in
    ground (arith, l, snprintf-result size buffer text)

-- What is seen of a text that is as long as the buffer: a NUL stands in place of its last byte.
abbrev pub shown : ℕ → List ℕ → List ℕ
shown size text = if ltb (length text) size then text else take (size - 1) text ++ 0 ∷ []

write_bytes-full :
    (size : ℕ) (buffer text : List ℕ)
    → 0 < size
    → length buffer ≡ size
    → length text ≡ size
    → write_bytes (snprintf size buffer text) ≡ printed (take (size - 1) text ++ 0 ∷ [])
unfolding snprintf write_bytes
write_bytes-full size buffer text pos sized full =
    let stored = take (size - 1) text ++ 0 ∷ [] in
    let fill = drop (length stored) buffer in
    let l : length stored ≡ length text = elim (take-cases (size - 1) text) [
      | inl (le, e) ↦ absurd (omega arith)
      | inr (lt, e) ↦ omega (arith, length-append (take (size - 1) text) (0 ∷ []))
    ] in
    let t : take (length text) (stored ++ fill) ≡ stored = rw (← l) (take-length stored fill) in
    rw t (ground (arith, length-append stored fill, l))

-- A text that is no longer than the buffer is written.
pub write_bytes-within :
    (size : ℕ) (buffer text : List ℕ)
    → 0 < size
    → length buffer ≡ size
    → length text ≤ size
    → write_bytes (snprintf size buffer text) ≡ printed (shown size text)
write_bytes-within size buffer text pos sized le = elim (Bool-cases (ltb (length text) size)) [
  | inl short ↦ rw short (write_bytes-whole size buffer text sized (ground arith))
  | inr exact ↦ rw exact (write_bytes-full size buffer text pos sized (ground arith))
]

-- `StringCchPrintfEx` of Windows, which fails where a text and its NUL do not fit into the buffer.
pub record CchPrintf : Type 0 where
  pub string_cch_printf : ℕ → List ℕ → Option (List ℕ)
  pub fits :
      (size : ℕ) (text : List ℕ) → length text < size → string_cch_printf size text ≡ some text
  pub too_long :
      (size : ℕ) (text : List ℕ) → size ≤ length text → string_cch_printf size text ≡ none
