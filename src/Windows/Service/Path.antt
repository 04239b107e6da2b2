-- ===== src/Windows/Service/Path.antt =====
-- The path that `server_transmit_resource` of server_impl_windows.c opens, and base/misc.c.
use aio_server.Base.{
  ℕ, ◌+◌, ◌-◌, ◌≤◌, ◌<◌, ◌≡◌, ◌≢◌, refl, List, [], ◌∷◌, ◌++◌, length, arith, inl, inr, ◌⊎◌, drop,
  take-drop, length-take, take-cases, ne→==_false,
}
use aio_server.Windows.Text.{string_v_printf}
use aio_server.Windows.Service.Request.{without_slash, resource_path}

-- string_v_printf into dst_len > 0 bytes either stores the whole text, which leaves room for a
-- NUL, and returns its length, or the text is longer, and it stores dst_len - 1 bytes of it and
-- returns 0.
pub string_v_printf-cases :
    (dst_len : ℕ) (text : List ℕ)
    → 0 < dst_len
    → let (stored, result) = string_v_printf dst_len text in
      ((length text < dst_len) × (stored ≡ text) × (result ≡ length text))
      ⊎ ((dst_len ≤ length text) × (length stored + 1 ≡ dst_len) × (result ≡ 0))
unfolding string_v_printf
string_v_printf-cases dst_len text room = elim (take-cases (dst_len - 1) text) [
  | inl (le, e) ↦ inl (omega (arith, le), e, ground arith)
  | inr (lt, e) ↦ inr (omega (arith, lt), omega (arith, e), ground arith)
]

-- What a path says below the root directory: one slash at its start is no part of it.
pub data Below : List ℕ → List ℕ → Type 0 where
  slashed : (document : List ℕ) → Below (b'/' ∷ document) document
  plain : (x : ℕ) (document : List ℕ) → x ≢ b'/' → Below (x ∷ document) (x ∷ document)
  empty : Below [] []

without_slash-below : {path document : List ℕ} → Below path document → without_slash path ≡ document
without_slash-below (slashed document) = refl
without_slash-below (plain x document other) = rw (ne→==_false x b'/' other) refl
without_slash-below empty = refl

-- For a path that is a slash and a document, or else a document that does not start with a slash,
-- the path that is opened is the start of the root directory, a slash and the document: all of
-- it, or its first 260 bytes.
pub resource_path-prefix :
    (root : List ℕ) {path document : List ℕ}
    → Below path document
    → (rest : List ℕ) × (resource_path root path ++ rest ≡ root ++ b'/' ∷ document)
      × (length (resource_path root path) ≤ 260)
      × ((resource_path root path ≡ root ++ b'/' ∷ document)
          ⊎ (length (resource_path root path) ≡ 260))
unfolding resource_path string_v_printf
resource_path-prefix root {path} {document} below =
    let whole = root ++ b'/' ∷ document in
    rw (without_slash-below below) (
      drop 260 whole,
      take-drop 260 whole,
      length-take 260 whole,
      elim (take-cases 260 whole) [ inl (le, e) ↦ inl e | inr (lt, e) ↦ inr e ],
    )
