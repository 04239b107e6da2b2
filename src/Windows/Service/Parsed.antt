-- ===== src/Windows/Service/Parsed.antt =====
-- The request line that `server_handle_client_request` of server_impl_windows.c reads.
use aio_server.Base.{
  ℕ, ◌≡◌, ◌≢◌, refl, Bool, true, false, not, ◌&&◌, Option, none, some, List, [], ◌∷◌, ◌++◌, ◌==◌,
  arith, inl, inr, Bool-cases, ne→==_false,
}
use aio_server.Windows.Text.{is_in, split_token, strtok_s, stricmp_equal}
use aio_server.Windows.Service.Request.{
  get_text, version_text, space, carriage_return, line_feed, checked, with_document, with_method,
  requested_document,
}

-- A text without NUL and without a delimiter.
abbrev pub is_token : List ℕ → List ℕ → Bool
is_token delims [] = true
is_token delims (x ∷ xs) = not (x == 0) && (not (is_in x delims) && is_token delims xs)

&&-parts : (a b c : Bool) → (not a && (not b && c)) ≡ true → (a ≡ false) × (b ≡ false) × (c ≡ true)
&&-parts true b c e = absurd (cc e)
&&-parts false true c e = absurd (cc e)
&&-parts false false c e = (refl, refl, e)

token-parts :
    (delims : List ℕ) (x : ℕ) (xs : List ℕ)
    → is_token delims (x ∷ xs) ≡ true
    → ((x == 0) ≡ false) × (is_in x delims ≡ false) × (is_token delims xs ≡ true)
token-parts delims x xs e = &&-parts (x == 0) (is_in x delims) (is_token delims xs) e

split_token-append :
    (delims : List ℕ) (token : List ℕ) (d : ℕ) (rest : List ℕ)
    → is_token delims token ≡ true
    → d ≢ 0
    → is_in d delims ≡ true
    → split_token delims (token ++ d ∷ rest) ≡ (token, rest)
unfolding split_token
split_token-append delims [] d rest t p q = rw (ne→==_false d 0 p, q) refl
split_token-append delims (x ∷ xs) d rest t p q =
    let (a, b, c) = token-parts delims x xs t in
    rw (a, b, split_token-append delims xs d rest c p q) refl

strtok_s-append :
    (delims : List ℕ) (token : List ℕ) (d : ℕ) (rest : List ℕ)
    → token ≢ []
    → is_token delims token ≡ true
    → d ≢ 0
    → is_in d delims ≡ true
    → strtok_s delims (token ++ d ∷ rest) ≡ some (token, rest)
unfolding strtok_s
strtok_s-append delims [] d rest n t p q = absurd (n refl)
strtok_s-append delims (x ∷ xs) d rest n t p q =
    let (a, b, c) = token-parts delims x xs t in
    rw (a, b, split_token-append delims xs d rest c p q) refl

stricmp_equal-nonempty : (x : ℕ) (xs m : List ℕ) → stricmp_equal m (x ∷ xs) ≡ true → m ≢ []
unfolding stricmp_equal
stricmp_equal-nonempty x xs [] e q = absurd (cc e)
stricmp_equal-nonempty x xs (y ∷ m) e q = absurd (cc q)

-- A request line whose first token is "get" and whose third is "HTTP/1.1", in any case, gives its
-- second token, whatever follows.
pub requested_document-line :
    (method document ver rest : List ℕ)
    → stricmp_equal method get_text ≡ true
    → stricmp_equal ver version_text ≡ true
    → is_token (space ∷ []) method ≡ true
    → document ≢ []
    → is_token (space ∷ []) document ≡ true
    → is_token (space ∷ carriage_return ∷ line_feed ∷ []) ver ≡ true
    → requested_document
        (method ++ space ∷ (document ++ space ∷ (ver ++ carriage_return ∷ line_feed ∷ rest)))
      ≡ some document
unfolding requested_document
requested_document-line method document ver rest e f m n d v =
    let method_token =
      strtok_s-append (space ∷ []) method space
        (document ++ space ∷ (ver ++ carriage_return ∷ line_feed ∷ rest))
        (stricmp_equal-nonempty _ _ method e) m (omega arith) refl in
    let document_token =
      strtok_s-append (space ∷ []) document space (ver ++ carriage_return ∷ line_feed ∷ rest) n d
        (omega arith) refl in
    let version_token =
      strtok_s-append (space ∷ carriage_return ∷ line_feed ∷ []) ver carriage_return
        (line_feed ∷ rest) (stricmp_equal-nonempty _ _ ver f) v (omega arith) refl in
    rw (method_token, document_token, version_token, e, f) refl

token-prefix :
    (delims : List ℕ) (text : List ℕ) → is_token delims (split_token delims text).0 ≡ true
unfolding split_token
token-prefix delims [] = refl
token-prefix delims (x ∷ text) = elim (Bool-cases (x == 0)) [
  | inl z ↦ rw z refl
  | inr z ↦ rw z (elim (Bool-cases (is_in x delims)) [
    | inl i ↦ rw i refl
    | inr i ↦ rw (i, z, token-prefix delims text) (rw i refl)
  ])
]

-- A token is not empty, and has no NUL and no delimiter.
data Token (delims : List ℕ) : Option (List ℕ × List ℕ) → Type 0 where
  missing : Token delims none
  found : {t rest : List ℕ} → t ≢ [] → is_token delims t ≡ true → Token delims (some (t, rest))

strtok_s-Token : (delims text : List ℕ) → Token delims (strtok_s delims text)
unfolding strtok_s split_token
strtok_s-Token delims [] = missing
strtok_s-Token delims (x ∷ text) = elim (Bool-cases (x == 0)) [
  | inl z ↦ rw z missing
  | inr z ↦ rw z (elim (Bool-cases (is_in x delims)) [
    | inl i ↦ rw i (strtok_s-Token delims text)
    | inr i ↦ rw i (found (λ e. absurd (cc e)) (rw (z, i) (token-prefix delims text)))
  ])
]

-- The document that a request asks for, if it asks for one.
pub data Requested : Option (List ℕ) → Type 0 where
  refused : Requested none
  asked :
      {document : List ℕ}
      → document ≢ []
      → is_token (space ∷ []) document ≡ true
      → Requested (some document)

-- Whatever the buffer holds, the document that is read from it is not empty and has no space and
-- no NUL, or there is none.
pub requested_document-Requested : (buffer : List ℕ) → Requested (requested_document buffer)
unfolding requested_document
requested_document-Requested buffer = with_first (strtok_s (space ∷ []) buffer)
  where
    third :
        (method document : List ℕ) (r : Option (List ℕ × List ℕ))
        → document ≢ []
        → is_token (space ∷ []) document ≡ true
        → Requested (checked method document r)
    third method document none n t = refused
    third method document (some (ver, rest)) n t =
        elim (Bool-cases (stricmp_equal method get_text && stricmp_equal ver version_text)) [
          | inl e ↦ rw e (asked n t)
          | inr e ↦ rw e refused
        ]

    second :
        (method : List ℕ) {r : Option (List ℕ × List ℕ)}
        → Token (space ∷ []) r
        → Requested (with_document method r)
    second method missing = refused
    second method (found n t) = third method _ _ n t

    with_first : (r : Option (List ℕ × List ℕ)) → Requested (with_method r)
    with_first none = refused
    with_first (some (method, rest)) = second method (strtok_s-Token (space ∷ []) rest)
