-- ===== src/Windows/Service/Moves.antt =====
-- The movements of a client of the Windows server, and what each does to the books.
mod Counts
pub use Counts.*
use aio_server.Base.{
  ℕ, ◌+◌, ◌-◌, ◌<◌, ◌≡◌, inl, inr, Bool, true, false, Option, none, some, List, [], ◌∷◌, ◌++◌, ◌==◌,
  if◌then◌else◌, ℤ, arith, Option-cases, subst,
}
use aio_server.Windows.Client.{Client}
use aio_server.Windows.Service.{Packet, shut_down, post_accept}
use aio_server.Windows.Service.Books.{
  Store, names, update, is_waiting, count, remove_one, Proper, Books, count-remove_one,
  waiting-remove_one, waiting-update, count_packets-append,
}

abbrev IsProper : Option Client → Type 0
IsProper o = (d : Client) → o ≡ some d → Proper d

none-IsProper : IsProper none
none-IsProper d e = absurd (cc e)

some-IsProper : {c : Client} → Proper c → IsProper (some c)
some-IsProper good d e = subst Proper (cc e) good

if-IsProper :
    (t : Bool) (x y : Option Client) → IsProper x → IsProper y → IsProper (if t then x else y)
if-IsProper true x y f g = f
if-IsProper false x y f g = g

module _ {m extra w : ℕ} {st : Store} {p h : List ℕ} {q : List Packet} {lim : ℤ} where
  -- A completion brings the client to a thread.
  pub take-Books :
      {a : ℕ}
      → 0 < count a p
      → Books m extra st p q w lim h
      → Books m (is_waiting (st a) + extra) st (remove_one a p) q w lim (a ∷ h)
  take-Books {a} has books = record {
    places = λ b. ground (arith, books.places b, count-remove_one b a p has);
    proper = books.proper;
    accepting = omega (arith, books.accepting, waiting-remove_one st a p has);
    below = books.below;
    small = books.small;
    limit = books.limit;
  }

  -- What is in hand is allocated, and stands nowhere else.
  pub hand-alive : {a : ℕ} → Books m extra st p q w lim (a ∷ h) → (c : Client) × (st a ≡ some c)
  hand-alive {a} books = elim (Option-cases (st a)) [
    | inl e ↦ absurd (ground (arith, books.places a))
    | inr r ↦ r
  ]

  pub hand-count : {a : ℕ} → Books m extra st p q w lim (a ∷ h) → count a p ≡ 0
  hand-count {a} books = grind (arith, books.places a)

  pub modify-Books :
      {a : ℕ} {c : Client}
      → Proper c
      → Books m extra st p q w lim (a ∷ h)
      → Books m extra (update st a (some c)) p q w lim (a ∷ h)
  modify-Books {a} {c} good books = record {
    places = λ b. ground (arith, books.places b);
    proper = λ b. if-IsProper (b == a) _ _ (some-IsProper good) (books.proper b);
    accepting = omega (arith, books.accepting, waiting-update st a (some c) p (hand-count books));
    below = books.below;
    small = books.small;
    limit = books.limit;
  }

  pub post-Books :
      {a : ℕ} (r : Bool)
      → Books m extra st p q w lim (a ∷ h)
      → Books m extra st p (q ++ post_accept r (some a) ∷ []) w lim h
  post-Books {a} r books = record {
    places = λ b. ground (arith, books.places b, count_packets-append b q (post_accept r (some a)));
    proper = books.proper;
    accepting = books.accepting;
    below = books.below;
    small = books.small;
    limit = books.limit;
  }

  -- A thread forgets the client, or there was none.
  pub drop-Books : {a : ℕ} → Books m extra st p q w lim (a ∷ h) → Books m extra st p q w lim h
  drop-Books {a} books = record {
    places = λ b. ground (arith, books.places b);
    proper = books.proper;
    accepting = books.accepting;
    below = books.below;
    small = books.small;
    limit = books.limit;
  }

  pub post_none-Books :
      (r : Bool)
      → Books m extra st p q w lim h
      → Books m extra st p (q ++ post_accept r none ∷ []) w lim h
  post_none-Books r books = record {
    places = λ b. omega (arith, books.places b, count_packets-append b q (post_accept r none));
    proper = books.proper;
    accepting = books.accepting;
    below = books.below;
    small = books.small;
    limit = books.limit;
  }

  pub shut_down-Books :
      Books m extra st p q w lim h → Books m extra st p (q ++ shut_down ∷ []) w lim h
  shut_down-Books books = record {
    places = λ b. omega (arith, books.places b, count_packets-append b q shut_down);
    proper = books.proper;
    accepting = books.accepting;
    below = books.below;
    small = books.small;
    limit = books.limit;
  }

  -- An operation begins that is no accept.
  pub begin-Books :
      {a : ℕ}
      → is_waiting (st a) ≡ 0
      → Books m extra st p q w lim (a ∷ h)
      → Books m extra st (a ∷ p) q w lim h
  begin-Books {a} e books = record {
    places = λ b. ground (arith, books.places b);
    proper = books.proper;
    accepting = omega (arith, books.accepting, e);
    below = books.below;
    small = books.small;
    limit = books.limit;
  }

  pub begin_accept-Books :
      {a : ℕ}
      → w < m
      → Books m extra st p q w lim (a ∷ h)
      → Books m extra st (a ∷ p) q (w + 1) lim h
  begin_accept-Books {a} lt books = record {
    places = λ b. ground (arith, books.places b);
    proper = books.proper;
    accepting = ground (arith, books.accepting);
    below = omega (arith, lt);
    small = books.small;
    limit = books.limit;
  }

  pub free-Books :
      {a : ℕ} → Books m extra st p q w lim (a ∷ h) → Books m extra (update st a none) p q w lim h
  free-Books {a} books = record {
    places = λ b. ground (arith, books.places b);
    proper = λ b. if-IsProper (b == a) _ _ none-IsProper (books.proper b);
    accepting = omega (arith, books.accepting, waiting-update st a none p (hand-count books));
    below = books.below;
    small = books.small;
    limit = books.limit;
  }

  pub create-Books :
      {a : ℕ} {c : Client}
      → st a ≡ none
      → Proper c
      → Books m extra st p q w lim h
      → Books m extra (update st a (some c)) p q w lim (a ∷ h)
  create-Books {a} {c} fresh good books = record {
    places = λ b. grind (arith, books.places b);
    proper = λ b. if-IsProper (b == a) _ _ (some-IsProper good) (books.proper b);
    accepting = omega (
      arith,
      books.accepting,
      waiting-update st a (some c) p (grind (arith, books.places a, fresh)),
    );
    below = books.below;
    small = books.small;
    limit = books.limit;
  }

  pub packet-Books :
      {a : ℕ} {r : Bool}
      → Books m extra st p (post_accept r (some a) ∷ q) w lim h
      → Books m extra st p q w lim (a ∷ h)
  packet-Books {a} books = record {
    places = λ b. ground (arith, books.places b);
    proper = books.proper;
    accepting = books.accepting;
    below = books.below;
    small = books.small;
    limit = books.limit;
  }
