-- ===== src/Windows/Service/Moves/Counts.antt =====
-- What the books say of the packets and the accepts, without a client that moves.
use aio_server.Base.{ℕ, ◌+◌, ◌-◌, ◌≡◌, List, ◌∷◌, ℤ, arith}
use aio_server.Windows.Service.{Packet}
use aio_server.Windows.Service.Books.{Store, names, Books}

pub pop-Books :
    {m extra w : ℕ} {st : Store} {p h : List ℕ} {q : List Packet} {lim : ℤ} (x : Packet)
    → ((b : ℕ) → names b x ≡ 0)
    → Books m extra st p (x ∷ q) w lim h
    → Books m extra st p q w lim h
pop-Books x nobody books = record {
  places = λ b. omega (arith, books.places b, nobody b);
  proper = books.proper;
  accepting = books.accepting;
  below = books.below;
  small = books.small;
  limit = books.limit;
}

pub fewer-Books :
    {m extra w : ℕ} {st : Store} {p h : List ℕ} {q : List Packet} {lim : ℤ}
    → Books m (1 + extra) st p q w lim h
    → Books m extra st p q (w - 1) lim h
fewer-Books books = record {
  places = books.places;
  proper = books.proper;
  accepting = omega (arith, books.accepting);
  below = omega (arith, books.below);
  small = books.small;
  limit = books.limit;
}

pub slack-Books :
    {m extra w : ℕ} {st : Store} {p h : List ℕ} {q : List Packet} {lim : ℤ} (more : ℕ)
    → Books m (more + extra) st p q w lim h
    → Books m extra st p q w lim h
slack-Books more books = record {
  places = books.places;
  proper = books.proper;
  accepting = omega (arith, books.accepting);
  below = books.below;
  small = books.small;
  limit = books.limit;
}
