-- ===== src/Windows/Service/Filling.antt =====
-- A round of the accepting thread's inner loop and the books of the Windows server.
use aio_server.Base.{
  ℕ, ◌≤◌, ◌<◌, ◌≡◌, refl, Bool, true, false, Option, none, some, List, [], ◌∷◌, if◌then◌else◌,
  arith, ℤ, negsuc, inl, inr, Bool-cases, pos,
}
use aio_server.Kernel.{Kernel, acquire, block}
use aio_server.Atomic.{atomic32_load}
use aio_server.Windows.Client.{Client, client_create}
use aio_server.Windows.Service.{◌>>=◌, Service, stopped, ok, set_client}
use aio_server.Windows.Service.Accept.{pushed, tracked, server_add_client_to_list}
use aio_server.Windows.Service.Main.{
  reaches, with_address, listed, client_for_round, going_on, posting, enough_posted, accept_round,
}
use aio_server.Windows.Service.Books.{Proper}
use aio_server.Windows.Service.Moves.{modify-Books, create-Books}
use aio_server.Windows.Service.Sound.{Sound, Allowed, broken, allowed, >>=-Allowed}
use aio_server.Windows.Service.Rounds.{
  IsNew, create-IsNew, Ready, cleanup-Gone, reinit-Ready, try-Sound, tracked-Proper,
}

-- The client that the accepting thread has in hand.
abbrev pub in_hand : Option ℕ → List ℕ
in_hand none = []
in_hand (some a) = a ∷ []

-- The allocator does not give the block of a structure that is allocated.
unfoldable pub Fresh : Service → Type 0
Fresh s =
    (c : Client) (k : Kernel) → client_create s.kernel ≡ (some c, k) → s.store c.cl_address ≡ none

reaches-room :
    (w m : ℕ) (lim : ℤ) → lim ≡ pos m → w ≤ m → m < 2147483648 → reaches w lim ≡ false → w < m
reaches-room w m (pos n) e le lt r = ground (arith, e, r)
reaches-room w m (negsuc n) e le lt r = absurd (cc e)

-- The client of a round, if there is one, and room for it.
abbrev Given : ℕ → ℕ → Option ℕ × Service → Type 0
Given m lost (o, s) = Ready m lost (in_hand o) s

pushed-Ready :
    {m lost : ℕ} {h : List ℕ} (a : ℕ) (s : Service)
    → Ready m lost h s
    → (r : Option ℕ × Kernel) → Ready m lost h (pushed a s r)
pushed-Ready a s ready (some n, k) = record { sound = ready.sound; room = ready.room }
pushed-Ready a s ready (none, k) = record { sound = ready.sound; room = ready.room }

tracked-Ready :
    {m lost a : ℕ} {h : List ℕ} (c : Client) (s : Service)
    → Proper c
    → Ready m lost (a ∷ h) s
    → Ready m lost (a ∷ h) (tracked a c true s)
tracked-Ready c s good ready = record {
  sound = modify-Books (tracked-Proper true c good) ready.sound;
  room = ready.room;
}

-- After the round nothing is in hand.
abbrev pub Rest : ℕ → ℕ → Bool × Service → Type 0
Rest m lost (b, s) = Sound m lost s []

module _ {m lost : ℕ} where
  -- The structure is new, in hand and listed.
  added-Given :
      (a : ℕ) (c : Client) (s : Service)
      → Proper c
      → Ready m lost (a ∷ []) s
      → Allowed (Given m lost) (server_add_client_to_list a c s >>= with_address a)
  unfolding server_add_client_to_list
  added-Given a c s good ready = go c.cl_is_tracked
    where
      t : Service
      t = tracked a c true (pushed a s (acquire block s.kernel))

      go : (b : Bool) → Allowed (Given m lost) ((if b then stopped else ok t) >>= with_address a)
      go true = broken
      go false = allowed (tracked-Ready c _ good (pushed-Ready a s ready (acquire block s.kernel)))

  listed-Given :
      (s : Service) (r : Option Client × Kernel)
      → IsNew r
      → ((c : Client) (k : Kernel) → r ≡ (some c, k) → s.store c.cl_address ≡ none)
      → Ready m lost [] s
      → Allowed (Given m lost) (listed s r)
  listed-Given s (none, k) good fresh ready =
      allowed (record { sound = ready.sound; room = ready.room })
  listed-Given s (some c, k) good fresh ready =
      added-Given c.cl_address c (set_client c.cl_address c (record s { kernel = k })) good
        (record { sound = create-Books (fresh c k refl) good ready.sound; room = ready.room })

  round-Given :
      (opts : Bool) (cli : Option ℕ) (s : Service)
      → Fresh s
      → Ready m lost (in_hand cli) s
      → Allowed (Given m lost) (client_for_round opts cli s)
  unfolding client_for_round Fresh
  round-Given opts none s fresh ready = listed-Given s _ (create-IsNew s.kernel) fresh ready
  round-Given opts (some a) s fresh ready =
      >>=-Allowed (with_address a) (λ t r. allowed r) (reinit-Ready a opts s ready)

  posting-Rest :
      (fuel : ℕ) (r : Option ℕ × Service) → Given m lost r → Allowed (Rest m lost) (posting fuel r)
  posting-Rest fuel (none, s) ready = allowed ready.sound
  posting-Rest fuel (some a, s) ready =
      >>=-Allowed (going_on true) (λ t books. allowed books) (try-Sound a fuel s ready)

  enough-Rest :
      (cli : Option ℕ) (s : Service)
      → Sound m lost s (in_hand cli)
      → Allowed (Rest m lost) (enough_posted cli s)
  enough-Rest none s books = allowed books
  enough-Rest (some a) s books =
      >>=-Allowed (going_on false) (λ t g. allowed g.sound) (cleanup-Gone a s books)

  pub round-Rest :
      (fuel : ℕ) (opts : Bool) (cli : Option ℕ) (s : Service)
      → Fresh s
      → Sound m lost s (in_hand cli)
      → Allowed (Rest m lost) (accept_round fuel opts cli s)
  unfolding accept_round atomic32_load
  round-Rest fuel opts cli s fresh books =
      elim (Bool-cases (reaches s.sv_outstanding_accepts s.so_max_outstanding_accepts)) [
        | inl e ↦ rw e (enough-Rest cli s books)
        | inr e ↦ rw e (
            >>=-Allowed (posting fuel) (posting-Rest fuel) (
              round-Given opts cli s fresh (record {
                sound = books;
                room = reaches-room _ m _ books.limit books.below books.small e;
              })))
      ]
