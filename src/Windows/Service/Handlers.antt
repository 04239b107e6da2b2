-- ===== src/Windows/Service/Handlers.antt =====
-- What the handlers of the worker threads do to the books of the Windows server.
use aio_server.Base.{
  ℕ, ◌+◌, ◌≡◌, refl, Bool, true, false, not, Option, none, some, List, ◌∷◌, ◌==◌, ==_refl,
  if◌then◌else◌, arith, subst, inl, inr, Bool-cases,
}
use aio_server.Kernel.{Answer, done, failed, Kernel, ask}
use aio_server.Atomic.{atomic32_increment}
use aio_server.Windows.Client.{Client, io_opcode_sock_0_bytes_recv}
use aio_server.Windows.Service.{
  post_accept, Service, set_client, wsa_io_pending, posted, server_accept_more_clients, begun,
}
use aio_server.Windows.Service.Worker.{
  server_read_from_client, fewer_outstanding, after_read, after_port, answered,
  server_update_completion_port, after_option, server_accept_new_connection,
}
use aio_server.Windows.Service.Books.{is_waiting, receiving, Books, update}
use aio_server.Windows.Service.Sound.{Sound}
use aio_server.Windows.Service.Moves.{
  modify-Books, post-Books, drop-Books, post_none-Books, begin-Books, fewer-Books, slack-Books,
}

pub is_waiting-update :
    (s : Service) (a : ℕ) (o : Option Client) → is_waiting (update s.store a o a) ≡ is_waiting o
is_waiting-update s a o = rw (==_refl a) refl

-- Where an operation begins, the client is with the operating system; else it stays in hand.
abbrev pub Begun : ℕ → List ℕ → ℕ → ℕ → Bool × Service → Type 0
Begun m h x a (true, s) = Sound m x s h
Begun m h x a (false, s) = Sound m x s (a ∷ h)

answered-Sound :
    {m x : ℕ} {hands : List ℕ} (s : Service) (r : Answer × Kernel)
    → Sound m x s hands
    → Sound m x (answered s r).1 hands
answered-Sound s (done n, k) books = books
answered-Sound s (failed e, k) books = books

port-Sound :
    {m lost : ℕ} {hands : List ℕ} (b : Bool) (s : Service)
    → Sound m lost s hands
    → Sound m lost (if b then server_update_completion_port s else (true, s)).1 hands
unfolding server_update_completion_port
port-Sound true s books = answered-Sound s (ask s.kernel) books
port-Sound false s books = books

pub begun-Begun :
    {m x a : ℕ} {h : List ℕ} (s : Service)
    → is_waiting (s.store a) ≡ 0
    → Sound m x s (a ∷ h)
    → (r : Answer × Kernel) → Begun m h x a (begun a s r)
begun-Begun s e books (done n, k) = begin-Books e books
begun-Begun s e books (failed f, k) = elim (Bool-cases (f == wsa_io_pending)) [
  | inl t ↦ rw t (begin-Books e books)
  | inr t ↦ rw t books
]

read-Begun :
    {m lost a : ℕ} {h : List ℕ} (c : Client) (s : Service)
    → c.cl_file ≡ none
    → Sound m lost s (a ∷ h)
    → Begun m h lost a (server_read_from_client a c s)
unfolding server_read_from_client
read-Begun {a} c s e books =
    let d = record c { aio_opcode = io_opcode_sock_0_bytes_recv } in
    begun-Begun (set_client a d s) (is_waiting-update s a (some d))
      (modify-Books (receiving refl e) books) (ask s.kernel)

module _ {m lost : ℕ} {h : List ℕ} where
  pub more-Sound :
      {a : ℕ} (r : Bool) (s : Service)
      → Sound m lost s (a ∷ h)
      → Sound m lost (server_accept_more_clients (some a) r s) h
  unfolding server_accept_more_clients
  more-Sound {a} r s books = go (ask s.kernel)
    where
      go : (x : Answer × Kernel) → Sound m lost (posted (post_accept r (some a)) s x) h
      go (done n, k) = post-Books r books
      go (failed e, k) = drop-Books books

  pub more_none-Sound :
      (r : Bool) (s : Service)
      → Sound m lost s h
      → Sound m lost (server_accept_more_clients none r s) h
  unfolding server_accept_more_clients
  more_none-Sound r s books = go (ask s.kernel)
    where
      go : (x : Answer × Kernel) → Sound m lost (posted (post_accept r none) s x) h
      go (done n, k) = post_none-Books r books
      go (failed e, k) = books

  fewer-Sound : (s : Service) → Sound m (1 + lost) s h → Sound m lost (fewer_outstanding s) h
  unfolding atomic32_increment
  fewer-Sound s books =
      subst (λ w. Books m lost s.store s.pending s.sv_iocp_accept w s.so_max_outstanding_accepts h)
        (omega (arith, books.accepting, books.below, books.small)) (fewer-Books books)

  after_read-Sound :
      (a : ℕ) (r : Bool × Service) → Begun m h (1 + lost) a r → Sound m lost (after_read a r) h
  after_read-Sound a (true, s) books = more_none-Sound false _ (fewer-Sound s books)
  after_read-Sound a (false, s) books = more-Sound false s (slack-Books 1 books)

  after_port-Sound :
      {a : ℕ} (c : Client) (r : Bool × Service)
      → c.cl_file ≡ none
      → Sound m (1 + lost) r.1 (a ∷ h)
      → Sound m lost (after_port a c r) h
  after_port-Sound c (true, s) e books = after_read-Sound _ _ (read-Begun c s e books)
  after_port-Sound c (false, s) e books = more-Sound false s (slack-Books 1 books)

  pub accept_new-Sound :
      {a : ℕ} (c : Client) (s : Service)
      → c.cl_file ≡ none
      → Sound m (1 + lost) s (a ∷ h)
      → Sound m lost (server_accept_new_connection a c s) h
  unfolding server_accept_new_connection
  accept_new-Sound {a} c s e books =
      go (answered s (ask s.kernel)) (answered-Sound s (ask s.kernel) books)
    where
      go :
          (r : Bool × Service)
          → Sound m (1 + lost) r.1 (a ∷ h)
          → Sound m lost (after_option a c r) h
      go (true, t) b = after_port-Sound c _ e (port-Sound (not c.cl_sock_reused) t b)
      go (false, t) b = more-Sound false t (slack-Books 1 b)
