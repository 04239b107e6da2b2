-- ===== src/Windows/Service/Completions.antt =====
-- The completions that the operating system owes the Windows server, and the books.
use aio_server.Base.{
  ℕ, ◌+◌, ◌<◌, ◌≡◌, refl, Bool, true, false, Option, none, some, List, ◌∷◌, ◌==◌, subst, sym, ◌∙◌,
  inl, inr, Bool-cases,
}
use aio_server.Kernel.{Answer, done, failed, Kernel, ask, descriptor, resource, hold}
use aio_server.Windows.Client.{
  Client, io_opcode_connection, io_opcode_sock_write, io_opcode_sock_0_bytes_recv,
}
use aio_server.Windows.Service.{◌>>=◌, Service, set_client}
use aio_server.Windows.Service.Worker.{
  when_closed, completion_on, completion_of, request_on, sized, file_opened, headed, transmitted,
  server_transmit_resource, after_transmit, received, server_handle_client_request,
  server_handle_client_write_completion, process_completion,
}
use aio_server.Windows.Service.Request.{requested_document, resource_path}
use aio_server.Windows.Service.Books.{is_waiting, Proper, sending, connecting, receiving, count}
use aio_server.Windows.Service.Sound.{Sound, Kept, kept, taken}
use aio_server.Windows.Service.Moves.{take-Books, modify-Books, slack-Books, hand-alive}
use aio_server.Windows.Service.Handlers.{
  is_waiting-update, Begun, begun-Begun, more-Sound, more_none-Sound, accept_new-Sound,
}

-- The buffers for an answer are those of a client that sends one, whatever there is to send.
abbrev Headed : ℕ → ℕ → List ℕ → Client × Service → Type 0
Headed m lost hands (c, s) = (c.aio_opcode ≡ io_opcode_sock_write) × Sound m lost s hands

module _ {m lost : ℕ} {hands : List ℕ} where
  sized-Headed :
      (n : ℕ) (c : Client) (s : Service)
      → c.aio_opcode ≡ io_opcode_sock_write
      → Sound m lost s hands
      → (r : Answer × Kernel) → Headed m lost hands (sized n c s r)
  sized-Headed n c s e books (done size, k) = (e, books)
  sized-Headed n c s e books (failed f, k) = (e, books)

  opened-Headed :
      (c : Client) (s : Service)
      → c.aio_opcode ≡ io_opcode_sock_write
      → Sound m lost s hands
      → (r : Answer × Kernel) → Headed m lost hands (file_opened c s r)
  opened-Headed c s e books (done n, k) =
      sized-Headed n c s e books (ask (hold (resource descriptor n) k).1)
  opened-Headed c s e books (failed f, k) = (e, books)

  headed-Headed :
      (path : Option (List ℕ)) (c : Client) (s : Service)
      → c.aio_opcode ≡ io_opcode_sock_write
      → Sound m lost s hands
      → Headed m lost hands (headed path c s)
  headed-Headed none c s e books = (e, books)
  headed-Headed (some path) c s e books =
      opened-Headed c (record s { opened = resource_path s.so_www_rootdir path ∷ s.opened }) e books
        (ask s.kernel)

not_waiting : (c : Client) → c.aio_opcode ≡ io_opcode_sock_write → is_waiting (some c) ≡ 0
not_waiting c e = rw e refl

pub waiting_one : (c : Client) → c.aio_opcode ≡ io_opcode_connection → is_waiting (some c) ≡ 1
waiting_one c e = rw e refl

module _ {m lost : ℕ} {h : List ℕ} where
  transmitted-Begun :
      (a : ℕ) (r : Client × Service) → Headed m lost (a ∷ h) r → Begun m h lost a (transmitted a r)
  transmitted-Begun a (c, s) (e, books) =
      begun-Begun (set_client a c s) (is_waiting-update s a (some c) ∙ not_waiting c e)
        (modify-Books (sending e) books) (ask s.kernel)

  after_transmit-Kept :
      (a : ℕ) (r : Bool × Service) → Begun m h lost a r → Kept m lost h (after_transmit a r)
  after_transmit-Kept a (true, s) books = kept (more_none-Sound false s books)
  after_transmit-Kept a (false, s) books = kept (more-Sound false s books)

  closed-Kept :
      (a : ℕ) (f : Option ℕ) (r : Bool × Service)
      → f ≡ none
      → Begun m h lost a r
      → Kept m lost h (when_closed f r >>= after_transmit a)
  closed-Kept a none r e books = after_transmit-Kept a r books
  closed-Kept a (some n) r e books = absurd (cc e)

  transmit-Kept :
      (a : ℕ) (c : Client) (path : Option (List ℕ)) (s : Service)
      → c.cl_file ≡ none
      → Sound m lost s (a ∷ h)
      → Kept m lost h (server_transmit_resource a c path s >>= after_transmit a)
  unfolding server_transmit_resource
  transmit-Kept a c path s e books =
      let d = record c { aio_opcode = io_opcode_sock_write } in
      closed-Kept a c.cl_file _ e (transmitted-Begun a _ (headed-Headed path d s refl books))

  module _ (content_of : ℕ → List ℕ) where
    received-Kept :
        (a : ℕ) (c : Client) (s : Service)
        → c.cl_file ≡ none
        → Sound m lost s (a ∷ h)
        → (r : Answer × Kernel) → Kept m lost h (received content_of a c s r)
    received-Kept a c s e books (failed f, k) = kept (more-Sound false _ books)
    received-Kept a c s e books (done n, k) = elim (Bool-cases (n == 0)) [
      | inl t ↦ rw t (kept (more-Sound false _ books))
      | inr t ↦ rw t (transmit-Kept a c (requested_document (content_of s.kernel.calls)) _ e books)
    ]

    request-Kept :
        (a : ℕ) (c : Client) (s : Service)
        → c.aio_opcode ≡ io_opcode_sock_0_bytes_recv
        → c.cl_file ≡ none
        → Sound m lost s (a ∷ h)
        → Kept m lost h (server_handle_client_request content_of a c s)
    unfolding server_handle_client_request
    request-Kept a c s e f books =
        subst (λ o. Kept m lost h (request_on content_of a c s o)) (sym e)
          (received-Kept a c s f books (ask s.kernel))

    write-Kept :
        (bytes a : ℕ) (c : Client) (s : Service)
        → c.aio_opcode ≡ io_opcode_sock_write
        → Sound m lost s (a ∷ h)
        → Kept m lost h (completion_on content_of bytes a c s io_opcode_sock_write)
    unfolding server_handle_client_write_completion
    write-Kept bytes a c s e books = elim (Bool-cases (bytes == 0)) [
      | inl t ↦ rw t (kept (more-Sound false s books))
      | inr t ↦ rw t (
          kept (
            more-Sound true (set_client a (record c { cl_sock_reused = true }) s)
              (modify-Books (sending e) books)))
    ]

    completion-Kept :
        (bytes a : ℕ) (c : Client) (s : Service)
        → Proper c
        → Sound m (is_waiting (some c) + lost) s (a ∷ h)
        → Kept m lost h (completion_of content_of bytes a s (some c))
    completion-Kept bytes a c s good books =
        let on = completion_on content_of bytes a c s in
        elim good [
          | sending e ↦
              subst (λ o. Kept m lost h (on o)) (sym e)
                (write-Kept bytes a c s e (slack-Books (is_waiting (some c)) books))
          | connecting e f ↦
              subst (λ o. Kept m lost h (on o)) (sym e)
                (kept (
                  accept_new-Sound c s f
                    (subst (λ x. Sound m (x + lost) s (a ∷ h)) (waiting_one c e) books)))
          | receiving e f ↦
              subst (λ o. Kept m lost h (on o)) (sym e)
                (request-Kept a c s e f (slack-Books (is_waiting (some c)) books))
        ]

    -- A worker's handling of a completion that the operating system owes comes to its end.
    pub process-Kept :
        (bytes a : ℕ) (s : Service)
        → 0 < count a s.pending
        → Sound m lost s h
        → Kept m lost h (process_completion content_of bytes a (taken a s))
    unfolding process_completion
    process-Kept bytes a s has books = with_client (hand-alive all)
      where
        all : Sound m (is_waiting (s.store a) + lost) (taken a s) (a ∷ h)
        all = take-Books has books

        with_client :
            ((c : Client) × (s.store a ≡ some c))
            → Kept m lost h (completion_of content_of bytes a (taken a s) (s.store a))
        with_client (c, e) =
            subst (λ o. Kept m lost h (completion_of content_of bytes a (taken a s) o)) (sym e)
              (completion-Kept bytes a c (taken a s) (books.proper a c e)
                (subst (λ o. Sound m (is_waiting o + lost) (taken a s) (a ∷ h)) e all))
