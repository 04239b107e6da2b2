-- ===== src/Windows/Service/Ledger/Requests.antt =====
-- The answer to a request, the completions and the ledger of the Windows server.
use aio_server.Base.{
  ℕ, ◌≡◌, refl, sym, subst, Bool, true, false, Option, none, some, List, [], ◌∷◌, ◌==◌, inl, inr,
  Bool-cases, Option-cases,
}
use aio_server.Kernel.{block, descriptor, resource, Answer, done, failed, Kernel, ask, hold}
use aio_server.Kernel.Owns.{IsOwning, ask-IsOwning, hold-IsOwning, release-IsOwning}
use aio_server.Windows.Client.{
  Client, IoOpcode, io_opcode_connection, io_opcode_sock_read, io_opcode_sock_write,
  io_opcode_sock_0_bytes_recv,
}
use aio_server.Windows.Client.Owned.{client_owned, handle_owned, swap-IsOwning}
use aio_server.Windows.Service.{Service, set_client}
use aio_server.Windows.Service.Request.{requested_document, resource_path}
use aio_server.Windows.Service.Worker.{
  sized, file_opened, headed, transmitted, when_closed, server_transmit_resource, after_transmit,
  server_handle_client_write_completion, received, request_on, server_handle_client_request,
  completion_on, completion_of, process_completion,
}
use aio_server.Windows.Service.Ledger.{Ledger, Keeping, rest, opened, closed, quiet, others}
use aio_server.Windows.Service.Ledger.Workers.{
  asked, more-Keeping, modified, begun-Keeping, accept-Keeping,
}
use aio_server.Windows.Service.Books.{update}
use aio_server.Windows.Service.Sound.{Allowed, broken, faulty, allowed, >>=-Allowed}

-- The client with its head, and the state it was chosen in: beside `f` just the client is owned.
abbrev Chosen : Kernel → Service → Client × Service → Type 0
Chosen f s (c, t) =
    (t.store ≡ s.store) × (t.sv_clients ≡ s.sv_clients) × IsOwning f t.kernel (client_owned c [])

module _ {f : Kernel} (c : Client) (no_file : c.cl_file ≡ none) where
  -- A file for a client that has none.
  with_file :
      {k : Kernel} (n : ℕ)
      → IsOwning f k (resource descriptor n ∷ client_owned c [])
      → IsOwning f k (client_owned (record c { cl_file = some n }) [])
  with_file {k} n o =
      swap-IsOwning (resource block c.cl_buffer ∷ resource block c.cl_address ∷ []) (some n)
        c.cl_sock
        (subst
          (λ h. IsOwning f k (
            resource descriptor n
            ∷ handle_owned c.cl_sock
                (handle_owned h (resource block c.cl_buffer ∷ resource block c.cl_address ∷ []))))
          no_file o)

  without_file :
      {k : Kernel}
      → IsOwning f k (client_owned c [])
      → IsOwning f k (client_owned (record c { cl_file = none }) [])
  without_file {k} o =
      subst
        (λ h. IsOwning f k (
          handle_owned c.cl_sock
            (handle_owned h (resource block c.cl_buffer ∷ resource block c.cl_address ∷ []))))
        no_file o

  sized-Chosen :
      (n : ℕ) (s : Service) (r : Answer × Kernel)
      → IsOwning f r.1 (resource descriptor n ∷ client_owned c [])
      → Chosen f s (sized n c s r)
  sized-Chosen n s (done size, k) o = (refl, refl, with_file n o)
  sized-Chosen n s (failed e, k) o =
      (refl, refl, without_file (release-IsOwning (resource descriptor n) o))

  opened-Chosen :
      (s : Service) (r : Answer × Kernel)
      → IsOwning f r.1 (client_owned c [])
      → Chosen f s (file_opened c s r)
  opened-Chosen s (done n, k) o =
      sized-Chosen n s (ask (hold (resource descriptor n) k).1)
        (ask-IsOwning (hold-IsOwning (resource descriptor n) o))
  opened-Chosen s (failed e, k) o = (refl, refl, o)

  headed-Chosen :
      (path : Option (List ℕ)) (s : Service)
      → IsOwning f s.kernel (client_owned c [])
      → Chosen f s (headed path c s)
  headed-Chosen none s o = (refl, refl, o)
  headed-Chosen (some path) s o =
      opened-Chosen (record s { opened = resource_path s.so_www_rootdir path ∷ s.opened })
        (ask s.kernel) (ask-IsOwning o)

-- A result with a state that keeps the ledger.
abbrev KeptBy : Kernel → Bool × Service → Type 0
KeptBy k₀ (t, s) = Keeping k₀ s

module _ {k₀ : Kernel} where
  transmitted-Keeping :
      (a : ℕ) (c : Client) (s : Service) (b : Keeping k₀ s) (alive : s.store a ≡ some c)
      (r : Client × Service)
      → Chosen (rest k₀ s.store s.sv_clients (others b a c alive)) s r
      → Keeping k₀ (transmitted a r).1
  transmitted-Keeping a c s b alive (c', t) (e, e', o) =
      begun-Keeping a (set_client a c' t) (ask t.kernel) (asked t.kernel) (
        subst (λ st. Ledger k₀ (update st a (some c')) t.sv_clients t.kernel) (sym e)
          (subst (λ l. Ledger k₀ (update s.store a (some c')) l t.kernel) (sym e')
            (closed b a c alive c' o)))

  when_closed-Allowed :
      (f : Option ℕ) (r : Bool × Service)
      → (f ≡ none → KeptBy k₀ r)
      → Allowed (KeptBy k₀) (when_closed f r)
  when_closed-Allowed none (t, s) h = allowed (h refl)
  when_closed-Allowed (some n) r h = broken

  transmit-Allowed :
      (a : ℕ) (c : Client) (path : Option (List ℕ)) (s : Service)
      → s.store a ≡ some c
      → Keeping k₀ s
      → Allowed (KeptBy k₀) (server_transmit_resource a c path s)
  unfolding server_transmit_resource
  transmit-Allowed a c path s alive b =
      let c' = record c { aio_opcode = io_opcode_sock_write } in
      when_closed-Allowed c.cl_file (transmitted a (headed path c' s)) (λ no_file.
        transmitted-Keeping a c s b alive (headed path c' s)
          (headed-Chosen c' no_file path s (opened b a c alive)))

  after_transmit-Keeping :
      (a : ℕ) (r : Bool × Service) → KeptBy k₀ r → Allowed (Keeping k₀) (after_transmit a r)
  after_transmit-Keeping a (true, s) b = allowed (more-Keeping none false s b)
  after_transmit-Keeping a (false, s) b = allowed (more-Keeping (some a) false s b)

  write-Keeping :
      (a : ℕ) (c : Client) (s : Service)
      → s.store a ≡ some c
      → Keeping k₀ s
      → Keeping k₀ (server_handle_client_write_completion a c s)
  unfolding server_handle_client_write_completion
  write-Keeping a c s alive b =
      let c' = record c { cl_sock_reused = true } in
      more-Keeping (some a) true (set_client a c' s) (modified a c c' s alive refl b)

module _ {k₀ : Kernel} (content_of : ℕ → List ℕ) (a : ℕ) (c : Client) (s : Service)
    (alive : s.store a ≡ some c) (b : Keeping k₀ s) where
  received-Allowed :
      (r : Answer × Kernel)
      → IsOwning s.kernel r.1 []
      → Allowed (Keeping k₀) (received content_of a c s r)
  received-Allowed (failed e, k) o =
      allowed (more-Keeping (some a) false (record s { kernel = k }) (quiet b o))
  received-Allowed (done n, k) o = elim (Bool-cases (n == 0)) [
    | inl none_read ↦
        rw none_read (allowed (more-Keeping (some a) false (record s { kernel = k }) (quiet b o)))
    | inr some_read ↦ rw some_read (
        >>=-Allowed (after_transmit a) (after_transmit-Keeping a) (
          transmit-Allowed a c (requested_document (content_of s.kernel.calls))
            (record s { kernel = k }) alive (quiet b o)))
  ]

  request-Allowed : (op : IoOpcode) → Allowed (Keeping k₀) (request_on content_of a c s op)
  request-Allowed io_opcode_sock_0_bytes_recv = received-Allowed (ask s.kernel) (asked s.kernel)
  request-Allowed io_opcode_connection = broken
  request-Allowed io_opcode_sock_read = broken
  request-Allowed io_opcode_sock_write = broken

  completion-Allowed :
      (bytes : ℕ) (op : IoOpcode) → Allowed (Keeping k₀) (completion_on content_of bytes a c s op)
  unfolding server_handle_client_request
  completion-Allowed bytes io_opcode_connection = allowed (accept-Keeping a c s alive b)
  completion-Allowed bytes io_opcode_sock_0_bytes_recv = request-Allowed c.aio_opcode
  completion-Allowed bytes io_opcode_sock_write = elim (Bool-cases (bytes == 0)) [
    | inl e ↦ rw e (allowed (more-Keeping (some a) false s b))
    | inr e ↦ rw e (allowed (write-Keeping a c s alive b))
  ]
  completion-Allowed bytes io_opcode_sock_read = elim (Bool-cases (bytes == 0)) [
    | inl e ↦ rw e (allowed (more-Keeping (some a) false s b))
    | inr e ↦ rw e broken
  ]

pub process-Allowed :
    {k₀ : Kernel} (content_of : ℕ → List ℕ) (bytes a : ℕ) (s : Service)
    → Keeping k₀ s
    → Allowed (Keeping k₀) (process_completion content_of bytes a s)
unfolding process_completion
process-Allowed {k₀} content_of bytes a s b = elim (Option-cases (s.store a)) [
  | inl free ↦ rw free faulty
  | inr (c, alive) ↦
      subst (λ o. Allowed (Keeping k₀) (completion_of content_of bytes a s o)) (sym alive)
        (completion-Allowed content_of a c s alive b bytes c.aio_opcode)
]
