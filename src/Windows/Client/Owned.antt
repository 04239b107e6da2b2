-- ===== src/Windows/Client/Owned.antt =====
-- What a client owns, before and after `client_create`, `client_reinit` and `client_destroy`.
use aio_server.Base.{
  ℕ, ◌≡◌, refl, Bool, true, false, Option, none, some, List, [], ◌∷◌, arith, inl, inr,
}
use aio_server.Kernel.{descriptor, block, Resource, resource, Kernel}
use aio_server.Kernel.Owns.{
  IsOwning, IsOwning-reorder, IsOwning-trans, release-IsOwning, acquire-cases,
}
use aio_server.Windows.Client.{
  io_opcode_connection, Client, client_create, client_reinit, client_destroy, close_valid,
}

abbrev pub handle_owned : Option ℕ → List Resource → List Resource
handle_owned none xs = xs
handle_owned (some n) xs = resource descriptor n ∷ xs

-- In the order in which `client_destroy` gives it back.
abbrev pub client_owned : Client → List Resource → List Resource
client_owned c xs =
    handle_owned c.cl_sock
      (handle_owned c.cl_file (resource block c.cl_buffer ∷ resource block c.cl_address ∷ xs))

pub data Made (k₀ : Kernel) : Option Client × Kernel → Type 0 where
  complete :
      {c : Client} {k : Kernel}
      → c.aio_opcode ≡ io_opcode_connection
      → IsOwning k₀ k (client_owned c [])
      → Made k₀ (some c, k)
  refused : {k : Kernel} → IsOwning k₀ k [] → Made k₀ (none, k)

-- client_create of the Windows server either returns a client for a new connection that has
-- exactly a socket and two blocks, or returns null and has given back all that it took, whichever
-- step fails.
pub create-Made : (k : Kernel) → Made k (client_create k)
unfolding client_create
create-Made k = elim (acquire-cases block k) [
  | inl (g, e, o) ↦ rw e (refused o)
  | inr (p, g, e, o) ↦ rw e (elim (acquire-cases block g) [
    | inl (f, e', q) ↦ rw e' (refused (release-IsOwning (resource block p) (IsOwning-trans o q)))
    | inr (b, f, e', q) ↦
        let o' = IsOwning-trans o q in
        rw e' (elim (acquire-cases descriptor f) [
          | inl (d, e₂, r) ↦ rw e₂ (
              refused (
                release-IsOwning (resource block p)
                  (release-IsOwning (resource block b) (IsOwning-trans o' r))))
          | inr (s, d, e₂, r) ↦ rw e₂ (complete refl (IsOwning-trans o' r))
        ])
  ])
]

close-IsOwning :
    {k₀ k : Kernel} {xs : List Resource} (n : Option ℕ)
    → IsOwning k₀ k (handle_owned n xs)
    → IsOwning k₀ (close_valid n k).1 xs
close-IsOwning none o = o
close-IsOwning (some n) o = release-IsOwning (resource descriptor n) o

-- `client_destroy` gives back exactly the client's handles and blocks, each once.
pub client_destroy-IsOwning :
    {k₀ k : Kernel} {xs : List Resource} (c : Client)
    → IsOwning k₀ k (client_owned c xs)
    → IsOwning k₀ (client_destroy c k).1 xs
unfolding client_destroy
client_destroy-IsOwning c o = release-IsOwning (resource block c.cl_address) (
    release-IsOwning (resource block c.cl_buffer)
      (close-IsOwning c.cl_file (close-IsOwning c.cl_sock o)))

pub swap-IsOwning :
    {k₀ k : Kernel} (xs : List Resource) (m n : Option ℕ)
    → IsOwning k₀ k (handle_owned m (handle_owned n xs))
    → IsOwning k₀ k (handle_owned n (handle_owned m xs))
swap-IsOwning xs none n o = o
swap-IsOwning xs (some m) none o = o
swap-IsOwning xs (some m) (some n) o =
    IsOwning-reorder (resource descriptor n ∷ resource descriptor m ∷ xs) o (λ r. omega arith)

-- A client ready for the next connection: without a file, and without a socket only on failure.
pub data Ready (k₀ : Kernel) (xs : List Resource) : Bool × Client × Kernel → Type 0 where
  again :
      {c : Client} {k : Kernel}
      → c.aio_opcode ≡ io_opcode_connection
      → c.cl_file ≡ none
      → IsOwning k₀ k (client_owned c xs)
      → Ready k₀ xs (true, c, k)
  no_socket :
      {c : Client} {k : Kernel}
      → c.cl_sock ≡ none
      → c.cl_file ≡ none
      → IsOwning k₀ k (client_owned c xs)
      → Ready k₀ xs (false, c, k)

-- client_reinit of the Windows server closes the client's file, and its socket where that is not
-- reused, each once, and leaves held exactly what the client has then: no file, and no socket
-- where it returns FALSE; where it returns TRUE the client waits for a connection.
pub reinit-Ready :
    {k₀ k : Kernel} {xs : List Resource} (reuse : Bool) (c : Client)
    → IsOwning k₀ k (client_owned c xs)
    → Ready k₀ xs (client_reinit reuse c k)
unfolding client_reinit
reinit-Ready true c o =
    again refl refl (close-IsOwning c.cl_file (swap-IsOwning _ c.cl_sock c.cl_file o))
reinit-Ready {k} false c o =
    let closed =
      close-IsOwning c.cl_sock (close-IsOwning c.cl_file (swap-IsOwning _ c.cl_sock c.cl_file o)) in
    elim (acquire-cases descriptor (close_valid c.cl_sock (close_valid c.cl_file k).1).1) [
      | inl (g, e, p) ↦ rw e (no_socket refl refl (IsOwning-trans closed p))
      | inr (s, g, e, p) ↦ rw e (again refl refl (IsOwning-trans closed p))
    ]
