-- ===== src/Linux/Client/Owned.antt =====
-- What a client owns, and what `client_create` and `client_destroy` do with it.
use aio_server.Base.{ℕ, ◌≡◌, refl, Option, none, some, List, ◌∷◌, arith, inl, inr}
use aio_server.Kernel.{descriptor, block, Resource, resource, Kernel}
use aio_server.Kernel.Owns.{
  IsOwning, IsOwning-reorder, release-IsOwning, acquire-cases, IsOwning-trans,
}
use aio_server.Linux.Client.{Client, client_create, client_destroy, close_opt}

abbrev pub fd_owned : Option ℕ → List Resource → List Resource
fd_owned none xs = xs
fd_owned (some fd) xs = resource descriptor fd ∷ xs

-- What the client owns in front of `xs`, in the order in which `client_destroy` gives it back.
abbrev pub client_owned : Client → List Resource → List Resource
client_owned c xs =
    fd_owned c.cl_filefd
      (fd_owned c.cl_sockfd (resource block c.cl_buffer ∷ resource block c.cl_address ∷ xs))

-- `xs` is what is owned beside the socket `fd`. The socket goes to the client that is created; it
-- stays with the caller where there is no memory for the structure; and it is closed where there
-- is none for the buffer.
pub data Created (k₀ : Kernel) (fd : ℕ) (xs : List Resource) : Option Client × Kernel → Type 0 where
  made :
      {c : Client} {k : Kernel}
      → c.cl_sockfd ≡ some fd
      → c.cl_filefd ≡ none
      → IsOwning k₀ k (client_owned c xs)
      → Created k₀ fd xs (some c, k)
  kept : {k : Kernel} → IsOwning k₀ k (resource descriptor fd ∷ xs) → Created k₀ fd xs (none, k)
  closed : {k : Kernel} → IsOwning k₀ k xs → Created k₀ fd xs (none, k)

-- Where the socket is held, client_create either returns a client that has the socket and two
-- blocks, or returns null: with the socket still held where there is no memory for the structure,
-- and with the socket closed where there is none for the buffer.
pub client_create-Created :
    {k₀ : Kernel} (fd : ℕ) (xs : List Resource) (k : Kernel)
    → IsOwning k₀ k (resource descriptor fd ∷ xs)
    → Created k₀ fd xs (client_create fd k)
unfolding client_create
client_create-Created {k₀} fd xs k o = elim (acquire-cases block k) [
  | inl (g, e, p) ↦ rw e (kept (IsOwning-trans o p))
  | inr (p, g, e, q) ↦
      let o' = IsOwning-trans o q in
      rw e (elim (acquire-cases block g) [
        | inl (f, e', r) ↦
            let o'' =
              IsOwning-reorder (resource descriptor fd ∷ resource block p ∷ xs)
                (IsOwning-trans o' r) (λ s. omega arith) in
            rw e' (
              closed (
                release-IsOwning (resource block p)
                  (release-IsOwning (resource descriptor fd) o'')))
        | inr (b, f, e', r) ↦ rw e' (
            made refl refl (
              IsOwning-reorder (resource descriptor fd ∷ resource block b ∷ resource block p ∷ xs)
                (IsOwning-trans o' r) (λ s. omega arith)))
      ])
]

close-IsOwning :
    {k₀ k : Kernel} {xs : List Resource} (fd : Option ℕ)
    → IsOwning k₀ k (fd_owned fd xs)
    → IsOwning k₀ (close_opt fd k).1 xs
close-IsOwning none o = o
close-IsOwning (some n) o = release-IsOwning (resource descriptor n) o

-- client_destroy gives back exactly the client's open descriptors and its two blocks, each once.
pub client_destroy-IsOwning :
    {k₀ k : Kernel} {xs : List Resource} (c : Client)
    → IsOwning k₀ k (client_owned c xs)
    → IsOwning k₀ (client_destroy c k).1 xs
unfolding client_destroy
client_destroy-IsOwning c o = release-IsOwning (resource block c.cl_address) (
    release-IsOwning (resource block c.cl_buffer)
      (close-IsOwning c.cl_sockfd (close-IsOwning c.cl_filefd o)))
