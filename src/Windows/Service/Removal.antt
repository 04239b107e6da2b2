-- ===== src/Windows/Service/Removal.antt =====
-- `server_cleanup_client_data` of server_impl_windows.c: the list is searched by the socket.
use aio_server.Base.{
  ℕ, ◌≡◌, refl, sym, subst, Bool, true, false, Option, none, some, List, [], ◌∷◌, ◌++◌, ◌==◌,
  ==_refl, if◌then◌else◌, inl, inr, Bool-cases,
}
use aio_server.Kernel.{block, Resource, resource, Kernel, release}
use aio_server.Kernel.Owns.{IsOwning, release-IsOwning}
use aio_server.Windows.Client.{Client}
use aio_server.Windows.Client.Owned.{client_owned, client_destroy-IsOwning}
use aio_server.Windows.Service.{Listed, Service, Outcome, stopped, ok, ◌>>=◌}
use aio_server.Windows.Service.Accept.{
  same_socket, socket_ltb, client_compare_fn, remove_equal, removed, server_remove_client_from_list,
  freed, cleanup_of, server_cleanup_client_data,
}

-- The clients that are listed are allocated, and have other sockets than `c`.
pub data Apart (store : ℕ → Option Client) (c : Client) : List Listed → Type 0 where
  nobody : Apart store c []
  apart :
      {x : Listed} {d : Client} {xs : List Listed}
      → store x.item ≡ some d
      → same_socket d.cl_sock c.cl_sock ≡ false
      → Apart store c xs
      → Apart store c (x ∷ xs)

same_socket_refl : (o : Option ℕ) → same_socket o o ≡ true
same_socket_refl none = refl
same_socket_refl (some n) = ==_refl n

abbrev at_node : ℕ → ℕ → Listed
at_node n a = record { node = n; item = a }

-- Only the node of the client itself is taken out.
remove_equal-first :
    {store : ℕ → Option Client} {c : Client} {front : List Listed} (n a : ℕ) (back : List Listed)
    (k : Kernel)
    → Apart store c front
    → store a ≡ some c
    → remove_equal store c (front ++ at_node n a ∷ back) k
      ≡ ok (front ++ back, (release (resource block n) k).1)
unfolding remove_equal client_compare_fn
remove_equal-first {c} n a back k nobody e = rw (e, same_socket_refl c.cl_sock) refl
remove_equal-first {c} n a back k (apart {d} f g others) e =
    rw (f, g)
      (elim (Bool-cases (socket_ltb d.cl_sock c.cl_sock)) [
        | inl t ↦ rw (t, remove_equal-first n a back k others e) refl
        | inr t ↦ rw (t, remove_equal-first n a back k others e) refl
      ])

tested_twice :
    (b : Bool) (x y z : Option Client)
    → (if b then x else if b then y else z) ≡ (if b then x else z)
tested_twice true x y z = refl
tested_twice false x y z = refl

-- The client at `a` is gone, the list is `xs`, and `ys` is held.
pub data CleanedUp (a : ℕ) (s : Service) (xs : List Listed) (k₀ : Kernel) (ys : List Resource)
    : Outcome Service → Type 0 where
  cleaned_up :
      {t : Service}
      → t.sv_clients ≡ xs
      → ((b : ℕ) → t.store b ≡ (if b == a then none else s.store b))
      → IsOwning k₀ t.kernel ys
      → CleanedUp a s xs k₀ ys (ok t)

-- server_cleanup_client_data of a tracked client whose socket no client in front of it in the
-- list has takes exactly its node out of the list, frees its structure and no other, and gives
-- back its node, its handles and its two blocks, each once.
pub cleanup-CleanedUp :
    {k₀ : Kernel} {front : List Listed} {ys : List Resource} (n a : ℕ) (back : List Listed)
    (c : Client) (s : Service)
    → s.sv_clients ≡ front ++ at_node n a ∷ back
    → s.store a ≡ some c
    → c.cl_is_tracked ≡ true
    → Apart s.store c front
    → IsOwning k₀ s.kernel (resource block n ∷ client_owned c ys)
    → CleanedUp a s (front ++ back) k₀ ys (server_cleanup_client_data a s)
unfolding server_cleanup_client_data server_remove_client_from_list
cleanup-CleanedUp {k₀} {front} {ys} n a back c s listed e tracked others o =
    subst (λ u. CleanedUp a s (front ++ back) k₀ ys (cleanup_of a s u)) (sym e)
      (subst
        (λ b. CleanedUp a s (front ++ back) k₀ ys (
          (if b then remove_equal s.store c s.sv_clients s.kernel >>= removed a c s else stopped)
          >>= freed a c))
        (sym tracked)
        (subst (λ r. CleanedUp a s (front ++ back) k₀ ys (r >>= removed a c s >>= freed a c))
          (sym taken_out)
          (cleaned_up refl (λ b. tested_twice (b == a) none _ (s.store b))
            (client_destroy-IsOwning c (release-IsOwning (resource block n) o)))))
  where
    taken_out :
        remove_equal s.store c s.sv_clients s.kernel
        ≡ ok (front ++ back, (release (resource block n) s.kernel).1)
    taken_out =
        subst
          (λ l.
            remove_equal s.store c l s.kernel
            ≡ ok (front ++ back, (release (resource block n) s.kernel).1))
          (sym listed) (remove_equal-first n a back s.kernel others e)
