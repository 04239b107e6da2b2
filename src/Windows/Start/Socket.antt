-- ===== src/Windows/Start/Socket.antt =====
-- server_impl_windows.c: `create_server_socket`.
use aio_server.Base.{ℕ, Option, none, some, [], ◌∷◌, arith, inl, inr}
use aio_server.Kernel.{descriptor, address_list, resource, Kernel, Sys, release}
use aio_server.Kernel.Build.{Build, ◌>>◌, step, attempt}
use aio_server.Kernel.Owns.{
  IsOwning, IsOwning-reorder, IsOwning-trans, release-IsOwning, acquire-cases, ask-cases,
}
use aio_server.Linux.Socket.{release_opt, Opened, opened, unopened}

-- The local variables: a null pointer and `INVALID_SOCKET` are `none`.
pub record Locals : Type 0 where
  pub svdata : Option ℕ
  pub sv_sock : Option ℕ

abbrev pub no_locals : Locals
no_locals = record { svdata = none; sv_sock = none }

-- `getaddrinfo`, `WSASocket`, `bind` and `listen`.
unfoldable pub listen_steps : Build Locals (Unit {0})
listen_steps = do
  step address_list λ n s. record s { svdata = some n }
  step descriptor λ n s. record s { sv_sock = some n }
  attempt
  attempt
  λ s k. (some tt, s, k)

-- The ends of the function: its return, and `ERR_CLEANUP`.
abbrev pub listen_end : Option (Unit {0}) × Locals × Kernel → Option ℕ × Kernel
listen_end (some u, s, k) = (s.sv_sock, (release_opt address_list s.svdata k).1)
listen_end (none, s, k) =
    (none, (release_opt address_list s.svdata (release_opt descriptor s.sv_sock k).1).1)

unfoldable pub create_server_socket : Sys (Option ℕ)
create_server_socket k = listen_end (listen_steps no_locals k)

-- `ERR_CLEANUP` with both.
dropped :
    {k₀ k : Kernel} (fd a : ℕ)
    → IsOwning k₀ k (resource descriptor fd ∷ resource address_list a ∷ [])
    → IsOwning k₀ (release (resource address_list a) (release (resource descriptor fd) k).1).1 []
dropped fd a o =
    release-IsOwning (resource address_list a) (release-IsOwning (resource descriptor fd) o)

listening :
    {k₀ k : Kernel} (fd a : ℕ)
    → IsOwning k₀ k (resource descriptor fd ∷ resource address_list a ∷ [])
    → IsOwning k₀ (release (resource address_list a) k).1 (resource descriptor fd ∷ [])
listening fd a o =
    release-IsOwning (resource address_list a) (
      IsOwning-reorder (resource address_list a ∷ resource descriptor fd ∷ []) o (λ r. omega arith))

-- The result of the Windows server's function, whichever call fails.
pub create_server_socket-Opened : (k : Kernel) → Opened k (create_server_socket k)
unfolding create_server_socket listen_steps step attempt
create_server_socket-Opened k = elim (acquire-cases address_list k) [
  | inl (g, e, o) ↦ rw e (unopened o)
  | inr (a, g, e, o) ↦ rw e (elim (acquire-cases descriptor g) [
    | inl (f, e', p) ↦
        rw e' (unopened (release-IsOwning (resource address_list a) (IsOwning-trans o p)))
    | inr (fd, f, e', p) ↦ rw e' (elim (ask-cases f) [
      | inr (x, f', e₂, q, w) ↦
          rw e₂ (unopened (dropped fd a (IsOwning-trans (IsOwning-trans o p) q)))
      | inl (x, f', e₂, q, w) ↦
          let o' = IsOwning-trans (IsOwning-trans o p) q in
          rw e₂ (elim (ask-cases f') [
            | inr (y, g', e₃, r, v) ↦ rw e₃ (unopened (dropped fd a (IsOwning-trans o' r)))
            | inl (y, g', e₃, r, v) ↦ rw e₃ (opened (listening fd a (IsOwning-trans o' r)))
          ])
    ])
  ])
]
