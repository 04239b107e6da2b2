-- ===== src/Linux/Socket.antt =====
-- server_impl_linux.c: `create_server_socket`.
use aio_server.Base.{ℕ, ◌+◌, not, Option, none, some, [], ◌∷◌, arith, ◌==◌, if◌then◌else◌, inl, inr}
use aio_server.Kernel.{ResourceKind, descriptor, address_list, resource, Kernel, Sys, release}
use aio_server.Kernel.Build.{Build, ◌>>◌, step, attempt, modify}
use aio_server.Kernel.Owns.{
  IsOwning, IsOwning-reorder, IsOwning-trans, release-IsOwning, acquire-cases, ask-cases,
}

-- The local variables. `none` is a null pointer, and the descriptor -1.
pub record Locals : Type 0 where
  pub sv_data : Option ℕ
  pub sock_fd : Option ℕ
  pub stage : ℕ

abbrev pub locals : Locals
locals = record { sv_data = none; sock_fd = none; stage = 0 }

-- `getaddrinfo`, `socket`, `bind` and `listen`, up to `FINISH`.
unfoldable pub socket_steps : Build Locals (Unit {0})
socket_steps = do
  step address_list λ n s. record s { sv_data = some n }
  step descriptor λ n s. record s { sock_fd = some n; stage = s.stage + 1 }
  attempt
  modify λ s. record s { stage = s.stage + 1 }
  attempt
  modify λ s. record s { stage = s.stage + 1 }

abbrev pub release_opt : ResourceKind → Option ℕ → Sys (Unit {0})
release_opt c none k = (tt, k)
release_opt c (some n) k = release (resource c n) k

-- `FINISH`
unfoldable pub socket_finish : Locals → Sys (Option ℕ)
socket_finish s k =
    let k' = (release_opt address_list s.sv_data k).1 in
    if not (s.stage == 3) then (none, (release_opt descriptor s.sock_fd k').1) else (s.sock_fd, k')

abbrev pub socket_end : Option (Unit {0}) × Locals × Kernel → Option ℕ × Kernel
socket_end (_, s, k) = socket_finish s k

unfoldable pub create_server_socket : Sys (Option ℕ)
create_server_socket k = socket_end (socket_steps locals k)

pub data Opened (k₀ : Kernel) : Option ℕ × Kernel → Type 0 where
  opened :
      {fd : ℕ} {k : Kernel} → IsOwning k₀ k (resource descriptor fd ∷ []) → Opened k₀ (some fd, k)
  unopened : {k : Kernel} → IsOwning k₀ k [] → Opened k₀ (none, k)

-- The ends of the function for a socket `fd` and an address list `a`.
module _ {k₀ k : Kernel} (fd a : ℕ)
    (o : IsOwning k₀ k (resource descriptor fd ∷ resource address_list a ∷ [])) where
  keep_socket : IsOwning k₀ (release (resource address_list a) k).1 (resource descriptor fd ∷ [])
  keep_socket = release-IsOwning (resource address_list a) (
      IsOwning-reorder (resource address_list a ∷ resource descriptor fd ∷ []) o (λ r. omega arith))

  drop_socket :
      IsOwning k₀ (release (resource descriptor fd) (release (resource address_list a) k).1).1 []
  drop_socket = release-IsOwning (resource descriptor fd) keep_socket

-- create_server_socket returns a descriptor exactly where it leaves one held, and nothing else
-- that it took stays held, whichever call fails.
pub create_server_socket-Opened : (k : Kernel) → Opened k (create_server_socket k)
unfolding create_server_socket socket_steps socket_finish step attempt
create_server_socket-Opened k = elim (acquire-cases address_list k) [
  | inl (g, e, o) ↦ rw e (unopened o)
  | inr (a, g, e, o) ↦ rw e (elim (acquire-cases descriptor g) [
    | inl (f, e', p) ↦
        rw e' (unopened (release-IsOwning (resource address_list a) (IsOwning-trans o p)))
    | inr (fd, f, e', p) ↦ rw e' (elim (ask-cases f) [
      | inr (x, f', e₂, q, w) ↦
          rw e₂ (unopened (drop_socket fd a (IsOwning-trans (IsOwning-trans o p) q)))
      | inl (x, f', e₂, q, w) ↦
          let o' = IsOwning-trans (IsOwning-trans o p) q in
          rw e₂ (elim (ask-cases f') [
            | inr (y, f₃, e₃, q', w') ↦ rw e₃ (unopened (drop_socket fd a (IsOwning-trans o' q')))
            | inl (y, f₃, e₃, q', w') ↦ rw e₃ (opened (keep_socket fd a (IsOwning-trans o' q')))
          ])
    ])
  ])
]
