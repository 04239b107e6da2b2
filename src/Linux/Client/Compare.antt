-- ===== src/Linux/Client/Compare.antt =====
-- server_impl_linux.c: `client_compare`.
use aio_server.Base.{
  ℕ, ◌≡◌, ◌↔◌, refl, Option, none, some, ◌==◌, if◌then◌else◌, ℤ, pos, negsuc, arith,
}
use aio_server.Linux.Client.{Client, gtb, same_fd, client_compare}

-- The sign of a result for the arguments in the other order.
abbrev pub flipped : ℤ → ℤ
flipped (pos n) = if n == 0 then pos 0 else negsuc 0
flipped (negsuc n) = pos 1

compare_fd : Option ℕ → Option ℕ → ℤ
compare_fd a b = if same_fd a b then pos 0 else if gtb a b then pos 1 else negsuc 0

compare_fd-flipped : (a b : Option ℕ) → compare_fd b a ≡ flipped (compare_fd a b)
unfolding compare_fd
compare_fd-flipped none none = refl
compare_fd-flipped none (some n) = refl
compare_fd-flipped (some m) none = refl
compare_fd-flipped (some m) (some n) = ground arith

compare_fd-equal : (a b : Option ℕ) → (compare_fd a b ≡ pos 0) ↔ (a ≡ b)
unfolding compare_fd
compare_fd-equal none none = (λ e. refl, λ e. refl)
compare_fd-equal none (some n) = (λ e. cc e, λ e. cc e)
compare_fd-equal (some m) none = (λ e. cc e, λ e. cc e)
compare_fd-equal (some m) (some n) = (λ e. grind arith, λ e. grind arith)

-- client_compare is 0 exactly for clients with the same socket, and its sign turns round with its
-- arguments.
client_compare-order :
    (x y : Client)
    → ((client_compare x y ≡ pos 0) ↔ (x.cl_sockfd ≡ y.cl_sockfd))
      × (client_compare y x ≡ flipped (client_compare x y))
unfolding client_compare compare_fd
client_compare-order x y =
    (compare_fd-equal x.cl_sockfd y.cl_sockfd, compare_fd-flipped x.cl_sockfd y.cl_sockfd)
