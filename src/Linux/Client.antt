-- ===== src/Linux/Client.antt =====
-- server_impl_linux.c: `struct client`, its creation, destruction and comparison.
pub mod Compare
pub mod Owned
pub mod Watched
use aio_server.Base.{
  ℕ, ◌+◌, Bool, true, false, Option, none, some, ◌==◌, if◌then◌else◌, ltb, ℤ, pos, negsuc,
}
use aio_server.Kernel.{descriptor, block, resource, Kernel, Sys, pure, ◌>>◌, acquire, release}

-- A descriptor is `none` where the field holds -1. `cl_address` is the block of the structure,
-- `cl_buffer` that of its buffer.
pub record Client : Type 0 where
  pub cl_address : ℕ
  pub cl_sockfd : Option ℕ
  pub cl_filefd : Option ℕ
  pub cl_buffer : ℕ

-- The second allocation; where it fails, `ERR_CLEANUP` closes the socket and frees the structure.
abbrev pub buffer_from : ℕ → ℕ → Option ℕ × Kernel → Option Client × Kernel
buffer_from fd p (some b, k) =
    (some (record { cl_address = p; cl_sockfd = some fd; cl_filefd = none; cl_buffer = b }), k)
buffer_from fd p (none, k) =
    (none, ((release (resource descriptor fd) >> release (resource block p)) k).1)

abbrev pub create_from : ℕ → Option ℕ × Kernel → Option Client × Kernel
create_from fd (none, k) = (none, k)
create_from fd (some p, k) = buffer_from fd p (acquire block k)

unfoldable pub client_create : ℕ → Sys (Option Client)
client_create fd k = create_from fd (acquire block k)

-- `close` under the test for -1
abbrev pub close_opt : Option ℕ → Sys (Unit {0})
close_opt none = pure tt
close_opt (some fd) = release (resource descriptor fd)

unfoldable pub client_destroy : Client → Sys (Unit {0})
client_destroy c =
    close_opt c.cl_filefd
    >> close_opt c.cl_sockfd
    >> release (resource block c.cl_buffer)
    >> release (resource block c.cl_address)

-- The two tests of `client_compare`, where `none` is -1.
abbrev pub gtb : Option ℕ → Option ℕ → Bool
gtb none b = false
gtb (some m) none = true
gtb (some m) (some n) = ltb n m

abbrev pub same_fd : Option ℕ → Option ℕ → Bool
same_fd none none = true
same_fd none (some n) = false
same_fd (some m) none = false
same_fd (some m) (some n) = m == n

unfoldable pub client_compare : Client → Client → ℤ
client_compare x y =
    if same_fd x.cl_sockfd y.cl_sockfd
    then pos 0
    else if gtb x.cl_sockfd y.cl_sockfd
    then pos 1
    else negsuc 0
