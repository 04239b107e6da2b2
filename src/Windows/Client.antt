-- ===== src/Windows/Client.antt =====
-- server_impl_windows.c: `struct client`, its creation, reuse and destruction. The results of
-- `shutdown` and `setsockopt` are not looked at, and these calls are not in the model.
pub mod Owned
use aio_server.Base.{ℕ, Bool, true, false, Option, none, some, if◌then◌else◌}
use aio_server.HttpCodes.{HttpCode}
use aio_server.Kernel.{descriptor, block, resource, Kernel, Sys, pure, ◌>>◌, acquire, release}

-- `kIOOpcode`
pub data IoOpcode : Type 0 where
  io_opcode_connection io_opcode_sock_read io_opcode_sock_write io_opcode_sock_0_bytes_recv :
      IoOpcode

-- `Head` of the buffers for `TransmitFile`, with its length: nothing yet, a fixed text of the
-- table, or the header of 200 for a file of a size.
pub data ResponseHead : Type 0 where
  no_head : ResponseHead
  fixed_head : HttpCode → ResponseHead
  file_head : ℕ → ResponseHead

-- `INVALID_SOCKET` and `INVALID_HANDLE_VALUE` are `none`; `cl_address` is the block of the
-- structure, `cl_buffer` that of its buffer.
pub record Client : Type 0 where
  pub cl_address : ℕ
  pub aio_opcode : IoOpcode
  pub cl_sock : Option ℕ
  pub cl_buffer : ℕ
  pub cl_file : Option ℕ
  pub cl_ts_buffers : ResponseHead
  pub cl_is_tracked : Bool
  pub cl_sock_reused : Bool

-- The client in the block `p` with the buffer `b` and the socket `s`.
abbrev pub new_client : ℕ → ℕ → ℕ → Client
new_client p b s = record {
  cl_address = p;
  aio_opcode = io_opcode_connection;
  cl_sock = some s;
  cl_buffer = b;
  cl_file = none;
  cl_ts_buffers = no_head;
  cl_is_tracked = false;
  cl_sock_reused = false;
}

-- `create_overlapped_socket`
abbrev pub create_overlapped_socket : Sys (Option ℕ)
create_overlapped_socket = acquire descriptor

-- The three steps of `client_create`; where one fails, `ERR_CLEANUP` frees what there is.
abbrev pub with_socket : ℕ → ℕ → Option ℕ × Kernel → Option Client × Kernel
with_socket p b (some s, k) = (some (new_client p b s), k)
with_socket p b (none, k) = (none, ((release (resource block b) >> release (resource block p)) k).1)

abbrev pub with_buffer : ℕ → Option ℕ × Kernel → Option Client × Kernel
with_buffer p (some b, k) = with_socket p b (create_overlapped_socket k)
with_buffer p (none, k) = (none, (release (resource block p) k).1)

abbrev pub with_structure : Option ℕ × Kernel → Option Client × Kernel
with_structure (some p, k) = with_buffer p (acquire block k)
with_structure (none, k) = (none, k)

unfoldable pub client_create : Sys (Option Client)
client_create k = with_structure (acquire block k)

abbrev pub close_valid : Option ℕ → Sys (Unit {0})
close_valid none = pure tt
close_valid (some n) = release (resource descriptor n)

abbrev pub renewed : Client → Option ℕ × Kernel → Bool × Client × Kernel
renewed c (some s, k) = (true, record c { cl_sock = some s }, k)
renewed c (none, k) = (false, record c { cl_sock = none }, k)

-- The flag is cleared where a socket is closed.
abbrev pub not_reused : Client → Bool
not_reused c = elim c.cl_sock [ some s ↦ false | none ↦ c.cl_sock_reused ]

unfoldable pub client_reinit : Bool → Client → Kernel → Bool × Client × Kernel
client_reinit true c k = (
  true,
  record c { aio_opcode = io_opcode_connection; cl_file = none },
  (close_valid c.cl_file k).1,
)
client_reinit false c k =
    renewed
      (record c {
        aio_opcode = io_opcode_connection;
        cl_file = none;
        cl_sock_reused = not_reused c;
      })
      (create_overlapped_socket ((close_valid c.cl_file >> close_valid c.cl_sock) k).1)

unfoldable pub client_destroy : Client → Sys (Unit {0})
client_destroy c =
    close_valid c.cl_sock
    >> close_valid c.cl_file
    >> release (resource block c.cl_buffer)
    >> release (resource block c.cl_address)
