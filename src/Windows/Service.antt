-- ===== src/Windows/Service.antt =====
-- server_impl_windows.c: the server's shared state, the posting of messages to its threads, and
-- the start of an operation for a client.
pub mod Accept
pub mod Books
pub mod Filling
pub mod Completions
pub mod Handlers
pub mod Header
pub mod Ledger
pub mod Main
pub mod Moves
pub mod Parsed
pub mod Path
pub mod Progress
pub mod Reachable
pub mod Removal
pub mod Rounds
pub mod Safety
pub mod Sound
pub mod Starving
pub mod Stopping
pub mod System
pub mod Request
mod Tests
pub mod Worker
use aio_server.Base.{
  ℕ, ◌+◌, ◌-◌, Bool, true, false, not, ◌&&◌, ◌||◌, Option, none, some, List, [], ◌∷◌, ◌++◌, ◌==◌,
  if◌then◌else◌, ℤ,
}
use aio_server.Kernel.{descriptor, resource, Answer, done, failed, Kernel, ask, hold, release}
use aio_server.Atomic.{word_mod, atomic32_increment}
use aio_server.HttpCodes.{
  HttpCode, code_400_bad_request, code_404_not_found, code_500_internal_error,
}
use aio_server.Windows.Text.{string_v_printf}
use aio_server.Windows.Service.Request.{requested_document, resource_path}
use aio_server.Windows.Client.{
  Client, IoOpcode, io_opcode_connection, io_opcode_sock_read, io_opcode_sock_write,
  io_opcode_sock_0_bytes_recv, ResponseHead, fixed_head, file_head,
}

-- A message in a port: `kIocpMsgShutDown`, or `kIocpMsgPostAccept` with
-- the option and the client.
pub data Packet : Type 0 where
  shut_down : Packet
  post_accept : Bool → Option ℕ → Packet

-- A node of the list of clients, and the client that it names.
pub record Listed : Type 0 where
  pub node : ℕ
  pub item : ℕ

-- `store` has the structures that are allocated, by their addresses; `sv_clients` is the list of
-- clients from its head. `sv_iocp` and `sv_iocp_accept` have the messages in the two ports, oldest
-- first, and `pending` the clients of the operations whose completion has not been handled yet.
-- `opened` lists the paths given to `CreateFile`, latest first.
pub record Service : Type 0 where
  pub store : ℕ → Option Client
  pub sv_clients : List Listed
  pub sv_outstanding_accepts : ℕ
  pub sv_iocp : List Packet
  pub sv_iocp_accept : List Packet
  pub pending : List ℕ
  pub opened : List (List ℕ)
  pub so_www_rootdir : List ℕ
  pub so_max_outstanding_accepts : ℤ
  pub kernel : Kernel

-- A client's structure is not allocated any more, or a `BUGSTOP_IF` or `D_DBGBREAK` stops the
-- program, or the fuel runs out.
pub data Outcome (R : Type 0) : Type 0 where
  use_after_free stopped out_of_fuel : Outcome R
  ok : R → Outcome R

infixl 5 ◌>>=◌
abbrev pub ◌>>=◌ : {A B : Type 0} → Outcome A → (A → Outcome B) → Outcome B
ok a >>= f = f a
use_after_free >>= f = use_after_free
stopped >>= f = stopped
out_of_fuel >>= f = out_of_fuel

-- `OVERLAPPED_ENTRY`: the key `kIocpMsgShutDown`, or the bytes and the client of an operation.
pub data Notification : Type 0 where
  iocp_shut_down : Notification
  completed : ℕ → Option ℕ → Notification

-- `kServerAction`
pub data ServerAction : Type 0 where
  server_stop server_continue : ServerAction

abbrev pub set_client : ℕ → Client → Service → Service
set_client a c s = record s { store = λ b. if b == a then some c else s.store b }

abbrev pub wsa_io_pending : ℕ
wsa_io_pending = 997

-- `PostQueuedCompletionStatus` to the accepting thread; no caller looks at the result.
abbrev pub posted : Packet → Service → Answer × Kernel → Service
posted p s (done n, k) = record s { kernel = k; sv_iocp_accept = s.sv_iocp_accept ++ p ∷ [] }
posted p s (failed e, k) = record s { kernel = k }

abbrev pub posted_to_workers : Packet → Service → Answer × Kernel → Service
posted_to_workers p s (done n, k) = record s { kernel = k; sv_iocp = s.sv_iocp ++ p ∷ [] }
posted_to_workers p s (failed e, k) = record s { kernel = k }

unfoldable pub server_post_message : Packet → Service → Service
server_post_message p s = posted_to_workers p s (ask s.kernel)

-- The events of a console; but at the end of a session the user is asked first.
pub data ControlType : Type 0 where
  ctrl_logoff_event ctrl_shutdown_event ctrl_other : ControlType

-- The two calls of `PostQueuedCompletionStatus`.
abbrev pub shut_down_both : Service → Service
shut_down_both s =
    let told = server_post_message shut_down s in posted shut_down told (ask told.kernel)

abbrev pub idok : ℕ
idok = 1

abbrev pub confirmed : Service → Answer × Kernel → Service
confirmed s (done n, k) =
    if n == idok then shut_down_both (record s { kernel = k }) else record s { kernel = k }
confirmed s (failed e, k) = record s { kernel = k }

unfoldable pub server_control_handler : ControlType → Service → Service
server_control_handler ctrl_logoff_event s = shut_down_both s
server_control_handler ctrl_shutdown_event s = shut_down_both s
server_control_handler ctrl_other s = confirmed s (ask s.kernel)

unfoldable pub server_accept_more_clients : Option ℕ → Bool → Service → Service
server_accept_more_clients cl reuse s = posted (post_accept reuse cl) s (ask s.kernel)

-- An overlapped operation for a client: done at once or pending, its completion will come.
abbrev pub begun : ℕ → Service → Answer × Kernel → Bool × Service
begun a s (done n, k) = (true, record s { kernel = k; pending = a ∷ s.pending })
begun a s (failed e, k) =
    if e == wsa_io_pending
    then (true, record s { kernel = k; pending = a ∷ s.pending })
    else (false, record s { kernel = k })
