-- ===== src/Windows/Service/Worker.antt =====
-- server_impl_windows.c: the handlers of the worker threads. A handler is one step. `content_of` is
-- what a client's buffer holds after a receive, by the number of the receive's answer.
use aio_server.Base.{
  ℕ, ◌-◌, Bool, true, false, not, Option, none, some, List, [], ◌∷◌, ◌==◌, if◌then◌else◌,
}
use aio_server.Kernel.{descriptor, resource, Answer, done, failed, Kernel, ask, hold, release}
use aio_server.Atomic.{word_mod, atomic32_increment}
use aio_server.HttpCodes.{code_400_bad_request, code_404_not_found, code_500_internal_error}
use aio_server.Windows.Service.Request.{requested_document, resource_path}
use aio_server.Windows.Client.{
  Client, IoOpcode, io_opcode_connection, io_opcode_sock_read, io_opcode_sock_write,
  io_opcode_sock_0_bytes_recv, fixed_head, file_head,
}
use aio_server.Windows.Service.{
  shut_down, Notification, iocp_shut_down, completed, ServerAction, server_stop, server_continue,
  Service, Outcome, use_after_free, stopped, ok, ◌>>=◌, set_client, begun, server_post_message,
  server_accept_more_clients,
}

unfoldable pub server_read_from_client : ℕ → Client → Service → Bool × Service
server_read_from_client a c s =
    begun a (set_client a (record c { aio_opcode = io_opcode_sock_0_bytes_recv }) s) (ask s.kernel)

-- `atomic32_increment(&sv->sv_outstanding_accepts, -1)`
abbrev pub fewer_outstanding : Service → Service
fewer_outstanding s = record s {
  sv_outstanding_accepts = (atomic32_increment s.sv_outstanding_accepts (word_mod - 1)).memory;
}

abbrev pub after_read : ℕ → Bool × Service → Service
after_read a (true, s) = server_accept_more_clients none false (fewer_outstanding s)
after_read a (false, s) = server_accept_more_clients (some a) false s

abbrev pub after_port : ℕ → Client → Bool × Service → Service
after_port a c (true, s) = after_read a (server_read_from_client a c s)
after_port a c (false, s) = server_accept_more_clients (some a) false s

-- `CreateIoCompletionPort` or `setsockopt`, of which only the success matters.
abbrev pub answered : Service → Answer × Kernel → Bool × Service
answered s (done n, k) = (true, record s { kernel = k })
answered s (failed e, k) = (false, record s { kernel = k })

unfoldable pub server_update_completion_port : Service → Bool × Service
server_update_completion_port s = answered s (ask s.kernel)

abbrev pub after_option : ℕ → Client → Bool × Service → Service
after_option a c (true, s) =
    after_port a c (if not c.cl_sock_reused then server_update_completion_port s else (true, s))
after_option a c (false, s) = server_accept_more_clients (some a) false s

unfoldable pub server_accept_new_connection : ℕ → Client → Service → Service
server_accept_new_connection a c s = after_option a c (answered s (ask s.kernel))

-- `GetFileSizeEx` on the file `n`
abbrev pub sized : ℕ → Client → Service → Answer × Kernel → Client × Service
sized n c s (done size, k) =
    (record c { cl_file = some n; cl_ts_buffers = file_head size }, record s { kernel = k })
sized n c s (failed e, k) = (
  record c { cl_file = none; cl_ts_buffers = fixed_head code_500_internal_error },
  record s { kernel = (release (resource descriptor n) k).1 },
)

abbrev pub error_file_not_found : ℕ
error_file_not_found = 2

-- `CreateFile`
abbrev pub file_opened : Client → Service → Answer × Kernel → Client × Service
file_opened c s (done n, k) = sized n c s (ask (hold (resource descriptor n) k).1)
file_opened c s (failed e, k) = (
  record c {
    cl_ts_buffers =
        fixed_head
          (if e == error_file_not_found then code_404_not_found else code_500_internal_error);
  },
  record s { kernel = k },
)

abbrev pub headed : Option (List ℕ) → Client → Service → Client × Service
headed none c s = (record c { cl_ts_buffers = fixed_head code_400_bad_request }, s)
headed (some path) c s =
    file_opened c (record s { opened = resource_path s.so_www_rootdir path ∷ s.opened })
      (ask s.kernel)

-- `TransmitFile`
abbrev pub transmitted : ℕ → Client × Service → Bool × Service
transmitted a (c, s) = begun a (set_client a c s) (ask s.kernel)

-- The client must not have a file yet.
abbrev pub when_closed : Option ℕ → Bool × Service → Outcome (Bool × Service)
when_closed none r = ok r
when_closed (some n) r = stopped

unfoldable pub server_transmit_resource :
    ℕ → Client → Option (List ℕ) → Service → Outcome (Bool × Service)
server_transmit_resource a c path s =
    when_closed c.cl_file
      (transmitted a (headed path (record c { aio_opcode = io_opcode_sock_write }) s))

abbrev pub after_transmit : ℕ → Bool × Service → Outcome Service
after_transmit a (true, s) = ok (server_accept_more_clients none false s)
after_transmit a (false, s) = ok (server_accept_more_clients (some a) false s)

unfoldable pub server_handle_client_write_completion : ℕ → Client → Service → Service
server_handle_client_write_completion a c s =
    server_accept_more_clients (some a) true (set_client a (record c { cl_sock_reused = true }) s)

module _ (content_of : ℕ → List ℕ) where
  -- The blocking receive: `n` is the number of bytes.
  abbrev pub received : ℕ → Client → Service → Answer × Kernel → Outcome Service
  received a c s (failed e, k) =
      ok (server_accept_more_clients (some a) false (record s { kernel = k }))
  received a c s (done n, k) =
      if n == 0
      then ok (server_accept_more_clients (some a) false (record s { kernel = k }))
      else server_transmit_resource a c (requested_document (content_of s.kernel.calls))
          (record s { kernel = k })
        >>= after_transmit a

  abbrev pub request_on : ℕ → Client → Service → IoOpcode → Outcome Service
  request_on a c s io_opcode_sock_0_bytes_recv = received a c s (ask s.kernel)
  request_on a c s io_opcode_connection = stopped
  request_on a c s io_opcode_sock_read = stopped
  request_on a c s io_opcode_sock_write = stopped

  unfoldable pub server_handle_client_request : ℕ → Client → Service → Outcome Service
  server_handle_client_request a c s = request_on a c s c.aio_opcode

  -- A completion with `bytes`, by the opcode: the test for no bytes and the `switch`.
  abbrev pub completion_on : ℕ → ℕ → Client → Service → IoOpcode → Outcome Service
  completion_on bytes a c s io_opcode_connection = ok (server_accept_new_connection a c s)
  completion_on bytes a c s io_opcode_sock_0_bytes_recv = server_handle_client_request a c s
  completion_on bytes a c s io_opcode_sock_write =
      if bytes == 0
      then ok (server_accept_more_clients (some a) false s)
      else ok (server_handle_client_write_completion a c s)
  completion_on bytes a c s io_opcode_sock_read =
      if bytes == 0 then ok (server_accept_more_clients (some a) false s) else stopped

  -- The completion for the client at an address.
  abbrev pub completion_of : ℕ → ℕ → Service → Option Client → Outcome Service
  completion_of bytes a s none = use_after_free
  completion_of bytes a s (some c) = completion_on bytes a c s c.aio_opcode

  unfoldable pub process_completion : ℕ → ℕ → Service → Outcome Service
  process_completion bytes a s = completion_of bytes a s (s.store a)

  unfoldable pub server_process_completions :
      List Notification → Service → Outcome (ServerAction × Service)
  server_process_completions [] s = ok (server_continue, s)
  server_process_completions (iocp_shut_down ∷ ns) s = ok (server_stop, s)
  server_process_completions (completed bytes none ∷ ns) s = stopped
  server_process_completions (completed bytes (some a) ∷ ns) s =
      process_completion bytes a s >>= server_process_completions ns

  -- The batches that the port gives, one for each call that does not fail.
  abbrev pub after_batch : (Service → Outcome Service) → ServerAction × Service → Outcome Service
  after_batch next (server_continue, s) = next s
  after_batch next (server_stop, s) = ok (server_post_message shut_down s)

  unfoldable pub server_worker_thread : List (List Notification) → Service → Outcome Service
  server_worker_thread [] s = ok s
  server_worker_thread (batch ∷ batches) s =
      server_process_completions batch s >>= after_batch (server_worker_thread batches)
