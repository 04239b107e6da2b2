-- ===== src/Windows/Start/Init.antt =====
-- server_impl_windows.c: `server_init`.
use aio_server.Base.{
  ℕ, zero, suc, ◌+◌, ◌*◌, ◌%◌, Bool, true, false, Option, none, some, [], ◌∷◌, ◌++◌, ◌==◌, ltb,
  if◌then◌else◌,
}
use aio_server.Kernel.{
  descriptor, block, thread, client_list, winsock, lock, resource, Answer, done, failed, Kernel,
  Sys, ask, acquire,
}
use aio_server.Atomic.{word_mod}
use aio_server.Windows.Service.{wsa_io_pending}
use aio_server.Kernel.Build.{Build, ◌>>◌, step, step_by, attempt, modify, check_by, also}
use aio_server.Windows.Start.{Server, zeroed, undo_init}
use aio_server.Windows.Start.Socket.{create_server_socket}

-- `++rollback`
abbrev pub raised : Server → Server
raised s = record s { rollback = s.rollback + 1 }

-- The result of `dlist_create` is tested, but the function goes on without a list.
abbrev pub with_list : Server → Option ℕ × Kernel → Option (Unit {0}) × Server × Kernel
with_list s (l, k) = (some tt, raised (record s { sv_clients = l }), k)

unfoldable pub list_step : Build Server (Unit {0})
list_step s k = with_list s (acquire client_list k)

-- The answers to `WSAIoctl` and, where that is pending, to the last `WSAGetOverlappedResult`.
abbrev pub polled : Answer × Kernel → Bool × Kernel
polled (done n, k) = (true, k)
polled (failed e, k) = (false, k)

abbrev pub ioctl_done : Answer × Kernel → Bool × Kernel
ioctl_done (done n, k) = (true, k)
ioctl_done (failed e, k) = if e == wsa_io_pending then polled (ask k) else (false, k)

unfoldable pub load_function_pointer_from_wsa : Sys Bool
load_function_pointer_from_wsa k = ioctl_done (ask k)

-- A thread that does not start leaves a null in the array.
abbrev pub with_thread : Server → Option ℕ × Kernel → Server × Kernel
with_thread s (t, k) = (record s { sv_worker_threads = s.sv_worker_threads ++ t ∷ [] }, k)

-- The loop over the array, with the number of rounds left.
unfoldable pub start_threads : ℕ → Server → Kernel → Server × Kernel
start_threads zero s k = (s, k)
start_threads (suc n) s k = let (s', k') = with_thread s (acquire thread k) in start_threads n s' k'

abbrev pub threads_end : Server × Kernel → Option (Unit {0}) × Server × Kernel
threads_end (s, k) = (some tt, s, k)

-- `i < (int) sv->sv_worker_count`
abbrev pub rounds_of : ℕ → ℕ
rounds_of n = if ltb n 2147483648 then n else 0

unfoldable pub threads_step : Build Server (Unit {0})
threads_step s k = threads_end (start_threads (rounds_of s.sv_worker_count) s k)

-- The levels are Winsock, the locks of the list and of the statistics, the list, the two ports and
-- the socket.
unfoldable pub init_steps : ℕ → ℕ → Build Server (Unit {0})
init_steps processors so_thread_to_processor_ratio = do
  attempt
  also λ s. resource winsock 0
  modify raised
  also λ s. resource lock 0
  also λ s. resource lock 1
  modify raised
  list_step
  modify λ s. record s { sv_worker_count = processors * so_thread_to_processor_ratio % word_mod }
  step descriptor λ n s. raised (record s { sv_iocp = n })
  step descriptor λ n s. raised (record s { sv_iocp_accept = n })
  step_by create_server_socket λ n s. raised (record s { sv_sock = n })
  check_by λ s. load_function_pointer_from_wsa
  check_by λ s. load_function_pointer_from_wsa
  check_by λ s. load_function_pointer_from_wsa
  attempt
  step block λ n s. record s { sv_threads_block = n }
  threads_step

abbrev pub init_end : Option (Unit {0}) × Server × Kernel → Bool × Server × Kernel
init_end (some u, s, k) = (true, s, k)
init_end (none, s, k) = (false, s, (undo_init s k).1)

unfoldable pub server_init : ℕ → ℕ → Kernel → Bool × Server × Kernel
server_init processors so_thread_to_processor_ratio k =
    init_end (init_steps processors so_thread_to_processor_ratio zeroed k)
