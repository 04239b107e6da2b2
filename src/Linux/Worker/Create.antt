-- ===== src/Linux/Worker/Create.antt =====
-- server_impl_linux.c: `worker_thread_create`.
use aio_server.Base.{ℕ, Option, none, some}
use aio_server.Kernel.{
  descriptor, block, string_copy, queue, queue_name, client_list, resource, Kernel, Sys, acquire,
}
use aio_server.Kernel.Build.{Build, ◌>>◌, step, also}
use aio_server.Linux.Worker.{WorkerThread, zeroed, raised, create_cleanup}

-- The levels of `worker_thread_create`: the termination event, the list of clients, the copy of
-- the queue's name, the epoll descriptor, and the message queue with its name. The queue blocks:
-- `mq_open` does not read `mq_flags`, and its flags are without `O_NONBLOCK`.
unfoldable pub create_steps : ℕ → Build WorkerThread (Unit {0})
create_steps name = do
  step descriptor λ n w. raised (record w { wk_termsig = n })
  step client_list λ n w. raised (record w { wk_clients = n })
  step string_copy λ n w. raised (record w { wk_mqueue_name = n; wk_mqueue_text = name })
  step descriptor λ n w. raised (record w { wk_epoll_fds = n })
  step queue λ n w. raised (record w { wk_messagequeue = n })
  also λ w. resource queue_name w.wk_mqueue_text

abbrev pub create_end : Option (Unit {0}) × WorkerThread × Kernel → Option WorkerThread × Kernel
create_end (some a, w, k) = (some w, k)
create_end (none, w, k) = (none, (create_cleanup w k).1)

abbrev pub create_from : ℕ → Option ℕ × Kernel → Option WorkerThread × Kernel
create_from name (none, k) = (none, k)
create_from name (some p, k) = create_end (create_steps name (zeroed p) k)

-- `name` is the number in the queue's name.
unfoldable pub worker_thread_create : ℕ → Sys (Option WorkerThread)
worker_thread_create name k = create_from name (acquire block k)
