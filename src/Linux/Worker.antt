-- ===== src/Linux/Worker.antt =====
-- server_impl_linux.c: `struct worker_thread`, its creation, start and destruction.
pub mod Create
pub mod Owned
use aio_server.Base.{
  ℕ, ◌+◌, ◌≡◌, Bool, true, false, Option, none, some, List, [], ◌∷◌, ◌==◌, if◌then◌else◌,
}
use aio_server.Kernel.{
  ResourceKind, descriptor, block, string_copy, queue, queue_name, thread, client_list, Resource,
  resource, Answer, done, failed, Kernel, Sys, pure, ◌>>◌, ask, acquire, release,
}

-- `wk_address` is the block that holds the structure, `wk_mqueue_text` the number in the name that
-- `wk_mqueue_name` points to; `wk_termsig` and `wk_messagequeue` are the descriptors inside the
-- objects of those names.
pub record WorkerThread : Type 0 where
  pub wk_address : ℕ
  pub wk_epoll_fds : ℕ
  pub wk_termsig : ℕ
  pub wk_messagequeue : ℕ
  pub wk_clients : ℕ
  pub wk_mqueue_name : ℕ
  pub wk_mqueue_text : ℕ
  pub wk_threadid : ℕ
  pub wk_readyevent : ℕ
  pub wk_rollback : ℕ
  pub wk_quitflag : ℕ

-- `memset(wthread, 0, sizeof(*wthread))`
abbrev pub zeroed : ℕ → WorkerThread
zeroed p = record {
  wk_address = p;
  wk_epoll_fds = 0;
  wk_termsig = 0;
  wk_messagequeue = 0;
  wk_clients = 0;
  wk_mqueue_name = 0;
  wk_mqueue_text = 0;
  wk_threadid = 0;
  wk_readyevent = 0;
  wk_rollback = 0;
  wk_quitflag = 0;
}

-- `++wthread->wk_rollback`
abbrev pub raised : WorkerThread → WorkerThread
raised w = record w { wk_rollback = w.wk_rollback + 1 }

-- The cases of the two `switch` statements, each of which falls through to the one below.
abbrev pub release_block : WorkerThread → Sys (Unit {0})
release_block w = release (resource block w.wk_address)

abbrev pub release_termsig : WorkerThread → Sys (Unit {0})
release_termsig w = release (resource descriptor w.wk_termsig) >> release_block w

abbrev pub release_clients : WorkerThread → Sys (Unit {0})
release_clients w = release (resource client_list w.wk_clients) >> release_termsig w

abbrev pub release_name : WorkerThread → Sys (Unit {0})
release_name w = release (resource string_copy w.wk_mqueue_name) >> release_clients w

abbrev pub release_epoll : WorkerThread → Sys (Unit {0})
release_epoll w = release (resource descriptor w.wk_epoll_fds) >> release_name w

abbrev pub release_queue : WorkerThread → Sys (Unit {0})
release_queue w =
    release (resource queue w.wk_messagequeue)
    >> (release (resource queue_name w.wk_mqueue_text) >> release_epoll w)

-- `pthread_join`
abbrev pub release_thread : WorkerThread → Sys (Unit {0})
release_thread w = release (resource thread w.wk_threadid) >> release_queue w

-- `ERR_CLEANUP` of `worker_thread_create`
unfoldable pub create_cleanup : WorkerThread → Sys (Unit {0})
create_cleanup w =
    if w.wk_rollback == 4
    then release_epoll w
    else if w.wk_rollback == 3
    then release_name w
    else if w.wk_rollback == 2
    then release_clients w
    else if w.wk_rollback == 1
    then release_termsig w
    else if w.wk_rollback == 0
    then release_block w
    else pure tt

unfoldable pub worker_thread_destroy : WorkerThread → Sys (Unit {0})
worker_thread_destroy w =
    if w.wk_rollback == 6
    then release_thread w
    else if w.wk_rollback == 5
    then release_queue w
    else if w.wk_rollback == 4
    then release_epoll w
    else if w.wk_rollback == 3
    then release_name w
    else if w.wk_rollback == 2
    then release_clients w
    else if w.wk_rollback == 1
    then release_termsig w
    else if w.wk_rollback == 0
    then release_block w
    else pure tt

-- `kThreadInitStatus`
abbrev pub thread_init_fail : ℕ
thread_init_fail = 1

abbrev pub thread_init_ok : ℕ
thread_init_ok = 2

-- The answer of `read` is the value that the event descriptor held; a short read is a failure.
abbrev pub is_ready : Answer → Bool
is_ready (done v) = v == thread_init_ok
is_ready (failed e) = false

abbrev pub start_from : WorkerThread → Option ℕ × Kernel → Bool × WorkerThread × Kernel
start_from w (none, k) = (false, w, k)
start_from w (some t, k) = (is_ready (ask k).0, raised (record w { wk_threadid = t }), (ask k).1)

-- True is the return value 0. `ready` is the server's event descriptor.
unfoldable pub worker_thread_start : ℕ → WorkerThread → Kernel → Bool × WorkerThread × Kernel
worker_thread_start ready w k = start_from (record w { wk_readyevent = ready }) (acquire thread k)
