-- ===== src/Linux/Messages/Proc.antt =====
-- `worker_thread_proc`: the start of a worker's thread, which its creator waits for, and its loop.
pub mod Ends
use aio_server.Base.{
  ℕ, zero, suc, ◌+◌, ◌<◌, ◌≤◌, ◌≡◌, ◌≢◌, refl, ap, sym, ◌∙◌, ◌==◌, if◌then◌else◌, Bool, true, false,
  not, Option, none, some, List, [], ◌∷◌, arith, ◌⊎◌, inl, inr, Bool-cases, ne→==_false, length,
  subst,
}
use aio_server.Kernel.{
  Watch, EpollData, data_ptr, Answer, done, failed, Kernel, ask, write_event, write_from,
}
use aio_server.Linux.Epoll.{
  add_fd_to_epoll, add_from, epoll_data, epollin, epollet, data_type_ptr, DataType,
}
use aio_server.Linux.Worker.{WorkerThread, thread_init_ok, thread_init_fail}
use aio_server.Linux.Messages.{
  State, Message, Event, object_type_signal, HandlerEnd, handled, ProcEnd, not_ready, quit,
  proc_adds, counted, then_messagequeue, proc_from, proc_loop, handle_events,
  worker_thread_handle_event, worker_thread_proc,
}

-- A call of `add_fd_to_epoll`, in full.
data Ran (k : Kernel) (x : Watch) : Bool × Kernel → Type 0 where
  ran_done : Ran k x (true, record k { calls = k.calls + 1; watched = x ∷ k.watched })
  ran_failed : Ran k x (false, record k { calls = k.calls + 1 })

add_fd-Ran :
    (epoll fd flags : ℕ) (t : DataType) (v : ℕ) (k : Kernel)
    → Ran k
        (record { epoll_fd = epoll; fd = fd; events = flags; content = epoll_data t v })
        (add_fd_to_epoll epoll fd flags t v k)
unfolding add_fd_to_epoll ask
add_fd-Ran epoll fd flags t v k = go (k.answers k.calls) refl
  where
    go :
        (a : Answer)
        → k.answers k.calls ≡ a
        → Ran k
            (record { epoll_fd = epoll; fd = fd; events = flags; content = epoll_data t v })
            (add_fd_to_epoll epoll fd flags t v k)
    go (done n) e = rw e ran_done
    go (failed n) e = rw e ran_failed

module _ (message_of : ℕ → Message) (termsig_offset messagequeue_offset : ℕ) where
  -- The entries that `worker_thread_proc` adds.
  abbrev pub termsig_watch : WorkerThread → Watch
  termsig_watch w = record {
    epoll_fd = w.wk_epoll_fds;
    fd = w.wk_termsig;
    events = epollin + epollet;
    content = data_ptr (w.wk_address + termsig_offset);
  }

  abbrev pub messagequeue_watch : WorkerThread → Watch
  messagequeue_watch w = record {
    epoll_fd = w.wk_epoll_fds;
    fd = w.wk_messagequeue;
    events = epollin + epollet;
    content = data_ptr (w.wk_address + messagequeue_offset);
  }

  -- The results of the two calls of `add_fd_to_epoll`.
  data AddsRun (k : Kernel) (w : WorkerThread) : ℕ × Kernel → Type 0 where
    both_added :
        (g : Kernel)
        → g.answers ≡ k.answers
        → g.calls ≡ k.calls + 2
        → g.written ≡ k.written
        → g.watched ≡ messagequeue_watch w ∷ termsig_watch w ∷ k.watched
        → AddsRun k w (2, g)
    one_added :
        (n : ℕ) (g : Kernel)
        → n < 2
        → g.answers ≡ k.answers
        → g.calls ≡ k.calls + 2
        → g.written ≡ k.written
        → length g.watched ≤ length k.watched + 1
        → AddsRun k w (n, g)

  adds-AddsRun :
      (w : WorkerThread) (k : Kernel)
      → AddsRun k w (proc_adds termsig_offset messagequeue_offset w k)
  unfolding proc_adds
  adds-AddsRun w k =
      first (queried w.wk_termsig termsig_offset k) (run w.wk_termsig termsig_offset k)
    where
      queried : ℕ → ℕ → Kernel → Bool × Kernel
      queried fd offset =
          add_fd_to_epoll w.wk_epoll_fds fd (epollin + epollet) data_type_ptr
            (w.wk_address + offset)

      run :
          (fd offset : ℕ) (g : Kernel)
          → Ran g
              (record {
                epoll_fd = w.wk_epoll_fds;
                fd = fd;
                events = epollin + epollet;
                content = data_ptr (w.wk_address + offset);
              })
              (queried fd offset g)
      run fd offset g =
          add_fd-Ran w.wk_epoll_fds fd (epollin + epollet) data_type_ptr (w.wk_address + offset) g

      after_one :
          (r : Bool × Kernel)
          → Ran
              (record k { calls = k.calls + 1; watched = termsig_watch w ∷ k.watched })
              (messagequeue_watch w)
              r
          → AddsRun k w (counted termsig_offset messagequeue_offset 1 r)
      after_one _ ran_done = both_added _ refl (omega arith) refl refl
      after_one _ ran_failed = one_added 1 _ (omega arith) refl (omega arith) refl (omega arith)

      after_none :
          (r : Bool × Kernel)
          → Ran (record k { calls = k.calls + 1 }) (messagequeue_watch w) r
          → AddsRun k w (counted termsig_offset messagequeue_offset 0 r)
      after_none _ ran_done = one_added 1 _ (omega arith) refl (omega arith) refl (omega arith)
      after_none _ ran_failed = one_added 0 _ (omega arith) refl (omega arith) refl (omega arith)

      first :
          (r : Bool × Kernel)
          → Ran k (termsig_watch w) r
          → AddsRun k w (
              then_messagequeue termsig_offset messagequeue_offset w
                (counted termsig_offset messagequeue_offset 0 r))
      first _ ran_done =
          let g = record k { calls = k.calls + 1; watched = termsig_watch w ∷ k.watched } in
          after_one (queried w.wk_messagequeue messagequeue_offset g)
            (run w.wk_messagequeue messagequeue_offset g)
      first _ ran_failed =
          let g = record k { calls = k.calls + 1 } in
          after_none (queried w.wk_messagequeue messagequeue_offset g)
            (run w.wk_messagequeue messagequeue_offset g)

  -- The loop runs only where the good status was written and both descriptors are watched.
  pub data Handshake (fuel : ℕ) (bs : List (Option (List Event))) (s : State) (k : Kernel)
      : ProcEnd × State × Kernel → Type 0 where
    ready :
        (g : Kernel)
        → g.written ≡ (s.worker.wk_readyevent, thread_init_ok) ∷ k.written
        → g.watched ≡ messagequeue_watch s.worker ∷ termsig_watch s.worker ∷ k.watched
        → Handshake fuel bs s k (proc_loop message_of fuel bs s g)
    refused :
        (g : Kernel)
        → g.written ≡ (s.worker.wk_readyevent, thread_init_fail) ∷ k.written
        → length g.watched ≤ length k.watched + 1
        → Handshake fuel bs s k (not_ready, s, g)

  module _ {fuel n : ℕ} {bs : List (Option (List Event))} {s : State} {k : Kernel} where
    told-Handshake :
        (r : ℕ × Kernel)
        → k.answers (k.calls + 2) ≡ done n
        → AddsRun k s.worker r
        → Handshake fuel bs s k
            (proc_from message_of termsig_offset messagequeue_offset fuel bs s r)
    unfolding write_event ask
    told-Handshake _ told (both_added g e e' w v) =
        rw (e, e', told) (ready _ (ap (λ l. (s.worker.wk_readyevent, thread_init_ok) ∷ l) w) v)
    told-Handshake _ told (one_added m g lt e e' w v) =
        let few = ne→==_false m 2 (λ q. omega (arith, q)) in
        rw (few, e, e', told, few)
          (refused _ (ap (λ l. (s.worker.wk_readyevent, thread_init_fail) ∷ l) w) v)

  -- Where the write of the status succeeds, worker_thread_proc either reports 2, with its
  -- termination event and its message queue both watched, and goes on with its loop, or reports 1
  -- and returns with at most one of them watched.
  pub proc-Handshake :
      (fuel n : ℕ) (bs : List (Option (List Event))) (s : State) (k : Kernel)
      → k.answers (k.calls + 2) ≡ done n
      → Handshake fuel bs s k
          (worker_thread_proc message_of termsig_offset messagequeue_offset fuel bs s k)
  unfolding worker_thread_proc
  proc-Handshake fuel n bs s k told =
      told-Handshake (proc_adds termsig_offset messagequeue_offset s.worker k) told
        (adds-AddsRun s.worker k)

module _ (message_of : ℕ → Message) where
  events-quit :
      (fuel : ℕ) (es : List Event) (s : State) (k : Kernel)
      → s.worker.wk_quitflag ≢ 0
      → handle_events message_of fuel es s k ≡ (handled, s, k)
  unfolding handle_events
  events-quit fuel [] s k q = refl
  events-quit fuel (e ∷ es) s k q = rw (ne→==_false s.worker.wk_quitflag 0 q) refl

  loop-quit :
      (fuel : ℕ) (bs : List (Option (List Event))) (s : State) (k : Kernel)
      → s.worker.wk_quitflag ≢ 0
      → proc_loop message_of fuel bs s k ≡ (quit, s, k)
  unfolding proc_loop
  loop-quit fuel [] s k q = rw (ne→==_false s.worker.wk_quitflag 0 q) refl
  loop-quit fuel (none ∷ bs) s k q = rw (ne→==_false s.worker.wk_quitflag 0 q) refl
  loop-quit fuel (some es ∷ bs) s k q = rw (ne→==_false s.worker.wk_quitflag 0 q) refl

  -- Where the worker's quit flag is not set, a batch that starts with the termination event makes
  -- the worker's loop set the flag and return; the rest of the batch and the later batches are
  -- not handled.
  term_event-quits :
      (fuel flags : ℕ) (es : List Event) (bs : List (Option (List Event))) (s : State) (k : Kernel)
      → s.worker.wk_quitflag ≡ 0
      → let told = record s { worker = record s.worker { wk_quitflag = 1 } } in
        proc_loop message_of fuel
          (some (record { events = flags; object = object_type_signal } ∷ es) ∷ bs)
          s
          k
        ≡ (quit, told, k)
  unfolding proc_loop handle_events worker_thread_handle_event
  term_event-quits fuel flags es bs s k running =
      let told = record s { worker = record s.worker { wk_quitflag = 1 } } in
      let now = events-quit fuel es told k (λ q. absurd (omega arith)) in
      let go : (s.worker.wk_quitflag == 0) ≡ true = ap (λ q. q == 0) running in
      rw (go, now, go, now) (loop-quit fuel bs told k (λ q. absurd (omega arith)))
