-- ===== src/Windows/Service/Tests.antt =====
-- The theorems on the threads of server_impl_windows.c in a concrete environment.
use aio_server.Base.{
  ℕ, ◌≤◌, ◌<◌, ◌≡◌, refl, Bool, true, false, none, some, List, [], ◌∷◌, ◌++◌, ◌==◌, if◌then◌else◌,
  arith, length, ◌⊎◌,
}
use aio_server.Kernel.{done, failed, Kernel, ask, acquire, hold}
use aio_server.Atomic.{atomic32_load, atomic32_increment}
use aio_server.Windows.Client.{new_client, client_create}
use aio_server.Windows.Text.{string_v_printf, stricmp_equal}
use aio_server.Windows.Service.{
  shut_down, Notification, iocp_shut_down, completed, ServerAction, server_continue, Service,
  Outcome, use_after_free, ok, server_post_message, server_accept_more_clients,
}
use aio_server.Windows.Service.Request.{
  requested_document, resource_path, get_text, version_text, space, carriage_return, line_feed,
}
use aio_server.Windows.Service.Worker.{
  server_accept_new_connection, server_update_completion_port, server_read_from_client,
  process_completion, server_process_completions, server_worker_thread,
}
use aio_server.Windows.Service.Accept.{
  server_cleanup_client_data, server_add_client_to_list, server_remove_client_from_list,
  remove_equal, client_compare_fn,
}
use aio_server.Windows.Service.Main.{
  server_post_acceptex_with_client, client_for_round, accept_round, accept_rounds,
  server_try_post_accept, without_packet,
}
use aio_server.Windows.Service.Books.{count}
use aio_server.Windows.Service.Sound.{taken}
use aio_server.Windows.Service.Filling.{Fresh}
use aio_server.Windows.Service.System.{filling, at, takes, fills, initial, Reach, start, later}
use aio_server.Windows.Service.Reachable.{IsSound, Reach-IsSound}
use aio_server.Windows.Service.Ledger.{Ledger}
use aio_server.Windows.Service.Ledger.Reachable.{Reach-Ledger}
use aio_server.Windows.Service.Safety.{completion-ends}
use aio_server.Windows.Service.Progress.{Filled, accept_rounds-Filled, try_post-frees}
use aio_server.Windows.Service.Parsed.{requested_document-line}
use aio_server.Windows.Service.Path.{slashed, resource_path-prefix}
use aio_server.Windows.Service.Stopping.{worker-stops}

-- Every call returns its number.
abbrev pub boot : Kernel
boot = record {
  answers = λ i. done i;
  calls = 0;
  held = λ r. 0;
  faults = 0;
  watched = [];
  written = [];
}

abbrev pub root : List ℕ
root = b'w' ∷ []

-- "GET /a HTTP/1.1"
abbrev request : List ℕ
request =
    get_text
    ++ space ∷ (b'/' ∷ b'a' ∷ [])
    ++ space ∷ version_text
    ++ carriage_return ∷ line_feed ∷ []

abbrev pub content_of : ℕ → List ℕ
content_of i = request

abbrev pub result : Service → Outcome (Bool × Service) → Service
result s (ok (b, t)) = t
result s r = s

abbrev started : Service
started = server_accept_more_clients none false (initial 2 root boot)

-- The first packet is taken, and one call of `AcceptEx` is posted, for the client at the address 1.
abbrev first : Service
first = without_packet [] started

abbrev second : Service
second = result first (accept_round 3 false none first)

nobody : Fresh first
unfolding Fresh server_accept_more_clients ask
nobody c k e = refl

accept_round_run : accept_round 3 false none first ≡ ok (true, second)
unfolding accept_round client_for_round client_create server_add_client_to_list acquire ask hold
    server_try_post_accept server_post_acceptex_with_client atomic32_increment atomic32_load
    server_accept_more_clients
accept_round_run = refl

two_steps : Reach content_of 2 root boot (at second (filling false none))
unfolding server_accept_more_clients ask
two_steps =
    later (later start (takes {s = started} refl))
      (fills 3 {s = first} {t = second} nobody accept_round_run)

Reach-IsSound_example : IsSound 2 (at second (filling false none))
Reach-IsSound_example = Reach-IsSound (omega arith) two_steps

Reach-Ledger_example : Ledger boot second.store second.sv_clients second.kernel
Reach-Ledger_example = Reach-Ledger two_steps

pending_one : 0 < count 1 second.pending
unfolding accept_round client_for_round client_create server_add_client_to_list acquire ask hold
    server_try_post_accept server_post_acceptex_with_client atomic32_increment atomic32_load
    server_accept_more_clients
pending_one = omega arith

completion-ends_example :
    (t : Service) × (process_completion content_of 0 1 (taken 1 second) ≡ ok t)
completion-ends_example = completion-ends (omega arith) two_steps 0 1 pending_one

accept_rounds-Filled_example :
    Filled 2 (initial 2 root boot) (accept_rounds 3 false none (initial 2 root boot))
accept_rounds-Filled_example =
    accept_rounds-Filled (omega arith) {g = λ i. i} 3 false (initial 2 root boot) (λ i. refl) refl
      (omega arith) (omega arith)

-- `AcceptEx` fails at once for the client at the address 60, whose node is 70.
abbrev failing : Service
failing = record (initial 2 root (record boot { answers = λ i. failed 5 })) {
  store =
      λ b. if b == 60 then some (record (new_client 60 61 30) { cl_is_tracked = true }) else none;
  sv_clients = record { node = 70; item = 60 } ∷ [];
}

abbrev pub outcome : Service → Outcome Service → Service
outcome s (ok t) = t
outcome s r = s

abbrev asked : Service
asked = record failing { kernel = (ask failing.kernel).1 }

abbrev cleaned : Service
cleaned = outcome asked (server_cleanup_client_data 60 asked)

cleanup_run : server_cleanup_client_data 60 asked ≡ ok cleaned
unfolding server_cleanup_client_data server_remove_client_from_list remove_equal client_compare_fn
cleanup_run = refl

try_post-frees_example : server_try_post_accept 2 60 failing ≡ use_after_free
try_post-frees_example =
    try_post-frees 60 0 5 failing cleaned refl (omega arith) (omega arith) cleanup_run

requested_document-line_example : requested_document request ≡ some (b'/' ∷ b'a' ∷ [])
unfolding stricmp_equal
requested_document-line_example =
    requested_document-line get_text (b'/' ∷ b'a' ∷ []) version_text [] refl refl refl (λ e. cc e)
      refl refl

-- The path goes out of the root directory.
abbrev outside : List ℕ
outside = b'/' ∷ b'.' ∷ b'.' ∷ b'/' ∷ b'a' ∷ []

resource_path_run : resource_path root outside ≡ b'w' ∷ b'/' ∷ b'.' ∷ b'.' ∷ b'/' ∷ b'a' ∷ []
unfolding resource_path string_v_printf
resource_path_run = refl

resource_path-prefix_example :
    (rest : List ℕ) × (resource_path root outside ++ rest ≡ root ++ outside)
    × (length (resource_path root outside) ≤ 260)
    × ((resource_path root outside ≡ root ++ outside) ⊎ (length (resource_path root outside) ≡ 260))
resource_path-prefix_example = resource_path-prefix root (slashed (b'.' ∷ b'.' ∷ b'/' ∷ b'a' ∷ []))

-- The first connection, and then the message to stop in front of another completion.
abbrev connection : List Notification
connection = completed 0 (some 1) ∷ []

abbrev handled : Service → Outcome (ServerAction × Service) → Service
handled s (ok (a, t)) = t
handled s r = s

abbrev third : Service
third = handled second (server_process_completions content_of connection second)

completions_run :
    server_process_completions content_of connection second ≡ ok (server_continue, third)
unfolding accept_round client_for_round client_create server_add_client_to_list acquire ask hold
    server_try_post_accept server_post_acceptex_with_client atomic32_increment atomic32_load
    server_accept_more_clients server_process_completions process_completion
    server_accept_new_connection server_update_completion_port server_read_from_client
completions_run = refl

worker-stops_example :
    server_worker_thread content_of
      ((connection ++ iocp_shut_down ∷ completed 5 (some 1) ∷ []) ∷ [])
      second
    ≡ ok (server_post_message shut_down third)
worker-stops_example =
    worker-stops content_of connection (completed 5 (some 1) ∷ []) [] second third completions_run
