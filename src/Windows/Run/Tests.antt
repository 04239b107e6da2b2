-- ===== src/Windows/Run/Tests.antt =====
-- A run of the Windows server that accepts one client and is told to stop.
use aio_server.Base.{
  ℕ, ◌≡◌, refl, ap, ==_refl, arith, Option, Bool, true, false, none, some, List, [], ◌∷◌, ℤ, pos,
  subst,
}
use aio_server.Atomic.{atomic32_load, atomic32_increment}
use aio_server.Kernel.Build.{attempt, step, step_by, check_by}
use aio_server.Kernel.{done, Kernel, ask, acquire, hold, release, same}
use aio_server.Windows.Client.{Client, client_create}
use aio_server.Windows.Options.{
  ServerOpts, default_options, default_root, parsed, read_options, option_of, set_option,
  max_outstanding_accepts_text,
}
use aio_server.Windows.Text.{strcmp_equal}
use aio_server.Windows.Run.{cleans_up, listed_clients}
use aio_server.Windows.Run.Books.{items, run-GivenBack}
use aio_server.Windows.Service.{
  Service, Outcome, ok, ctrl_shutdown_event, server_accept_more_clients, server_control_handler,
  server_post_message,
}
use aio_server.Windows.Service.Accept.{server_add_client_to_list}
use aio_server.Windows.Service.Books.{count, is_alive}
use aio_server.Windows.Service.Filling.{Fresh}
use aio_server.Windows.Service.Main.{
  accept_round, client_for_round, server_try_post_accept, server_post_acceptex_with_client,
  without_packet,
}
use aio_server.Windows.Service.System.{
  at, ended, waiting_packet, takes, fills, controls, ends, initial, Reach, start, later,
}
use aio_server.Windows.Start.{Server, server_cleanup_and_shutdown}
use aio_server.Windows.Start.Init.{
  server_init, init_steps, list_step, load_function_pointer_from_wsa, threads_step, start_threads,
}
use aio_server.Windows.Start.Socket.{create_server_socket, listen_steps}
use aio_server.Windows.Start.Owned.{GivenBack}

-- Every call returns its number.
abbrev boot : Kernel
boot = record {
  answers = λ i. done i;
  calls = 0;
  held = λ r. 0;
  faults = 0;
  watched = [];
  written = [];
}

-- One accept outstanding
abbrev args : List (List ℕ)
args = (b'-' ∷ max_outstanding_accepts_text) ∷ (b'1' ∷ []) ∷ []

abbrev atoi : List ℕ → ℤ
atoi l = pos 1

abbrev content_of : ℕ → List ℕ
content_of i = []

abbrev options : ServerOpts
options = record default_options { so_max_outstanding_accepts = pos 1 }

abbrev server : Server
server = (server_init 1 1 boot).1

-- After the calls of `server_init`
abbrev like : Kernel → Kernel
like k = record boot {
  calls = 14;
  held = k.held;
  faults = k.faults;
  watched = k.watched;
  written = k.written;
}

abbrev ready_kernel : Kernel
ready_kernel = like (server_init 1 1 boot).2

abbrev result : Service → Outcome (Bool × Service) → Service
result s (ok (b, t)) = t
result s r = s

abbrev started : Kernel → Service
started k = server_accept_more_clients none false (initial 1 default_root (like k))

abbrev first : Kernel → Service
first k = without_packet [] (started k)

abbrev second : Kernel → Service
second k = result (first k) (accept_round 3 false none (first k))

abbrev third : Kernel → Service
third k = result (second k) (accept_round 3 false none (second k))

read : read_options atoi args default_options ≡ parsed options
unfolding read_options option_of strcmp_equal set_option
read = refl

init : server_init 1 1 boot ≡ (true, server, ready_kernel)
unfolding server_init init_steps attempt ask list_step step acquire step_by create_server_socket
    listen_steps check_by load_function_pointer_from_wsa release same threads_step start_threads
init = refl

has_list : (l : ℕ) × (server.sv_clients ≡ some l)
unfolding server_init init_steps attempt ask list_step step acquire step_by create_server_socket
    listen_steps check_by load_function_pointer_from_wsa release same threads_step start_threads
has_list = (_, refl)

nobody : (k : Kernel) → Fresh (first k)
unfolding Fresh server_accept_more_clients ask
nobody k c g e = refl

first_round : (k : Kernel) → accept_round 3 false none (first k) ≡ ok (true, second k)
unfolding accept_round client_for_round client_create server_add_client_to_list acquire ask hold
    server_try_post_accept server_post_acceptex_with_client atomic32_increment atomic32_load
    server_accept_more_clients
first_round k = refl

second_round : (k : Kernel) → accept_round 3 false none (second k) ≡ ok (false, third k)
unfolding accept_round client_for_round client_create server_add_client_to_list acquire ask hold
    server_try_post_accept server_post_acceptex_with_client atomic32_increment atomic32_load
    server_accept_more_clients
second_round k = refl

abbrev address_of : Option Client × Kernel → ℕ
address_of (none, k) = 0
address_of (some c, k) = c.cl_address

another : (k : Kernel) → Fresh (second k)
unfolding accept_round client_for_round client_create server_add_client_to_list acquire ask hold
    server_try_post_accept server_post_acceptex_with_client atomic32_increment atomic32_load
    server_accept_more_clients Fresh
another k c g e = subst (λ a. (second k).store a ≡ none) (ap address_of e) refl

abbrev found : Outcome (List (ℕ × Client)) → List (ℕ × Client)
found (ok cs) = cs
found r = []

abbrev told : Kernel → Service
told k = server_control_handler ctrl_shutdown_event (third k)

abbrev last : Kernel → Service
last k = without_packet [] (told k)

filled_up : (k : Kernel) → Reach content_of 1 default_root (like k) (at (third k) waiting_packet)
unfolding server_accept_more_clients ask
filled_up k =
    later
      (later (later start (takes {s = started k} refl))
        (fills 3 {s = first k} {t = second k} (nobody k) (first_round k)))
      (fills 3 {s = second k} {t = third k} (another k) (second_round k))

stopped : (k : Kernel) → Reach content_of 1 default_root (like k) (at (last k) ended)
unfolding accept_round client_for_round client_create server_add_client_to_list acquire ask hold
    server_try_post_accept server_post_acceptex_with_client atomic32_increment atomic32_load
    server_accept_more_clients server_control_handler server_post_message
stopped k =
    later (later (filled_up k) (controls ctrl_shutdown_event {s = third k}))
      (ends {s = told k} refl)

-- The client, the third number after the packet is posted, and its node
abbrev of_one : Kernel → List (ℕ × Client)
of_one k = found (listed_clients (last k).store (last k).sv_clients)

listed : (k : Kernel) → listed_clients (last k).store (last k).sv_clients ≡ ok (of_one k)
unfolding accept_round client_for_round client_create server_add_client_to_list acquire ask hold
    server_try_post_accept server_post_acceptex_with_client atomic32_increment atomic32_load
    server_accept_more_clients server_control_handler server_post_message listed_clients
listed k = refl

all_listed :
    (k : Kernel) (a : ℕ) → count a (items (last k).sv_clients) ≡ is_alive ((last k).store a)
unfolding accept_round client_for_round client_create server_add_client_to_list acquire ask hold
    server_try_post_accept server_post_acceptex_with_client atomic32_increment atomic32_load
    server_accept_more_clients server_control_handler server_post_message
all_listed k a = ground (arith, ==_refl a)

run-GivenBack_example :
    GivenBack boot server.sv_clients
      (server_cleanup_and_shutdown
        (of_one (server_init 1 1 boot).2)
        server
        (last (server_init 1 1 boot).2).kernel).1
run-GivenBack_example =
    run-GivenBack 1
      (cleans_up read refl init has_list.1 (stopped (server_init 1 1 boot).2)
        (listed (server_init 1 1 boot).2))
      (all_listed (server_init 1 1 boot).2)
