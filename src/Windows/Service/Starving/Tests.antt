-- ===== src/Windows/Service/Starving/Tests.antt =====
-- A client whose `setsockopt` fails, in a concrete environment.
use aio_server.Windows.Service.Tests.{boot, root, content_of, result, outcome}
use aio_server.Windows.Service.Starving.{Refusing, begins, goes_on, refuses, refusals-lower}
use aio_server.Windows.Service.Books.{waiting}
use aio_server.Base.{
  ◌+◌, ◌≤◌, ◌≡◌, refl, true, false, none, some, [], ◌∷◌, ◌==◌, if◌then◌else◌, arith,
}
use aio_server.Kernel.{done, failed, Kernel, ask, acquire, hold}
use aio_server.Atomic.{atomic32_load, atomic32_increment}
use aio_server.Windows.Client.{new_client, client_create}
use aio_server.Windows.Service.{post_accept, Service, ok, server_accept_more_clients}
use aio_server.Windows.Service.Worker.{server_accept_new_connection, process_completion}
use aio_server.Windows.Service.Accept.{
  server_cleanup_client_data, server_add_client_to_list, server_remove_client_from_list,
  remove_equal, client_compare_fn,
}
use aio_server.Windows.Service.Main.{
  server_post_acceptex_with_client, client_for_round, accept_round, server_try_post_accept,
  without_packet,
}
use aio_server.Windows.Service.Sound.{taken}
use aio_server.Windows.Service.Filling.{Fresh}
use aio_server.Windows.Service.System.{filling, at, takes, fills, initial}

-- With a limit of 1 and a failure of `setsockopt` for the first connection: the client is posted
-- back, and then freed, since the count still stands at the limit.
abbrev refusing : Kernel
refusing = record boot { answers = λ i. if i == 6 then failed 5 else done i }

abbrev begun_one : Service
begun_one = without_packet [] (server_accept_more_clients none false (initial 1 root refusing))

abbrev posted_one : Service
posted_one = result begun_one (accept_round 3 false none begun_one)

abbrev refused_one : Service
refused_one = outcome posted_one (process_completion content_of 0 1 (taken 1 posted_one))

abbrev deaf : Service
deaf = result refused_one (accept_round 3 false (some 1) (without_packet [] refused_one))

deaf_run :
    (refused_one.sv_iocp_accept ≡ post_accept false (some 1) ∷ [])
    × (deaf.pending ≡ [])
    × (deaf.sv_iocp_accept ≡ [])
    × (deaf.sv_outstanding_accepts ≡ 1)
unfolding accept_round client_for_round client_create server_add_client_to_list acquire ask hold
    server_try_post_accept server_post_acceptex_with_client atomic32_increment atomic32_load
    server_accept_more_clients process_completion server_accept_new_connection
    server_cleanup_client_data server_remove_client_from_list remove_equal client_compare_fn
deaf_run = (refl, refl, refl, refl)

nobody_yet : Fresh begun_one
unfolding Fresh server_accept_more_clients ask
nobody_yet c k e = refl

one_posted : accept_round 3 false none begun_one ≡ ok (true, posted_one)
unfolding accept_round client_for_round client_create server_add_client_to_list acquire ask hold
    server_try_post_accept server_post_acceptex_with_client atomic32_increment atomic32_load
    server_accept_more_clients process_completion server_accept_new_connection
    server_cleanup_client_data server_remove_client_from_list remove_equal client_compare_fn
one_posted = refl

one_refused : process_completion content_of 0 1 (taken 1 posted_one) ≡ ok refused_one
unfolding accept_round client_for_round client_create server_add_client_to_list acquire ask hold
    server_try_post_accept server_post_acceptex_with_client atomic32_increment atomic32_load
    server_accept_more_clients process_completion server_accept_new_connection
    server_cleanup_client_data server_remove_client_from_list remove_equal client_compare_fn
one_refused = refl

refusal : Refusing content_of 1 root refusing 1 (at refused_one (filling false none))
unfolding accept_round client_for_round client_create server_add_client_to_list acquire ask hold
    server_try_post_accept server_post_acceptex_with_client atomic32_increment atomic32_load
    server_accept_more_clients process_completion server_accept_new_connection
    server_cleanup_client_data server_remove_client_from_list remove_equal client_compare_fn
refusal =
    refuses 0 1 5 {c = record (new_client 1 2 3) { cl_is_tracked = true }}
      (goes_on
        (goes_on begins
          (takes {s = server_accept_more_clients none false (initial 1 root refusing)} refl))
        (fills 3 {s = begun_one} {t = posted_one} nobody_yet one_posted))
      (omega arith) refl refl refl one_refused

refusals-lower_example : waiting refused_one.store refused_one.pending + 1 ≤ 1
refusals-lower_example = refusals-lower (omega arith) refusal
