-- ===== src/Windows/Service/Main.antt =====
-- server_impl_windows.c: the loop of the accepting thread, which keeps calls of `AcceptEx`
-- outstanding. A loop without a bound of its own takes `fuel` rounds at most.
use aio_server.Base.{
  ℕ, zero, suc, ◌-◌, Bool, true, false, Option, none, some, List, [], ◌∷◌, ◌==◌, if◌then◌else◌, ltb,
  leb, ℤ, pos, negsuc,
}
use aio_server.Kernel.{Answer, done, failed, Kernel, ask}
use aio_server.Atomic.{word_mod, atomic32_load, atomic32_increment}
use aio_server.Windows.Client.{Client, client_create, client_reinit}
use aio_server.Windows.Service.{
  ◌>>=◌, Packet, shut_down, post_accept, Service, Outcome, use_after_free, out_of_fuel, ok,
  set_client, wsa_io_pending, server_accept_more_clients,
}
use aio_server.Windows.Service.Accept.{server_add_client_to_list, server_cleanup_client_data}

-- `kAcceptExResult`
pub data AcceptExResult : Type 0 where
  accept_ex_result_success accept_ex_result_conn_reset accept_ex_result_failed : AcceptExResult

abbrev pub wsaeconnreset : ℕ
wsaeconnreset = 10054

-- A call that is done or pending will complete.
abbrev pub accept_result : ℕ → Service → Answer × Kernel → AcceptExResult × Service
accept_result a s (done n, k) =
    (accept_ex_result_success, record s { kernel = k; pending = a ∷ s.pending })
accept_result a s (failed e, k) =
    if e == wsa_io_pending
    then (accept_ex_result_success, record s { kernel = k; pending = a ∷ s.pending })
    else if e == wsaeconnreset
    then (accept_ex_result_conn_reset, record s { kernel = k })
    else (accept_ex_result_failed, record s { kernel = k })

unfoldable pub server_post_acceptex_with_client : ℕ → Service → AcceptExResult × Service
server_post_acceptex_with_client a s = accept_result a s (ask s.kernel)

-- `atomic32_increment(&srv_ptr->sv_outstanding_accepts, 1)`
abbrev pub more_outstanding : Service → Service
more_outstanding s = record s {
  sv_outstanding_accepts = (atomic32_increment s.sv_outstanding_accepts 1).memory;
}

abbrev pub stored : ℕ → Service → Bool × Client × Kernel → Service
stored a s (b, c, k) = set_client a c (record s { kernel = k })

-- `client_reinit`, whose result is not looked at.
abbrev pub reinit_of : ℕ → Bool → Service → Option Client → Outcome Service
reinit_of a reuse s none = use_after_free
reinit_of a reuse s (some c) = ok (stored a s (client_reinit reuse c s.kernel))

unfoldable pub reinit_client : ℕ → Bool → Service → Outcome Service
reinit_client a reuse s = reinit_of a reuse s (s.store a)

-- What follows a call of `AcceptEx`: `again` is the next round.
abbrev pub after_post : (Service → Outcome Service) → ℕ → AcceptExResult × Service → Outcome Service
after_post again a (accept_ex_result_success, s) = ok (more_outstanding s)
after_post again a (accept_ex_result_conn_reset, s) = reinit_client a false s >>= again
after_post again a (accept_ex_result_failed, s) = server_cleanup_client_data a s >>= again

-- A round reads the structure of the client.
abbrev pub posted_for : (Service → Outcome Service) → ℕ → Service → Option Client → Outcome Service
posted_for again a s none = use_after_free
posted_for again a s (some c) = after_post again a (server_post_acceptex_with_client a s)

unfoldable pub server_try_post_accept : ℕ → ℕ → Service → Outcome Service
server_try_post_accept zero a s = out_of_fuel
server_try_post_accept (suc fuel) a s = posted_for (server_try_post_accept fuel a) a s (s.store a)

-- `sv_outstanding_accepts >= so_max_outstanding_accepts` on the signed word
abbrev pub reaches : ℕ → ℤ → Bool
reaches w (pos n) = if ltb w 2147483648 then leb n w else false
reaches w (negsuc n) = if ltb w 2147483648 then true else leb (word_mod - 1 - w) n

-- The client of this round, which is listed where it is new.
abbrev pub with_address : ℕ → Service → Outcome (Option ℕ × Service)
with_address a s = ok (some a, s)

abbrev pub listed : Service → Option Client × Kernel → Outcome (Option ℕ × Service)
listed s (none, k) = ok (none, record s { kernel = k })
listed s (some c, k) =
    let t = set_client c.cl_address c (record s { kernel = k }) in
    server_add_client_to_list c.cl_address c t >>= with_address c.cl_address

unfoldable pub client_for_round : Bool → Option ℕ → Service → Outcome (Option ℕ × Service)
client_for_round opts none s = listed s (client_create s.kernel)
client_for_round opts (some a) s = reinit_client a opts s >>= with_address a

abbrev pub going_on : Bool → Service → Outcome (Bool × Service)
going_on b s = ok (b, s)

abbrev pub posting : ℕ → Option ℕ × Service → Outcome (Bool × Service)
posting fuel (some a, s) = server_try_post_accept fuel a s >>= going_on true
posting fuel (none, s) = ok (false, s)

abbrev pub enough_posted : Option ℕ → Service → Outcome (Bool × Service)
enough_posted none s = ok (false, s)
enough_posted (some a) s = server_cleanup_client_data a s >>= going_on false

-- One round of the inner loop; the result says whether there is another, with no client.
unfoldable pub accept_round : ℕ → Bool → Option ℕ → Service → Outcome (Bool × Service)
accept_round fuel opts cli s =
    if reaches (atomic32_load s.sv_outstanding_accepts) s.so_max_outstanding_accepts
    then enough_posted cli s
    else client_for_round opts cli s >>= posting fuel

abbrev pub after_round : (Service → Outcome Service) → Bool × Service → Outcome Service
after_round again (true, s) = again s
after_round again (false, s) = ok s

unfoldable pub accept_rounds : ℕ → Bool → Option ℕ → Service → Outcome Service
accept_rounds zero opts cli s = out_of_fuel
accept_rounds (suc fuel) opts cli s =
    accept_round fuel opts cli s >>= after_round (accept_rounds fuel opts none)

-- The loop over the packets that `GetQueuedCompletionStatus` takes from the port. On an empty port
-- it waits: the result is what it has done by then.
abbrev pub without_packet : List Packet → Service → Service
without_packet ps s = record s { sv_iocp_accept = ps }

unfoldable pub packet_loop : ℕ → Service → Outcome Service
packet_loop zero s = out_of_fuel
packet_loop (suc fuel) s = on_packet (packet_loop fuel) s.sv_iocp_accept s
  where
    on_packet : (Service → Outcome Service) → List Packet → Service → Outcome Service
    on_packet again [] s = ok s
    on_packet again (shut_down ∷ ps) s = ok (without_packet ps s)
    on_packet again (post_accept opts cli ∷ ps) s =
        accept_rounds fuel opts cli (without_packet ps s) >>= again

unfoldable pub server_main_loop : ℕ → Service → Outcome Service
server_main_loop fuel s = packet_loop fuel (server_accept_more_clients none false s)
