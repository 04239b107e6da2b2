-- ===== src/Windows/Service/Accept.antt =====
-- server_impl_windows.c: the accepting thread, which keeps calls of `AcceptEx` outstanding, and the
-- list of clients.
use aio_server.Base.{
  ℕ, Bool, true, false, Option, none, some, List, [], ◌∷◌, ◌==◌, if◌then◌else◌, ltb, ℤ, pos, negsuc,
}
use aio_server.Kernel.{block, resource, Kernel, acquire, release}
use aio_server.Windows.Client.{Client, client_destroy}
use aio_server.Windows.Service.{
  Listed, Service, Outcome, use_after_free, stopped, ok, ◌>>=◌, set_client,
}

-- The tests of `client_compare_fn`; `INVALID_SOCKET` is the largest number.
abbrev pub same_socket : Option ℕ → Option ℕ → Bool
same_socket none none = true
same_socket none (some n) = false
same_socket (some m) none = false
same_socket (some m) (some n) = m == n

abbrev pub socket_ltb : Option ℕ → Option ℕ → Bool
socket_ltb none b = false
socket_ltb (some m) none = true
socket_ltb (some m) (some n) = ltb m n

unfoldable pub client_compare_fn : Client → Client → ℤ
client_compare_fn x y =
    if same_socket x.cl_sock y.cl_sock
    then pos 0
    else if socket_ltb x.cl_sock y.cl_sock
    then negsuc 0
    else pos 1

-- `dlist_push_head` for the client: the result is not looked at.
abbrev pub pushed : ℕ → Service → Option ℕ × Kernel → Service
pushed a s (some n, k) = record s {
  kernel = k;
  sv_clients = record { node = n; item = a } ∷ s.sv_clients;
}
pushed a s (none, k) = record s { kernel = k }

abbrev pub tracked : ℕ → Client → Bool → Service → Service
tracked a c flag s = set_client a (record c { cl_is_tracked = flag }) s

unfoldable pub server_add_client_to_list : ℕ → Client → Service → Outcome Service
server_add_client_to_list a c s =
    if c.cl_is_tracked then stopped else ok (tracked a c true (pushed a s (acquire block s.kernel)))

-- `dlist_remove_item`: the comparison reads each client that the list names; the node of the first
-- that compares equal is released.
abbrev pub kept_in_front : Listed → List Listed × Kernel → Outcome (List Listed × Kernel)
kept_in_front x (xs, k) = ok (x ∷ xs, k)

abbrev pub is_equal : ℤ → Bool
is_equal (pos n) = n == 0
is_equal (negsuc n) = false

unfoldable pub remove_equal :
    (ℕ → Option Client) → Client → List Listed → Kernel → Outcome (List Listed × Kernel)
remove_equal store c [] k = ok ([], k)
remove_equal store c (x ∷ xs) k =
    let rest = remove_equal store c xs k >>= kept_in_front x in
    elim (store x.item) [
      | none ↦ use_after_free
      | some d ↦
          if is_equal (client_compare_fn d c)
          then ok (xs, (release (resource block x.node) k).1)
          else rest
    ]

abbrev pub removed : ℕ → Client → Service → List Listed × Kernel → Outcome Service
removed a c s (xs, k) = ok (tracked a c false (record s { kernel = k; sv_clients = xs }))

unfoldable pub server_remove_client_from_list : ℕ → Client → Service → Outcome Service
server_remove_client_from_list a c s =
    if c.cl_is_tracked
    then remove_equal s.store c s.sv_clients s.kernel >>= removed a c s
    else stopped

-- The structure is not allocated any more.
abbrev pub freed : ℕ → Client → Service → Outcome Service
freed a c s = ok (record s {
  store = λ b. if b == a then none else s.store b;
  kernel = (client_destroy c s.kernel).1;
})

abbrev pub cleanup_of : ℕ → Service → Option Client → Outcome Service
cleanup_of a s none = use_after_free
cleanup_of a s (some c) = server_remove_client_from_list a c s >>= freed a c

unfoldable pub server_cleanup_client_data : ℕ → Service → Outcome Service
server_cleanup_client_data a s = cleanup_of a s (s.store a)
