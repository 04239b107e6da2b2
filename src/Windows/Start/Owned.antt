-- ===== src/Windows/Start/Owned.antt =====
-- What the Windows server owns, and what `server_init` on failure and `server_cleanup_and_shutdown`
-- give back.
use aio_server.Base.{
  ℕ, zero, suc, ◌≤◌, ◌≡◌, refl, Option, none, some, List, [], ◌∷◌, arith, ◌==◌, if◌then◌else◌, inl,
  inr, Option-cases,
}
use aio_server.Kernel.{
  descriptor, block, thread, client_list, winsock, lock, Resource, resource, Kernel, crash, release,
}
use aio_server.Kernel.Owns.{IsOwning, release-IsOwning}
use aio_server.Windows.Client.{Client, client_destroy}
use aio_server.Windows.Client.Owned.{client_owned, client_destroy-IsOwning}
use aio_server.Windows.Start.{
  Server, undo_init, destroy_list, close_threads, destroy_clients, destroy_nodes,
  server_cleanup_and_shutdown,
}

abbrev pub list_owned : Option ℕ → List Resource → List Resource
list_owned none xs = xs
list_owned (some l) xs = resource client_list l ∷ xs

-- What a level of `server_init` stands for, on top of what those below it do.
abbrev on_level : ℕ → Server → List Resource → List Resource
on_level r s xs =
    if r == 1
    then resource winsock 0 ∷ xs
    else if r == 2
    then resource lock 0 ∷ resource lock 1 ∷ xs
    else if r == 3
    then list_owned s.sv_clients xs
    else if r == 4
    then resource descriptor s.sv_iocp ∷ xs
    else if r == 5
    then resource descriptor s.sv_iocp_accept ∷ xs
    else resource descriptor s.sv_sock ∷ xs

abbrev pub server_owned : ℕ → Server → List Resource
server_owned zero s = []
server_owned (suc r) s = on_level (suc r) s (server_owned r s)

abbrev pub threads_owned : List (Option ℕ) → List Resource → List Resource
threads_owned [] xs = xs
threads_owned (none ∷ ts) xs = threads_owned ts xs
threads_owned (some t ∷ ts) xs = resource thread t ∷ threads_owned ts xs

abbrev pub clients_owned : List (ℕ × Client) → List Resource → List Resource
clients_owned [] xs = xs
clients_owned ((node, c) ∷ cs) xs = client_owned c (clients_owned cs xs)

abbrev pub nodes_owned : List (ℕ × Client) → List Resource → List Resource
nodes_owned [] xs = xs
nodes_owned ((node, c) ∷ cs) xs = resource block node ∷ nodes_owned cs xs

-- All is given back; or there is no list, and the program was stopped once at the test for it.
pub data GivenBack (k₀ : Kernel) (l : Option ℕ) (k : Kernel) : Type 0 where
  given_back : IsOwning k₀ k [] → GivenBack k₀ l k
  bug_stop : l ≡ none → IsOwning (crash k₀).1 k [] → GivenBack k₀ l k

crash-IsOwning :
    {k₀ k : Kernel} {xs : List Resource} → IsOwning k₀ k xs → IsOwning (crash k₀).1 (crash k).1 xs
unfolding crash
crash-IsOwning o = record { holds = o.holds; sound = omega (arith, o.sound) }

ended :
    {k₀ k : Kernel}
    → IsOwning k₀ k (resource lock 0 ∷ resource lock 1 ∷ resource winsock 0 ∷ [])
    → IsOwning k₀
        (release
          (resource winsock 0)
          (release (resource lock 1) (release (resource lock 0) k).1).1).1
        []
ended o =
    release-IsOwning (resource winsock 0)
      (release-IsOwning (resource lock 1) (release-IsOwning (resource lock 0) o))

list-GivenBack :
    {k₀ : Kernel} (k : Kernel) (l : Option ℕ)
    → IsOwning k₀ k (list_owned l (resource lock 0 ∷ resource lock 1 ∷ resource winsock 0 ∷ []))
    → GivenBack k₀ l
        (release
          (resource winsock 0)
          (release (resource lock 1) (release (resource lock 0) (destroy_list l k).1).1).1).1
list-GivenBack k none o = bug_stop refl (ended (crash-IsOwning o))
list-GivenBack k (some l) o = given_back (ended (release-IsOwning (resource client_list l) o))

-- The `switch`, for each level.
undo_at :
    (r : ℕ) {k₀ k : Kernel} (s : Server)
    → r ≤ 6
    → s.rollback ≡ r
    → IsOwning k₀ k (server_owned r s)
    → GivenBack k₀ s.sv_clients (undo_init s k).1
unfolding undo_init
undo_at zero s le e o = rw e (given_back o)
undo_at (suc zero) s le e o = rw e (given_back (release-IsOwning _ o))
undo_at (suc (suc zero)) s le e o = rw e (given_back (ended o))
undo_at (suc (suc (suc zero))) s le e o = rw e (list-GivenBack _ s.sv_clients o)
undo_at (suc (suc (suc (suc zero)))) s le e o =
    rw e (list-GivenBack _ s.sv_clients (release-IsOwning _ o))
undo_at (suc (suc (suc (suc (suc zero))))) s le e o =
    rw e (list-GivenBack _ s.sv_clients (release-IsOwning _ (release-IsOwning _ o)))
undo_at (suc (suc (suc (suc (suc (suc zero)))))) s le e o =
    rw e (
      list-GivenBack _ s.sv_clients
        (release-IsOwning _ (release-IsOwning _ (release-IsOwning _ o))))
undo_at (suc (suc (suc (suc (suc (suc (suc r))))))) s le e o = absurd (omega (arith, le))

-- What `server_init` has when it leaves.
pub record IsServer (k₀ : Kernel) (s : Server) (k : Kernel) : Type 0 where
  pub level : s.rollback ≤ 6
  pub owning : IsOwning k₀ k (server_owned s.rollback s)

pub undo-GivenBack :
    {k₀ k : Kernel} (s : Server) → IsServer k₀ s k → GivenBack k₀ s.sv_clients (undo_init s k).1
undo-GivenBack s i = undo_at s.rollback s i.level refl i.owning

close_threads-IsOwning :
    {k₀ : Kernel} (k : Kernel) (ts : List (Option ℕ)) {xs : List Resource}
    → IsOwning k₀ k (threads_owned ts xs)
    → IsOwning k₀ (close_threads ts k).1 xs
unfolding close_threads
close_threads-IsOwning k [] o = o
close_threads-IsOwning k (none ∷ ts) o = close_threads-IsOwning k ts o
close_threads-IsOwning k (some t ∷ ts) o =
    close_threads-IsOwning (release (resource thread t) k).1 ts
      (release-IsOwning (resource thread t) o)

destroy_clients-IsOwning :
    {k₀ : Kernel} (k : Kernel) (cs : List (ℕ × Client)) {xs : List Resource}
    → IsOwning k₀ k (clients_owned cs xs)
    → IsOwning k₀ (destroy_clients cs k).1 xs
unfolding destroy_clients
destroy_clients-IsOwning k [] o = o
destroy_clients-IsOwning k ((node, c) ∷ cs) o =
    destroy_clients-IsOwning (client_destroy c k).1 cs (client_destroy-IsOwning c o)

destroy_nodes-IsOwning :
    {k₀ : Kernel} (k : Kernel) (cs : List (ℕ × Client)) {xs : List Resource}
    → IsOwning k₀ k (nodes_owned cs xs)
    → IsOwning k₀ (destroy_nodes cs k).1 xs
unfolding destroy_nodes
destroy_nodes-IsOwning k [] o = o
destroy_nodes-IsOwning k ((node, c) ∷ cs) o =
    destroy_nodes-IsOwning (release (resource block node) k).1 cs
      (release-IsOwning (resource block node) o)

list-IsOwning :
    {k₀ k : Kernel} {n : ℕ} {xs : List Resource} (l : Option ℕ)
    → l ≡ some n
    → IsOwning k₀ k (list_owned l xs)
    → IsOwning k₀ (destroy_list l k).1 xs
list-IsOwning none e o = absurd (cc e)
list-IsOwning (some m) e o = release-IsOwning (resource client_list m) o

-- The server at work: its threads and their array, its socket, the clients in its list with their
-- nodes, the list, the ports, the locks and Winsock.
abbrev pub running_owned : List (ℕ × Client) → Server → List Resource
running_owned cs s = threads_owned s.sv_worker_threads (
    resource block s.sv_threads_block
    ∷ resource descriptor s.sv_sock
    ∷ clients_owned cs (
        nodes_owned cs (
          list_owned s.sv_clients (
            resource descriptor s.sv_iocp
            ∷ resource descriptor s.sv_iocp_accept
            ∷ resource lock 0
            ∷ resource lock 1
            ∷ resource winsock 0
            ∷ []))))

-- server_cleanup_and_shutdown of a server that has a list gives back all that the server and the
-- clients in the list own, each once, whatever clients there are and whichever threads started.
pub shutdown-IsOwning :
    {k₀ k : Kernel} (l : ℕ) (cs : List (ℕ × Client)) (s : Server)
    → s.sv_clients ≡ some l
    → IsOwning k₀ k (running_owned cs s)
    → IsOwning k₀ (server_cleanup_and_shutdown cs s k).1 []
unfolding server_cleanup_and_shutdown
shutdown-IsOwning {k} l cs s e o =
    let nodes =
      destroy_clients-IsOwning _ cs (
        release-IsOwning _ (release-IsOwning _ (close_threads-IsOwning k s.sv_worker_threads o))) in
    ended (
      release-IsOwning _
        (release-IsOwning _ (list-IsOwning s.sv_clients e (destroy_nodes-IsOwning _ cs nodes))))

-- Without a list the program is stopped once.
none-IsOwning :
    {k₀ k : Kernel} {xs : List Resource} (l : Option ℕ)
    → l ≡ none
    → IsOwning k₀ k (list_owned l xs)
    → IsOwning (crash k₀).1 (destroy_list l k).1 xs
none-IsOwning none e o = crash-IsOwning o
none-IsOwning (some m) e o = absurd (cc e)

module _ {k₀ k : Kernel} (cs : List (ℕ × Client)) (s : Server) where
  shutdown-stops :
      s.sv_clients ≡ none
      → IsOwning k₀ k (running_owned cs s)
      → IsOwning (crash k₀).1 (server_cleanup_and_shutdown cs s k).1 []
  unfolding server_cleanup_and_shutdown
  shutdown-stops e o =
      let nodes = destroy_clients-IsOwning _ cs (
        release-IsOwning _ (release-IsOwning _ (close_threads-IsOwning k s.sv_worker_threads o))) in
      ended (
        release-IsOwning _
          (release-IsOwning _ (none-IsOwning s.sv_clients e (destroy_nodes-IsOwning _ cs nodes))))

  pub shutdown-GivenBack :
      IsOwning k₀ k (running_owned cs s)
      → GivenBack k₀ s.sv_clients (server_cleanup_and_shutdown cs s k).1
  shutdown-GivenBack o = elim (Option-cases s.sv_clients) [
    | inl e ↦ bug_stop e (shutdown-stops e o)
    | inr (l, e) ↦ given_back (shutdown-IsOwning l cs s e o)
  ]
