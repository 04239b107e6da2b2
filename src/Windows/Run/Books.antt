-- ===== src/Windows/Run/Books.antt =====
-- What is held after a run of the Windows server.
use aio_server.Base.{
  ℕ, ◌+◌, ◌<◌, ◌≡◌, refl, sym, ap, ◌∙◌, subst, Bool, true, false, Option, none, some, List, [], ◌∷◌,
  ==_refl, arith, ℤ, inl, inr, Option-cases,
}
use aio_server.Kernel.{block, Resource, resource, Kernel}
use aio_server.Kernel.Owns.{IsOwning, count as times}
use aio_server.Windows.Client.{Client}
use aio_server.Windows.Client.Owned.{handle_owned, client_owned}
use aio_server.Windows.Run.{
  with_node, listed_clients, Ending, not_started, has_run, StartAndRun, returns_early, cleans_up,
}
use aio_server.Windows.Service.{◌>>=◌, Listed, Service, ok}
use aio_server.Windows.Service.Books.{Store, is_alive, count, remove_one, count-remove_one}
use aio_server.Windows.Service.Ledger.{Ledger, client_share, shares, node_share, shares-remove_one}
use aio_server.Windows.Service.Ledger.Reachable.{Reach-Ledger}
use aio_server.Windows.Start.{Server, server_cleanup_and_shutdown}
use aio_server.Windows.Start.Books.{Initialised, running, undone, server_init-Initialised}
use aio_server.Windows.Start.Init.{server_init}
use aio_server.Windows.Start.Owned.{
  threads_owned, clients_owned, nodes_owned, running_owned, GivenBack, shutdown-GivenBack,
}

abbrev pub items : List Listed → List ℕ
items [] = []
items (x ∷ l) = x.item ∷ items l

-- The same clients have the same, in whatever order they are listed.
count-empty : (qs : List ℕ) → ((a : ℕ) → count a qs ≡ 0) → qs ≡ []
count-empty [] h = refl
count-empty (q ∷ qs) h = absurd (let e = h q in ground (arith, ==_refl q))

shares-same :
    (r : Resource) (st : Store) (ps qs : List ℕ)
    → ((a : ℕ) → count a ps ≡ count a qs)
    → shares r st ps ≡ shares r st qs
shares-same r st [] qs h = ap (shares r st) (sym (count-empty qs (λ a. sym (h a))))
shares-same r st (p ∷ ps) qs h =
    let has : 0 < count p qs = (let e = h p in ground (arith, ==_refl p)) in
    omega (
      arith,
      shares-remove_one r st p qs has,
      shares-same r st ps (remove_one p qs)
          (λ a. let e = h a in ground (arith, count-remove_one a p qs has)),
    )

times-handle :
    (r : Resource) (h : Option ℕ) (xs : List Resource)
    → times r (handle_owned h xs) ≡ times r (handle_owned h []) + times r xs
times-handle r none xs = omega arith
times-handle r (some n) xs = omega arith

times-client :
    (r : Resource) (c : Client) (xs : List Resource)
    → times r (client_owned c xs) ≡ client_share r (some c) + times r xs
times-client r c xs =
    let blocks =
      λ (ys : List Resource). resource block c.cl_buffer ∷ resource block c.cl_address ∷ ys in
    omega (
      arith,
      times-handle r c.cl_sock (handle_owned c.cl_file (blocks xs)),
      times-handle r c.cl_file (blocks xs),
      times-handle r c.cl_sock (handle_owned c.cl_file (blocks [])),
      times-handle r c.cl_file (blocks []),
    )

times-threads :
    (r : Resource) (ts : List (Option ℕ)) (d : ℕ) (xs ys : List Resource)
    → times r xs ≡ d + times r ys
    → times r (threads_owned ts xs) ≡ d + times r (threads_owned ts ys)
times-threads r [] d xs ys e = e
times-threads r (none ∷ ts) d xs ys e = times-threads r ts d xs ys e
times-threads r (some t ∷ ts) d xs ys e = omega (arith, times-threads r ts d xs ys e)

-- The clients that the list names, each with its node.
record Named (st : Store) (l : List Listed) (cs : List (ℕ × Client)) : Type 0 where
  lists : listed_clients st l ≡ ok cs
  clients :
      (r : Resource) (xs : List Resource)
      → times r (clients_owned cs xs) ≡ shares r st (items l) + times r xs
  nodes :
      (r : Resource) (xs : List Resource)
      → times r (nodes_owned cs xs) ≡ node_share r l + times r xs

all-Named :
    (st : Store) (l : List Listed)
    → ((a : ℕ) → 0 < count a (items l) → 0 < is_alive (st a))
    → (cs : List (ℕ × Client)) × Named st l cs
unfolding listed_clients
all-Named st [] h =
    ([], record { lists = refl; clients = λ r xs. omega arith; nodes = λ r xs. omega arith })
all-Named st (x ∷ l) h = elim (Option-cases (st x.item)) [
  | inl free ↦ absurd (let e = h x.item in ground (arith, ==_refl x.item, ap is_alive free))
  | inr (c, alive) ↦
      let (cs, n) = all-Named st l (λ a more. h a (ground arith)) in
      (
        (x.node, c) ∷ cs,
        record {
          lists = rw alive (ap (λ r. r >>= with_node x.node c) n.lists);
          clients = λ r xs. omega (
            arith,
            times-client r c (clients_owned cs xs),
            n.clients r xs,
            ap (client_share r) alive,
          );
          nodes = λ r xs. omega (arith, n.nodes r xs);
        },
      )
]

-- With the clients of a ledger in the list, the server owns what it owns without them, and the rest.
times-running :
    (r : Resource) (s : Server) {st : Store} {l : List Listed} {cs : List (ℕ × Client)}
    → Named st l cs
    → times r (running_owned cs s)
      ≡ (shares r st (items l) + node_share r l) + times r (running_owned [] s)
times-running r s {st} {l} {cs} n =
    times-threads r s.sv_worker_threads (shares r st (items l) + node_share r l) _ _
      (omega (arith, n.clients r (nodes_owned cs _), n.nodes r _))

-- Each client that is allocated stands in the list, once, and nothing else does.
abbrev pub AllListed : Ending → Type 0
AllListed (not_started l) = Unit
AllListed (has_run s v) = (a : ℕ) → count a (items v.sv_clients) ≡ is_alive (v.store a)

abbrev pub list_of : Ending → Option ℕ
list_of (not_started l) = l
list_of (has_run s v) = s.sv_clients

-- What `server_init` leaves, by its result.
abbrev AtWork : Kernel → Bool × Server × Kernel → Type 0
AtWork k (true, s, g) = IsOwning k g (running_owned [] s)
AtWork k (false, s, g) = GivenBack k s.sv_clients g

Initialised-AtWork : {k : Kernel} (r : Bool × Server × Kernel) → Initialised k r → AtWork k r
Initialised-AtWork (true, s, g) (running work) = work.owning
Initialised-AtWork (false, s, g) (undone back) = back

init-AtWork :
    (k : Kernel) (processors ratio : ℕ) (r : Bool × Server × Kernel)
    → server_init processors ratio k ≡ r
    → AtWork k r
init-AtWork k processors ratio r e = subst (AtWork k) e (
    Initialised-AtWork (server_init processors ratio k)
      (server_init-Initialised processors ratio k))

-- The server at work, with the clients of its list.
served-IsOwning :
    {k g : Kernel} (s : Server) (v : Service) (cs : List (ℕ × Client))
    → IsOwning k g (running_owned [] s)
    → Ledger g v.store v.sv_clients v.kernel
    → AllListed (has_run s v)
    → Named v.store v.sv_clients cs
    → IsOwning k v.kernel (running_owned cs s)
served-IsOwning s v cs o b tidy n = record {
  holds = λ r. omega (
    arith,
    b.holds r,
    o.holds r,
    times-running r s n,
    shares-same r v.store b.clients (items v.sv_clients) (λ a. b.once a ∙ sym (tidy a)),
  );
  sound = b.sound ∙ o.sound;
}

-- A run of server_start_and_run on Windows that returns, and at whose end, if server_init
-- succeeded, each allocated client stands once in the list, gives back all that it took from the
-- kernel, each once; but where server_init has made no list of clients, the program may instead
-- be stopped once at the test for it.
pub run-GivenBack :
    {atoi : List ℕ → ℤ} {content_of : ℕ → List ℕ} {args : List (List ℕ)} {k k' : Kernel}
    {e : Ending} (processors : ℕ)
    → StartAndRun atoi content_of processors args k e k'
    → AllListed e
    → GivenBack k (list_of e) k'
run-GivenBack {k} {k'} processors (returns_early {s} read init) tidy =
    init-AtWork k processors _ (false, s, k') init
run-GivenBack {k} processors (cleans_up {s} {g} {v} {cs} read limit init has_list reach listed)
      tidy =
    let (cs', n) = all-Named v.store v.sv_clients (λ a more. let e = tidy a in omega arith) in
    subst (λ l. GivenBack k s.sv_clients (server_cleanup_and_shutdown l s v.kernel).1)
      (cc (n.lists, listed))
      (shutdown-GivenBack cs' s (
        served-IsOwning s v cs' (init-AtWork k processors _ (true, s, g) init) (Reach-Ledger reach)
          tidy n))
