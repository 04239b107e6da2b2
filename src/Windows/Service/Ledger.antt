-- ===== src/Windows/Service/Ledger.antt =====
-- What the threads of the Windows server own together: the handles and the blocks of the clients
-- that are allocated, and the nodes of the list.
pub mod Reachable
pub mod Removed
pub mod Requests
pub mod Workers
use aio_server.Base.{
  ℕ, zero, suc, ◌+◌, ◌≤◌, ◌<◌, ◌≡◌, refl, ap, ◌∙◌, Option, none, some, List, [], ◌∷◌, ◌==◌, ==_refl,
  if◌then◌else◌, arith,
}
use aio_server.Kernel.{block, Resource, resource, Kernel}
use aio_server.Kernel.Owns.{IsOwning, count as times}
use aio_server.Windows.Client.{Client}
use aio_server.Windows.Client.Owned.{client_owned}
use aio_server.Windows.Service.{Listed, Service}
use aio_server.Windows.Service.Books.{Store, update, is_alive, count, remove_one, count-remove_one}

-- How often a client has a resource, and the clients of a list, and the nodes.
abbrev pub client_share : Resource → Option Client → ℕ
client_share r none = 0
client_share r (some c) = times r (client_owned c [])

abbrev pub shares : Resource → Store → List ℕ → ℕ
shares r st [] = 0
shares r st (a ∷ ps) = client_share r (st a) + shares r st ps

abbrev pub node_share : Resource → List Listed → ℕ
node_share r [] = 0
node_share r (x ∷ l) = times r (resource block x.node ∷ []) + node_share r l

-- Beside what `k₀` holds, just that is held, each as often as it is had, and no release went wrong.
-- `clients` has the address of each client that is allocated, once.
pub record Ledger (k₀ : Kernel) (st : Store) (l : List Listed) (k : Kernel) : Type 0 where
  pub clients : List ℕ
  pub once : (a : ℕ) → count a clients ≡ is_alive (st a)
  pub holds : (r : Resource) → k.held r ≡ shares r st clients + node_share r l + k₀.held r
  pub sound : k.faults ≡ k₀.faults

abbrev pub Keeping : Kernel → Service → Type 0
Keeping k₀ s = Ledger k₀ s.store s.sv_clients s.kernel

pub shares-remove_one :
    (r : Resource) (st : Store) (a : ℕ) (ps : List ℕ)
    → 0 < count a ps
    → shares r st (remove_one a ps) + client_share r (st a) ≡ shares r st ps
shares-remove_one r st a [] h = omega (arith, h)
shares-remove_one r st a (x ∷ xs) h = grind (arith, shares-remove_one r st a xs)

shares-update :
    (r : Resource) (st : Store) (a : ℕ) (o : Option Client) (ps : List ℕ)
    → count a ps ≡ 0
    → shares r (update st a o) ps ≡ shares r st ps
shares-update r st a o [] h = refl
shares-update r st a o (x ∷ xs) h = ground (arith, shares-update r st a o xs)

-- All but the clients in a list `ps`.
abbrev pub rest : Kernel → Store → List Listed → List ℕ → Kernel
rest k₀ st l ps = record k₀ { held = λ r. shares r st ps + node_share r l + k₀.held r }

pub update-same : (st : Store) (a : ℕ) (o : Option Client) → update st a o a ≡ o
update-same st a o = rw (==_refl a) refl

module _ {k₀ k : Kernel} {st : Store} {l : List Listed} (b : Ledger k₀ st l k) where
  module _ (a : ℕ) (c : Client) (alive : st a ≡ some c) where
    abbrev pub others : List ℕ
    others = remove_one a b.clients

    has : count a b.clients ≡ 1
    has = b.once a ∙ ap is_alive alive

    has_not : count a others ≡ 0
    has_not = let h = has in ground (arith, count-remove_one a a b.clients)

    -- The client by itself.
    pub opened : IsOwning (rest k₀ st l others) k (client_owned c [])
    opened = record {
      holds = λ r. omega (
        arith,
        b.holds r,
        shares-remove_one r st a b.clients (omega (arith, has)),
        ap (client_share r) alive,
      );
      sound = b.sound;
    }

    -- The client has changed.
    pub closed :
        {k' : Kernel} (c' : Client)
        → IsOwning (rest k₀ st l others) k' (client_owned c' [])
        → Ledger k₀ (update st a (some c')) l k'
    closed c' o = record {
      clients = b.clients;
      once = λ x. ground (arith, b.once x, ap is_alive alive);
      holds = λ r. omega (
        arith,
        o.holds r,
        shares-remove_one r (update st a (some c')) a b.clients (omega (arith, has)),
        shares-update r st a (some c') others has_not,
        ap (client_share r) (update-same st a (some c')),
      );
      sound = o.sound;
    }

    pub gone :
        {k' : Kernel} → IsOwning (rest k₀ st l others) k' [] → Ledger k₀ (update st a none) l k'
    gone o = record {
      clients = others;
      once = λ x.
          ground (
            arith,
            b.once x,
            ap is_alive alive,
            count-remove_one x a b.clients (omega (arith, has)),
          );
      holds = λ r. omega (arith, o.holds r, shares-update r st a none others has_not);
      sound = o.sound;
    }

  -- A client that is new.
  pub added :
      {k' : Kernel} (a : ℕ) (c : Client)
      → st a ≡ none
      → IsOwning k k' (client_owned c [])
      → Ledger k₀ (update st a (some c)) l k'
  added a c free o =
      let absent : count a b.clients ≡ 0 = b.once a ∙ ap is_alive free in
      record {
        clients = a ∷ b.clients;
        once = λ x. ground (arith, b.once x, ap is_alive free);
        holds = λ r. omega (
          arith,
          o.holds r,
          b.holds r,
          shares-update r st a (some c) b.clients absent,
          ap (client_share r) (update-same st a (some c)),
        );
        sound = o.sound ∙ b.sound;
      }

  -- A node that is new.
  pub listed_more :
      {k' : Kernel} (x : Listed)
      → IsOwning k k' (resource block x.node ∷ [])
      → Ledger k₀ st (x ∷ l) k'
  listed_more x o = record {
    clients = b.clients;
    once = b.once;
    holds = λ r. omega (arith, o.holds r, b.holds r);
    sound = o.sound ∙ b.sound;
  }

  -- Nothing is taken or given back.
  pub quiet : {k' : Kernel} → IsOwning k k' [] → Ledger k₀ st l k'
  quiet o = record {
    clients = b.clients;
    once = b.once;
    holds = λ r. omega (arith, o.holds r, b.holds r);
    sound = o.sound ∙ b.sound;
  }

  -- Nodes are given back.
  pub listed_less :
      {k' : Kernel} (l' : List Listed)
      → ((r : Resource) → k'.held r + node_share r l ≡ k.held r + node_share r l')
      → k'.faults ≡ k.faults
      → Ledger k₀ st l' k'
  listed_less l' e f = record {
    clients = b.clients;
    once = b.once;
    holds = λ r. omega (arith, e r, b.holds r);
    sound = f ∙ b.sound;
  }
