-- ===== src/Windows/Service/Ledger/Removed.antt =====
-- The removal of a client of the Windows server, and the renewal of one, and the ledger.
use aio_server.Base.{
  ℕ, ◌+◌, ◌≤◌, ◌≡◌, refl, sym, subst, Bool, true, false, Option, some, List, [], ◌∷◌, if◌then◌else◌,
  inl, inr, Bool-cases, Option-cases, arith,
}
use aio_server.Kernel.{block, resource, Resource, Kernel, release}
use aio_server.Kernel.Owns.{IsOwning, same_refl}
use aio_server.Windows.Client.{Client, client_reinit}
use aio_server.Windows.Client.Owned.{
  client_owned, client_destroy-IsOwning, Ready, again, no_socket, reinit-Ready,
}
use aio_server.Windows.Service.{◌>>=◌, Listed, Service, Outcome, stopped}
use aio_server.Windows.Service.Accept.{
  client_compare_fn, kept_in_front, is_equal, remove_equal, removed, freed, cleanup_of,
  server_remove_client_from_list, server_cleanup_client_data,
}
use aio_server.Windows.Service.Main.{stored, reinit_of, reinit_client}
use aio_server.Windows.Service.Ledger.{
  Keeping, node_share, rest, opened, closed, gone, listed_less, others, update-same,
}
use aio_server.Windows.Service.Ledger.Workers.{modified}
use aio_server.Windows.Service.Sound.{Allowed, broken, faulty, unfinished, allowed, >>=-Allowed}

-- From `l` and `k` to the nodes that are left: the others are given back.
abbrev Fewer : List Listed → Kernel → List Listed × Kernel → Type 0
Fewer l k (xs, k') =
    ((r : Resource) → k'.held r + node_share r l ≡ k.held r + node_share r xs)
    × (k'.faults ≡ k.faults)

module _ (x : Listed) (l : List Listed) (k : Kernel)
    (held : (r : Resource) → node_share r (x ∷ l) ≤ k.held r) where
  released-Fewer : Fewer (x ∷ l) k (l, (release (resource block x.node) k).1)
  unfolding release
  released-Fewer =
      let n = resource block x.node in
      (λ r. ground (arith, held r, held n, same_refl n), ground (arith, held n, same_refl n))

  in_front-Fewer :
      (r : List Listed × Kernel) → Fewer l k r → Allowed (Fewer (x ∷ l) k) (kept_in_front x r)
  in_front-Fewer (xs, k') (h, f) = allowed (λ r. omega (arith, h r), f)

remove_equal-Fewer :
    (store : ℕ → Option Client) (c : Client) (l : List Listed) (k : Kernel)
    → ((r : Resource) → node_share r l ≤ k.held r)
    → Allowed (Fewer l k) (remove_equal store c l k)
unfolding remove_equal
remove_equal-Fewer store c [] k held = allowed (λ r. refl, refl)
remove_equal-Fewer store c (x ∷ l) k held = elim (Option-cases (store x.item)) [
  | inl free ↦ rw (free, remove_equal) faulty
  | inr (d, alive) ↦
      rw (alive, remove_equal)
        (elim (Bool-cases (is_equal (client_compare_fn d c))) [
          | inl e ↦ rw e (allowed (released-Fewer x l k held))
          | inr e ↦ rw e (
              >>=-Allowed (kept_in_front x) (in_front-Fewer x l k held)
                (remove_equal-Fewer store c l k (λ r. omega (arith, held r))))
        ])
]

Ready-owning :
    {f : Kernel} (t : Bool) (c : Client) (k : Kernel)
    → Ready f [] (t, c, k)
    → IsOwning f k (client_owned c [])
Ready-owning t c k (again e e' o) = o
Ready-owning t c k (no_socket e e' o) = o

-- Two steps behind what is allowed.
twice-Allowed :
    {A B C : Type 0} {P : A → Type 0} {Q : C → Type 0} (f : A → Outcome B) (g : B → Outcome C)
    {r : Outcome A}
    → ((x : A) → P x → Allowed Q (f x >>= g))
    → Allowed P r
    → Allowed Q (r >>= f >>= g)
twice-Allowed f g next faulty = faulty
twice-Allowed f g next broken = broken
twice-Allowed f g next unfinished = unfinished
twice-Allowed f g next (allowed {r = x} p) = next x p

module _ {k₀ : Kernel} (a : ℕ) where
  module _ (c : Client) (s : Service) (alive : s.store a ≡ some c) (b : Keeping k₀ s) where
    freed-Keeping :
        (r : List Listed × Kernel)
        → Fewer s.sv_clients s.kernel r
        → Allowed (Keeping k₀) (removed a c s r >>= freed a c)
    freed-Keeping (xs, k) (h, f) =
        let c' = record c { cl_is_tracked = false } in
        let t = record s { kernel = k; sv_clients = xs } in
        let b' = modified a c c' t alive refl (listed_less b xs h f) in
        let alive' = update-same s.store a (some c') in
        allowed (gone b' a c' alive' (client_destroy-IsOwning c (opened b' a c' alive')))

    listed_held : (r : Resource) → node_share r s.sv_clients ≤ s.kernel.held r
    listed_held r = omega (arith, b.holds r)

    flagged-Allowed :
        (t : Bool)
        → let r = remove_equal s.store c s.sv_clients s.kernel in
          Allowed (Keeping k₀) ((if t then r >>= removed a c s else stopped) >>= freed a c)
    flagged-Allowed true =
        twice-Allowed (removed a c s) (freed a c) freed-Keeping
          (remove_equal-Fewer s.store c s.sv_clients s.kernel listed_held)
    flagged-Allowed false = broken

  pub cleanup-Allowed :
      (s : Service) → Keeping k₀ s → Allowed (Keeping k₀) (server_cleanup_client_data a s)
  unfolding server_cleanup_client_data server_remove_client_from_list
  cleanup-Allowed s b = elim (Option-cases (s.store a)) [
    | inl free ↦ rw free faulty
    | inr (c, alive) ↦
        subst (λ o. Allowed (Keeping k₀) (cleanup_of a s o)) (sym alive)
          (flagged-Allowed c s alive b c.cl_is_tracked)
  ]

  stored-Keeping :
      (c : Client) (s : Service) (alive : s.store a ≡ some c) (b : Keeping k₀ s)
      (r : Bool × Client × Kernel)
      → Ready (rest k₀ s.store s.sv_clients (others b a c alive)) [] r
      → Keeping k₀ (stored a s r)
  stored-Keeping c s alive b (t, c', k) ready = closed b a c alive c' (Ready-owning t c' k ready)

  pub reinit-Allowed :
      (reuse : Bool) (s : Service) → Keeping k₀ s → Allowed (Keeping k₀) (reinit_client a reuse s)
  unfolding reinit_client
  reinit-Allowed reuse s b = elim (Option-cases (s.store a)) [
    | inl free ↦ rw free faulty
    | inr (c, alive) ↦
        subst (λ o. Allowed (Keeping k₀) (reinit_of a reuse s o)) (sym alive)
          (allowed (
            stored-Keeping c s alive b (client_reinit reuse c s.kernel)
              (reinit-Ready reuse c (opened b a c alive))))
  ]
