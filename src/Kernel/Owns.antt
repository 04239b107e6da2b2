-- ===== src/Kernel/Owns.antt =====
-- What a piece of code owns: the resources held now beside those that were held before.
use aio_server.Base.{
  ℕ, ◌+◌, ◌≡◌, refl, ◌⊎◌, inl, inr, true, none, some, List, [], ◌∷◌, ◌++◌, arith, if◌then◌else◌,
}
use aio_server.Kernel.{
  ResourceKind, Resource, resource, same, Answer, done, failed, Kernel, ask, hold, acquire, release,
  release_all,
}

-- How often a resource stands in a list.
abbrev pub count : Resource → List Resource → ℕ
count r [] = 0
count r (x ∷ xs) = (if same x r then 1 else 0) + count r xs

-- From `k` to `g` exactly the resources `xs` have come to be held, and no release went wrong.
pub record IsOwning (k g : Kernel) (xs : List Resource) : Type 0 where
  pub holds : (r : Resource) → g.held r ≡ count r xs + k.held r
  pub sound : g.faults ≡ k.faults

pub same_refl : (x : Resource) → same x x ≡ true
unfolding same
same_refl x = ground arith

pub count-append :
    (r : Resource) (xs ys : List Resource) → count r (xs ++ ys) ≡ count r xs + count r ys
count-append r [] ys = omega arith
count-append r (x ∷ xs) ys = omega (arith, count-append r xs ys)

pub IsOwning-refl : (k : Kernel) → IsOwning k k []
IsOwning-refl k = record { holds = λ r. omega arith; sound = refl }

pub IsOwning-trans :
    {k g f : Kernel} {xs ys : List Resource}
    → IsOwning k g xs
    → IsOwning g f ys
    → IsOwning k f (ys ++ xs)
IsOwning-trans {xs} {ys} o p = record {
  holds = λ r. omega (arith, o.holds r, p.holds r, count-append r ys xs);
  sound = omega (arith, o.sound, p.sound);
}

-- The order in which resources are listed does not matter.
pub IsOwning-reorder :
    {k g : Kernel} {xs : List Resource} (ys : List Resource)
    → IsOwning k g xs
    → ((r : Resource) → count r ys ≡ count r xs)
    → IsOwning k g ys
IsOwning-reorder ys o e = record { holds = λ r. omega (arith, o.holds r, e r); sound = o.sound }

pub ask-IsOwning : {k g : Kernel} {xs : List Resource} → IsOwning k g xs → IsOwning k (ask g).1 xs
unfolding ask
ask-IsOwning o = record { holds = λ r. o.holds r; sound = o.sound }

pub hold-IsOwning :
    {k g : Kernel} {xs : List Resource} (x : Resource)
    → IsOwning k g xs
    → IsOwning k (hold x g).1 (x ∷ xs)
unfolding hold
hold-IsOwning x o = record { holds = λ r. ground (arith, o.holds r); sound = o.sound }

pub release-IsOwning :
    {k g : Kernel} {xs : List Resource} (x : Resource)
    → IsOwning k g (x ∷ xs)
    → IsOwning k (release x g).1 xs
unfolding release
release-IsOwning x o = record {
  holds = λ r. ground (arith, o.holds r, o.holds x, same_refl x);
  sound = ground (arith, o.sound, o.holds x, same_refl x);
}

pub release_all-IsOwning :
    {k : Kernel} (g : Kernel) (xs ys : List Resource)
    → IsOwning k g (xs ++ ys)
    → IsOwning k (release_all xs g).1 ys
unfolding release_all
release_all-IsOwning g [] ys o = o
release_all-IsOwning g (x ∷ xs) ys o =
    release_all-IsOwning (release x g).1 xs ys (release-IsOwning x o)

-- `acquire` either fails and leaves all as it was, or adds one resource.
pub acquire-cases :
    (c : ResourceKind) (k : Kernel)
    → ((g : Kernel) × (acquire c k ≡ (none, g)) × IsOwning k g [])
      ⊎ ((n : ℕ) × (g : Kernel) × (acquire c k ≡ (some n, g)) × IsOwning k g (resource c n ∷ []))
unfolding acquire
acquire-cases c k = go (ask k).0 refl
  where
    go :
        (a : Answer)
        → (ask k).0 ≡ a
        → ((g : Kernel) × (acquire c k ≡ (none, g)) × IsOwning k g [])
          ⊎ ((n : ℕ) × (g : Kernel) × (acquire c k ≡ (some n, g))
              × IsOwning k g (resource c n ∷ []))
    go (done n) e = inr (
      n,
      (hold (resource c n) (ask k).1).1,
      rw e,
      hold-IsOwning (resource c n) (ask-IsOwning (IsOwning-refl k)),
    )
    go (failed x) e = inl ((ask k).1, rw e, ask-IsOwning (IsOwning-refl k))

pub ask-cases :
    (k : Kernel)
    → ((n : ℕ) × (g : Kernel) × (ask k ≡ (done n, g)) × IsOwning k g [] × (g.watched ≡ k.watched))
      ⊎ ((e : ℕ) × (g : Kernel) × (ask k ≡ (failed e, g))
          × IsOwning k g []
          × (g.watched ≡ k.watched))
unfolding ask
ask-cases k = go (k.answers k.calls) refl
  where
    k' : Kernel
    k' = record k { calls = k.calls + 1 }

    o : IsOwning k k' []
    o = record { holds = λ r. omega arith; sound = refl }

    go :
        (a : Answer)
        → k.answers k.calls ≡ a
        → ((n : ℕ) × (g : Kernel) × (ask k ≡ (done n, g))
            × IsOwning k g []
            × (g.watched ≡ k.watched))
          ⊎ ((e : ℕ) × (g : Kernel) × (ask k ≡ (failed e, g))
              × IsOwning k g []
              × (g.watched ≡ k.watched))
    go (done n) e = inl (n, k', rw e, o, refl)
    go (failed x) e = inr (x, k', rw e, o, refl)
