-- ===== src/Atomic.antt =====
-- base/atomic_gcc.h and base/atomic_msvc.h: the operations on a 32-bit word of memory. Each is
-- one step, which gives its result and the word after it.
use aio_server.Base.{
  ℕ, ◌+◌, ◌%◌, ◌<◌, ◌≡◌, ◌≢◌, refl, ◌∙◌, ◌==◌, if◌then◌else◌, List, [], ◌∷◌, arith,
}
use mathlib.Core.List.{Permᴰ}
use mathlib.Core.List.Permᴰ.{nil, cons, swap, trans}

abbrev pub word_mod : ℕ
word_mod = 4294967296

pub record Step : Type 0 where
  pub result : ℕ
  pub memory : ℕ

unfoldable pub atomic32_load : ℕ → ℕ
atomic32_load m = m

unfoldable pub atomic32_store : ℕ → ℕ → ℕ
atomic32_store m val = val

unfoldable pub atomic32_compare_and_swap : ℕ → ℕ → ℕ → Step
atomic32_compare_and_swap m comparand newval = record {
  result = m;
  memory = if m == comparand then newval else m;
}

unfoldable pub atomic32_swap : ℕ → ℕ → Step
atomic32_swap m newval = record { result = m; memory = newval }

unfoldable pub atomic32_increment : ℕ → ℕ → Step
atomic32_increment m newval = record {
  result = (m + newval) % word_mod;
  memory = (m + newval) % word_mod;
}

-- The same function of atomic_msvc.h, by `InterlockedExchangeAdd`.
unfoldable pub atomic32_increment_msvc : ℕ → ℕ → Step
atomic32_increment_msvc m newval = record { result = m; memory = (m + newval) % word_mod }

-- Threads add their amounts one after another, in some order.
abbrev pub increments : ℕ → List ℕ → ℕ
increments m [] = m
increments m (d ∷ ds) = increments (atomic32_increment m d).memory ds

abbrev pub total : List ℕ → ℕ
total [] = 0
total (d ∷ ds) = d + total ds

increments-total : (m : ℕ) (ds : List ℕ) → increments m ds % word_mod ≡ (m + total ds) % word_mod
unfolding atomic32_increment
increments-total m [] = omega arith
increments-total m (d ∷ ds) =
    let rest = increments-total ((m + d) % word_mod) ds in omega (arith, rest)

increments-IsWord : (m : ℕ) (ds : List ℕ) → m < word_mod → increments m ds < word_mod
unfolding atomic32_increment
increments-IsWord m [] lt = lt
increments-IsWord m (d ∷ ds) lt = increments-IsWord ((m + d) % word_mod) ds (omega arith)

total-Permᴰ : {ds es : List ℕ} → Permᴰ ds es → total ds ≡ total es
total-Permᴰ nil = refl
total-Permᴰ (cons e p) = omega (arith, e, total-Permᴰ p)
total-Permᴰ (swap e f) = omega (arith, e, f)
total-Permᴰ (trans p q) = total-Permᴰ p ∙ total-Permᴰ q

-- Atomic increments of a 32-bit word leave the sum modulo 2^32, whatever the order of the
-- threads.
pub increments-any_order :
    {ds es : List ℕ} (m : ℕ)
    → m < word_mod
    → Permᴰ ds es
    → increments m ds ≡ (m + total es) % word_mod
increments-any_order {ds} {es} m lt p =
    let w = increments-IsWord m ds lt in omega (arith, increments-total m ds, total-Permᴰ p, w)

-- Atomic32_increment of the two compilers leaves the same word, but that of atomic_gcc.h returns
-- the new value and that of atomic_msvc.h the old one.
pub increment-differ :
    (m newval : ℕ)
    → ((atomic32_increment m newval).memory ≡ (atomic32_increment_msvc m newval).memory)
      × ((atomic32_increment m newval).result
          ≡ ((atomic32_increment_msvc m newval).result + newval) % word_mod)
unfolding atomic32_increment atomic32_increment_msvc
increment-differ m newval = (refl, refl)

-- Of two calls of atomic32_compare_and_swap for the value that the word has, the first, with
-- another value to store, stores it, and the second returns it and stores nothing.
compare_and_swap-once :
    (m a b : ℕ)
    → a ≢ m
    → let first = atomic32_compare_and_swap m m a in
      let second = atomic32_compare_and_swap first.memory m b in
      (first.result ≡ m) × (second.result ≡ a) × (second.memory ≡ a)
unfolding atomic32_compare_and_swap
compare_and_swap-once m a b changed = ground arith
