-- ===== src/Allocator.antt =====
-- base/allocator.c: the default allocator's counters. What `malloc` answers is a parameter of a
-- call: `none` is the null pointer.
pub mod Dump
use aio_server.Base.{
  ℕ, ◌+◌, ◌%◌, ◌≡◌, refl, Bool, true, false, Option, none, some, List, [], ◌∷◌, ◌==◌, if◌then◌else◌,
  Bool-cases, inl, inr, arith,
}
use aio_server.Atomic.{word_mod, atomic32_increment}

pub record AllocatorInternals : Type 0 where
  pub ai_total_commits : ℕ
  pub ai_total_releases : ℕ

-- `def_all_stats`
abbrev pub def_all_stats : AllocatorInternals
def_all_stats = record { ai_total_commits = 0; ai_total_releases = 0 }

-- A result `none` is the stop at `BUGSTOP_IF`.
unfoldable pub default_mem_alloc :
    ℕ → Option ℕ → AllocatorInternals → Option (Option ℕ × AllocatorInternals)
default_mem_alloc size answer a =
    if size == 0
    then none
    else some
        (answer, record a { ai_total_commits = (atomic32_increment a.ai_total_commits 1).memory })

-- The null pointer is `none`.
unfoldable pub default_mem_release : Option ℕ → AllocatorInternals → Option AllocatorInternals
default_mem_release none a = none
default_mem_release (some p) a =
    some (record a { ai_total_releases = (atomic32_increment a.ai_total_releases 1).memory })

-- A call of the allocator: the size and the answer of `malloc`, or the block.
pub data Call : Type 0 where
  alloc : ℕ → Option ℕ → Call
  free_block : Option ℕ → Call

abbrev pub internals_of : Option (Option ℕ × AllocatorInternals) → Option AllocatorInternals
internals_of none = none
internals_of (some (answer, a)) = some a

abbrev pub call_step : Call → AllocatorInternals → Option AllocatorInternals
call_step (alloc size answer) a = internals_of (default_mem_alloc size answer a)
call_step (free_block p) a = default_mem_release p a

abbrev pub then_step : Call → Option AllocatorInternals → Option AllocatorInternals
then_step c none = none
then_step c (some a) = call_step c a

-- The counters after a history of calls, latest first.
unfoldable pub internals_after : List Call → Option AllocatorInternals
internals_after [] = some def_all_stats
internals_after (c ∷ cs) = then_step c (internals_after cs)

abbrev pub blocks_got : List Call → ℕ
blocks_got [] = 0
blocks_got (alloc size (some p) ∷ cs) = blocks_got cs + 1
blocks_got (alloc size none ∷ cs) = blocks_got cs
blocks_got (free_block p ∷ cs) = blocks_got cs

abbrev pub refusals : List Call → ℕ
refusals [] = 0
refusals (alloc size (some p) ∷ cs) = refusals cs
refusals (alloc size none ∷ cs) = refusals cs + 1
refusals (free_block p ∷ cs) = refusals cs

abbrev pub blocks_freed : List Call → ℕ
blocks_freed [] = 0
blocks_freed (alloc size answer ∷ cs) = blocks_freed cs
blocks_freed (free_block p ∷ cs) = blocks_freed cs + 1

-- Whether a history has a request of no bytes or a release of the null pointer.
abbrev pub is_misused : List Call → Bool
is_misused [] = false
is_misused (alloc size answer ∷ cs) = if size == 0 then true else is_misused cs
is_misused (free_block none ∷ cs) = true
is_misused (free_block (some p) ∷ cs) = is_misused cs

pub data Counted (cs : List Call) : Option AllocatorInternals → Type 0 where
  stopped : is_misused cs ≡ true → Counted cs none
  counted :
      {a : AllocatorInternals}
      → is_misused cs ≡ false
      → a.ai_total_commits ≡ (blocks_got cs + refusals cs) % word_mod
      → a.ai_total_releases ≡ blocks_freed cs % word_mod
      → Counted cs (some a)

alloc-Counted :
    (size : ℕ) (answer : Option ℕ) (cs : List Call) (r : Option AllocatorInternals)
    → Counted cs r
    → Counted (alloc size answer ∷ cs) (then_step (alloc size answer) r)
unfolding default_mem_alloc atomic32_increment
alloc-Counted size answer cs none (stopped e) = stopped (ground (arith, e))
alloc-Counted size answer cs (some a) (counted e c r) = elim (Bool-cases (size == 0)) [
  | inl z ↦ rw z (stopped (rw z refl))
  | inr z ↦ rw z (counted (rw z e) (more answer) r)
]
  where
    more :
        (o : Option ℕ)
        → (atomic32_increment a.ai_total_commits 1).memory
          ≡ (blocks_got (alloc size o ∷ cs) + refusals (alloc size o ∷ cs)) % word_mod
    more (some p) = omega (arith, c)
    more none = omega (arith, c)

free-Counted :
    (p : Option ℕ) (cs : List Call) (r : Option AllocatorInternals)
    → Counted cs r
    → Counted (free_block p ∷ cs) (then_step (free_block p) r)
unfolding default_mem_release atomic32_increment
free-Counted none cs none (stopped e) = stopped refl
free-Counted (some p) cs none (stopped e) = stopped e
free-Counted none cs (some a) (counted e c r) = stopped refl
free-Counted (some p) cs (some a) (counted e c r) = counted e c (omega (arith, r))

-- A history of calls of the default allocator is stopped if and only if it has a request of no
-- bytes or a release of the null pointer; otherwise the commits are the blocks given and the
-- requests refused together, and the releases the blocks freed, modulo 2^32.
pub internals_after-counts : (cs : List Call) → Counted cs (internals_after cs)
unfolding internals_after
internals_after-counts [] = counted refl refl refl
internals_after-counts (alloc size answer ∷ cs) =
    alloc-Counted size answer cs (internals_after cs) (internals_after-counts cs)
internals_after-counts (free_block p ∷ cs) =
    free-Counted p cs (internals_after cs) (internals_after-counts cs)
