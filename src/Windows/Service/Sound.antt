-- ===== src/Windows/Service/Sound.antt =====
-- The books of the Windows server's state.
use aio_server.Base.{ℕ, List}
use aio_server.Windows.Service.{Service, Outcome, use_after_free, stopped, out_of_fuel, ok, ◌>>=◌}
use aio_server.Windows.Service.Books.{Books, remove_one}

abbrev pub Sound : ℕ → ℕ → Service → List ℕ → Type 0
Sound m extra s h =
    Books m extra s.store s.pending s.sv_iocp_accept s.sv_outstanding_accepts
      s.so_max_outstanding_accepts h

-- A handler comes to its end, and what it leaves is sound.
pub data Kept (m lost : ℕ) (h : List ℕ) : Outcome Service → Type 0 where
  kept : {s : Service} → Sound m lost s h → Kept m lost h (ok s)

-- What comes to its end has `P`.
pub data Allowed {R : Type 0} (P : R → Type 0) : Outcome R → Type 0 where
  faulty : Allowed P use_after_free
  broken : Allowed P stopped
  unfinished : Allowed P out_of_fuel
  allowed : {r : R} → P r → Allowed P (ok r)

pub >>=-Allowed :
    {A B : Type 0} {P : A → Type 0} {Q : B → Type 0} {r : Outcome A} (f : A → Outcome B)
    → ((a : A) → P a → Allowed Q (f a))
    → Allowed P r
    → Allowed Q (r >>= f)
>>=-Allowed f next faulty = faulty
>>=-Allowed f next broken = broken
>>=-Allowed f next unfinished = unfinished
>>=-Allowed f next (allowed {r = a} p) = next a p

-- The operating system has given the completion to a worker.
abbrev pub taken : ℕ → Service → Service
taken a s = record s { pending = remove_one a s.pending }
