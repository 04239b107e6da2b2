-- ===== src/Lock.antt =====
-- base/lock.h: the locks of the two systems, as far as the program relies on them. A thread is its
-- number.
use aio_server.Base.{
  ℕ, zero, suc, ◌+◌, ◌≡◌, ◌≢◌, refl, Option, none, some, ◌==◌, if◌then◌else◌, arith,
}

-- `owned t n`: thread `t` has entered, and `n` times more.
pub data OsLock : Type 0 where
  unowned : OsLock
  owned : ℕ → ℕ → OsLock

-- What the wrappers call: `pthread_mutex_lock` and `_unlock`, or `EnterCriticalSection` and
-- `LeaveCriticalSection`. `none` says that the caller waits. What happens where the owner enters
-- once more differs between the systems, and is left open.
pub record LockApi : Type 0 where
  pub lock_acquire : ℕ → OsLock → Option OsLock
  pub lock_release : OsLock → OsLock
  pub acquire_unowned : (t : ℕ) → lock_acquire t unowned ≡ some (owned t 0)
  pub acquire_waits : (t u n : ℕ) → u ≢ t → lock_acquire t (owned u n) ≡ none
  pub release_once : (t : ℕ) → lock_release (owned t 0) ≡ unowned

-- A critical section, which its owner may enter again.
abbrev enter : ℕ → OsLock → Option OsLock
enter t unowned = some (owned t 0)
enter t (owned u n) = if u == t then some (owned u (n + 1)) else none

abbrev leave : OsLock → OsLock
leave unowned = unowned
leave (owned t zero) = unowned
leave (owned t (suc n)) = owned t n

pub enter_waits : (t u n : ℕ) → u ≢ t → enter t (owned u n) ≡ none
enter_waits t u n other = ground arith

abbrev pub critical_section : LockApi
critical_section = record {
  lock_acquire = enter;
  lock_release = leave;
  acquire_unowned = λ t. refl;
  acquire_waits = enter_waits;
  release_once = λ t. refl;
}
