-- ===== src/Kernel.antt =====
-- The operating system as the servers see it: what it answers to each call, and what the process
-- holds. `answers` is what the environment decides; a call under `HANDLE_EINTR_ON_SYSCALL` has
-- here the answer of its last attempt (`Eintr` models the attempts).
pub mod Owns
pub mod Build
pub mod Eintr
use aio_server.Base.{
  ℕ, ◌+◌, ◌-◌, ◌≡◌, Bool, true, false, ◌&&◌, Option, none, some, List, [], ◌∷◌, ◌==◌, if◌then◌else◌,
}

pub data ResourceKind : Type 0 where
  descriptor block string_copy queue queue_name thread client_list address_list winsock lock :
      ResourceKind

abbrev pub kind_code : ResourceKind → ℕ
kind_code descriptor = 0
kind_code block = 1
kind_code string_copy = 2
kind_code queue = 3
kind_code queue_name = 4
kind_code thread = 5
kind_code client_list = 6
kind_code address_list = 7
kind_code winsock = 8
kind_code lock = 9

pub record Resource : Type 0 where
  pub kind : ResourceKind
  pub number : ℕ

abbrev pub resource : ResourceKind → ℕ → Resource
resource c n = record { kind = c; number = n }

unfoldable pub same : Resource → Resource → Bool
same a b = (kind_code a.kind == kind_code b.kind) && (a.number == b.number)

-- A call returns a value, or fails with an `errno`. A null pointer is a failure too.
pub data Answer : Type 0 where
  done : ℕ → Answer
  failed : ℕ → Answer

-- `epoll_data_t`: the member that was written.
pub data EpollData : Type 0 where
  unset : EpollData
  data_fd data_ptr data_u32 data_u64 : ℕ → EpollData

-- A descriptor added to an epoll instance, and the event it reports.
pub record Watch : Type 0 where
  pub epoll_fd : ℕ
  pub fd : ℕ
  pub events : ℕ
  pub content : EpollData

-- `held` counts how often each resource is held; `faults` counts the releases of a resource that
-- is not held, such as a second `close` of a descriptor; `watched` lists what was
-- added to epoll, and `written` what was written to which event descriptor.
pub record Kernel : Type 0 where
  pub answers : ℕ → Answer
  pub calls : ℕ
  pub held : Resource → ℕ
  pub faults : ℕ
  pub watched : List Watch
  pub written : List (ℕ × ℕ)

abbrev pub Sys : Type 0 → Type 0
Sys A = Kernel → A × Kernel

abbrev pub pure : {A : Type 0} → A → Sys A
pure a k = (a, k)

infixl 5 ◌>>=◌ ◌>>◌
abbrev pub ◌>>=◌ : {A B : Type 0} → Sys A → (A → Sys B) → Sys B
◌>>=◌ m f k = f (m k).0 (m k).1

abbrev pub ◌>>◌ : {A B : Type 0} → Sys A → Sys B → Sys B
m >> n = m >>= λ _. n

-- The next answer of the environment.
unfoldable pub ask : Sys Answer
ask k = (k.answers k.calls, record k { calls = k.calls + 1 })

unfoldable pub hold : Resource → Sys (Unit {0})
hold x k = (tt, record k { held = λ r. if same x r then k.held r + 1 else k.held r })

-- A call that returns a new resource or fails.
unfoldable pub acquire : ResourceKind → Sys (Option ℕ)
unfolding ask hold
acquire c k =
    let (a, k') = ask k in
    elim a [ done n ↦ (some n, (hold (resource c n) k').1) | failed e ↦ (none, k') ]

unfoldable pub release : Resource → Sys (Unit {0})
release x k =
    if k.held x == 0
    then (tt, record k { faults = k.faults + 1 })
    else (tt, record k { held = λ r. if same x r then k.held r - 1 else k.held r })

unfoldable pub release_all : List Resource → Sys (Unit {0})
release_all [] = pure tt
release_all (x ∷ xs) = release x >> release_all xs

-- An access through a null pointer.
unfoldable pub crash : Sys (Unit {0})
crash k = (tt, record k { faults = k.faults + 1 })

-- The errors that the program tells apart, with their Linux numbers.
abbrev pub eagain : ℕ
eagain = 11

abbrev pub ewouldblock : ℕ
ewouldblock = 11

abbrev pub write_from : ℕ → ℕ → Answer × Kernel → Unit {0} × Kernel
write_from fd v (done n, k) = (tt, record k { written = (fd, v) ∷ k.written })
write_from fd v (failed e, k) = (tt, k)

-- `write` of a number to an event descriptor; the program does not look at the result.
unfoldable pub write_event : ℕ → ℕ → Sys (Unit {0})
write_event fd v k = write_from fd v (ask k)
