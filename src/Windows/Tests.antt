-- ===== src/Windows/Tests.antt =====
-- The theorems on server_impl_windows.c in a concrete environment.
use aio_server.Base.{
  true, ℕ, ◌+◌, ◌*◌, ◌-◌, refl, some, none, List, [], ◌∷◌, ℤ, pos, ◌==◌, if◌then◌else◌,
}
use aio_server.Kernel.{descriptor, block, Resource, resource, done, Kernel, hold}
use aio_server.Kernel.Owns.{IsOwning, IsOwning-refl, hold-IsOwning}
use aio_server.Windows.Client.{Client, new_client}
use aio_server.Windows.Client.Owned.{client_owned}
use aio_server.Windows.Service.{Service}
use aio_server.Windows.Service.Accept.{server_cleanup_client_data}
use aio_server.Windows.Service.System.{initial}
use aio_server.Windows.Service.Removal.{nobody, apart, CleanedUp, cleanup-CleanedUp}
use aio_server.Windows.Start.{Server, zeroed}
use aio_server.Windows.Start.Init.{server_init}
use aio_server.Windows.Start.Owned.{running_owned}
use aio_server.Windows.Start.Books.{Initialised, server_init-Initialised}
use aio_server.Windows.Options.{default_options, read_options}
use aio_server.Windows.Options.Read.{Reading, read_options-valid}

abbrev boot : Kernel
boot = record {
  answers = λ i. done i;
  calls = 0;
  held = λ r. 0;
  faults = 0;
  watched = [];
  written = [];
}

-- The client in the block 60 with the buffer 61 and the socket 30, and what it owns.
abbrev client : Client
client = new_client 60 61 30

abbrev busy : Kernel
busy =
    (hold (resource descriptor 30) (hold (resource block 61) (hold (resource block 60) boot).1).1).1

busy-IsOwning : IsOwning boot busy (client_owned client [])
busy-IsOwning =
    hold-IsOwning (resource descriptor 30)
      (hold-IsOwning (resource block 61) (hold-IsOwning (resource block 60) (IsOwning-refl boot)))

server_init-Initialised_example : Initialised boot (server_init 2 1 boot)
server_init-Initialised_example = server_init-Initialised 2 1 boot

-- A server with a thread and one client in its list.
abbrev server : Server
server = record zeroed {
  sv_sock = 3;
  sv_iocp = 5;
  sv_iocp_accept = 6;
  sv_threads_block = 2;
  sv_worker_threads = some 1 ∷ none ∷ [];
  sv_worker_count = 2;
  sv_clients = some 4;
}

abbrev clients : List (ℕ × Client)
clients = (70, client) ∷ []

abbrev hold_all : List Resource → Kernel → Kernel
hold_all [] k = k
hold_all (x ∷ xs) k = (hold x (hold_all xs k)).1

hold_all-IsOwning : (xs : List Resource) (k : Kernel) → IsOwning k (hold_all xs k) xs
hold_all-IsOwning [] k = IsOwning-refl k
hold_all-IsOwning (x ∷ xs) k = hold-IsOwning x (hold_all-IsOwning xs k)

abbrev at_work : Kernel
at_work = hold_all (running_owned clients server) boot

-- `atoi` on texts of digits.
abbrev digits : ℕ → List ℕ → ℕ
digits n [] = n
digits n (x ∷ xs) = digits (n * 10 + (x - 48)) xs

abbrev decimal : List ℕ → ℤ
decimal l = pos (digits 0 l)

read_options-valid_example :
    Reading decimal (read_options decimal ((b'x' ∷ []) ∷ []) default_options)
read_options-valid_example = read_options-valid decimal ((b'x' ∷ []) ∷ []) refl

-- The client is listed behind another one.
abbrev neighbour : Client
neighbour = new_client 62 63 31

abbrev listing : Service
listing = record (initial 2 [] (hold_all (resource block 70 ∷ client_owned client []) boot)) {
  store = λ b.
      if b == 60
      then some (record client { cl_is_tracked = true })
      else if b == 62
      then some neighbour
      else none;
  sv_clients = record { node = 71; item = 62 } ∷ record { node = 70; item = 60 } ∷ [];
}

cleanup-CleanedUp_example :
    CleanedUp 60 listing
      (record { node = 71; item = 62 } ∷ [])
      boot
      []
      (server_cleanup_client_data 60 listing)
cleanup-CleanedUp_example =
    cleanup-CleanedUp {front = record { node = 71; item = 62 } ∷ []} 70 60 []
      (record client { cl_is_tracked = true }) listing refl refl refl
      (apart {d = neighbour} refl refl nobody)
      (hold_all-IsOwning (resource block 70 ∷ client_owned client []) boot)
