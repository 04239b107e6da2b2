-- ===== src/Windows/Run.antt =====
-- server_impl_windows.c: `server_start_and_run` from its options to its end. What the threads do in
-- between is a run of `Service.System`.
pub mod Books
mod Tests
use aio_server.Base.{
  ℕ, ◌-◌, ◌%◌, ◌≡◌, Bool, true, false, Option, none, some, List, [], ◌∷◌, ℤ, pos, negsuc,
}
use aio_server.Atomic.{word_mod}
use aio_server.Kernel.{Kernel}
use aio_server.Windows.Client.{Client}
use aio_server.Windows.Options.{ServerOpts, default_options, parsed, read_options}
use aio_server.Windows.Service.{Listed, Service, Outcome, use_after_free, ok, ◌>>=◌}
use aio_server.Windows.Service.Books.{Store}
use aio_server.Windows.Service.System.{at, ended, Reach}
use aio_server.Windows.Start.{Server, server_cleanup_and_shutdown}
use aio_server.Windows.Start.Init.{server_init}

-- The nodes of the list with the clients that they name, which `client_destructor` reads.
abbrev pub with_node : ℕ → Client → List (ℕ × Client) → Outcome (List (ℕ × Client))
with_node n c cs = ok ((n, c) ∷ cs)

abbrev pub named : ℕ → Option Client → Outcome (List (ℕ × Client)) → Outcome (List (ℕ × Client))
named n none r = use_after_free
named n (some c) r = r >>= with_node n c

unfoldable pub listed_clients : Store → List Listed → Outcome (List (ℕ × Client))
listed_clients st [] = ok []
listed_clients st (x ∷ l) = named x.node (st x.item) (listed_clients st l)

-- `so_thread_to_processor_ratio` as the unsigned number that it is multiplied as.
abbrev pub unsigned : ℤ → ℕ
unsigned (pos n) = n % word_mod
unsigned (negsuc n) = (word_mod - 1 - n) % word_mod

-- How a run ends: `server_init` has failed, with the list of clients or without one, or the
-- accepting thread has left its loop.
pub data Ending : Type 0 where
  not_started : Option ℕ → Ending
  has_run : Server → Service → Ending

-- A run that returns, with the kernel then; the copies by `_strdup` are not counted in it.
-- Without a list of clients `BUGSTOP_IF` stops the program, in `dlist_push_head` or at the latest in
-- `server_cleanup_and_shutdown`, so that it does not return. `processors` is what the system says,
-- and `m` the limit of outstanding accepts.
pub data StartAndRun (atoi : List ℕ → ℤ) (content_of : ℕ → List ℕ) (processors : ℕ)
    (args : List (List ℕ)) (k : Kernel) : Ending → Kernel → Type 0 where
  returns_early :
      {o : ServerOpts} {s : Server} {g : Kernel}
      → read_options atoi args default_options ≡ parsed o
      → server_init processors (unsigned o.so_thread_to_processor_ratio) k ≡ (false, s, g)
      → StartAndRun atoi content_of processors args k (not_started s.sv_clients) g
  cleans_up :
      {m l : ℕ} {o : ServerOpts} {s : Server} {g : Kernel} {v : Service} {cs : List (ℕ × Client)}
      → read_options atoi args default_options ≡ parsed o
      → o.so_max_outstanding_accepts ≡ pos m
      → server_init processors (unsigned o.so_thread_to_processor_ratio) k ≡ (true, s, g)
      → s.sv_clients ≡ some l
      → Reach content_of m o.so_www_rootdir g (at v ended)
      → listed_clients v.store v.sv_clients ≡ ok cs
      → StartAndRun atoi content_of processors args k
          (has_run s v)
          (server_cleanup_and_shutdown cs s v.kernel).1
