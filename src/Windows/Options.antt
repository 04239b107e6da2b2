-- ===== src/Windows/Options.antt =====
-- server_impl_windows.c: the options that `server_start_and_run` reads from its arguments. `atoi` is
-- that of the C library.
pub mod Given
pub mod Read
use aio_server.Base.{
  ℕ, zero, suc, Bool, true, false, not, ◌&&◌, Option, none, some, List, [], ◌∷◌, ◌==◌,
  if◌then◌else◌, ltb, ℤ, pos, negsuc, is_zero,
}
use aio_server.Windows.Text.{strcmp_equal}

-- `struct server_opts`. An `int` is an integer, within its bounds where what `atoi` returns is: nothing
-- is calculated with it here. The texts are those of the copies that `_strdup` makes.
pub record ServerOpts : Type 0 where
  pub so_thread_to_processor_ratio : ℤ
  pub so_www_rootdir : List ℕ
  pub so_max_clients : ℤ
  pub so_port : List ℕ
  pub so_max_outstanding_accepts : ℤ

abbrev pub default_root : List ℕ
default_root =
    b'C' ∷ b':' ∷ b'/' ∷ b't' ∷ b'e' ∷ b'm' ∷ b'p' ∷ b'/' ∷ b'w' ∷ b'w' ∷ b'w' ∷ b'r' ∷ b'o' ∷ b'o'
    ∷ b't' ∷ []

abbrev pub default_port : List ℕ
default_port = b'2' ∷ b'7' ∷ b'0' ∷ b'1' ∷ b'5' ∷ []

-- The defaults, such as -1 for no limit.
abbrev pub default_options : ServerOpts
default_options = record {
  so_thread_to_processor_ratio = pos 1;
  so_www_rootdir = default_root;
  so_max_clients = negsuc 0;
  so_port = default_port;
  so_max_outstanding_accepts = pos 64;
}

-- The options that are known, each with a value.
pub data OptionName : Type 0 where
  option_thread_to_processor_ratio option_port option_www_root_dir option_connection_limit
        option_max_outstanding_accepts :
      OptionName

abbrev pub thread_to_processor_ratio_text : List ℕ
thread_to_processor_ratio_text =
    b't' ∷ b'h' ∷ b'r' ∷ b'e' ∷ b'a' ∷ b'd' ∷ b'-' ∷ b't' ∷ b'o' ∷ b'-' ∷ b'p' ∷ b'r' ∷ b'o' ∷ b'c'
    ∷ b'e' ∷ b's' ∷ b's' ∷ b'o' ∷ b'r' ∷ b'-' ∷ b'r' ∷ b'a' ∷ b't' ∷ b'i' ∷ b'o' ∷ []

abbrev pub port_text : List ℕ
port_text = b'p' ∷ b'o' ∷ b'r' ∷ b't' ∷ []

abbrev pub www_root_dir_text : List ℕ
www_root_dir_text =
    b'w' ∷ b'w' ∷ b'w' ∷ b'-' ∷ b'r' ∷ b'o' ∷ b'o' ∷ b't' ∷ b'-' ∷ b'd' ∷ b'i' ∷ b'r' ∷ []

abbrev pub connection_limit_text : List ℕ
connection_limit_text =
    b'c' ∷ b'o' ∷ b'n' ∷ b'n' ∷ b'e' ∷ b'c' ∷ b't' ∷ b'i' ∷ b'o' ∷ b'n' ∷ b'-' ∷ b'l' ∷ b'i' ∷ b'm'
    ∷ b'i' ∷ b't' ∷ []

abbrev pub max_outstanding_accepts_text : List ℕ
max_outstanding_accepts_text =
    b'm' ∷ b'a' ∷ b'x' ∷ b'-' ∷ b'o' ∷ b'u' ∷ b't' ∷ b's' ∷ b't' ∷ b'a' ∷ b'n' ∷ b'd' ∷ b'i' ∷ b'n'
    ∷ b'g' ∷ b'-' ∷ b'a' ∷ b'c' ∷ b'e' ∷ b'p' ∷ b't' ∷ b's' ∷ []

abbrev pub option_of_name : List ℕ → Option OptionName
option_of_name name =
    if strcmp_equal name thread_to_processor_ratio_text
    then some option_thread_to_processor_ratio
    else if strcmp_equal name port_text
    then some option_port
    else if strcmp_equal name www_root_dir_text
    then some option_www_root_dir
    else if strcmp_equal name connection_limit_text
    then some option_connection_limit
    else if strcmp_equal name max_outstanding_accepts_text
    then some option_max_outstanding_accepts
    else none

-- An argument without a dash, or with another name, is reported and passed over.
unfoldable pub option_of : List ℕ → Option OptionName
option_of [] = none
option_of (x ∷ name) = if x == b'-' then option_of_name name else none

abbrev pub is_positive : ℤ → Bool
is_positive (pos n) = ltb 0 n
is_positive (negsuc n) = false

-- `port > 0 && port < 65535`
abbrev pub is_port : ℤ → Bool
is_port (pos n) = ltb 0 n && ltb n 65535
is_port (negsuc n) = false

-- An option at the end has the null pointer behind the last argument for its value, and the reading
-- is followed no further.
pub data Parsing : Type 0 where
  null_pointer : Parsing
  parsed : ServerOpts → Parsing

module _ (atoi : List ℕ → ℤ) where
  unfoldable pub set_option : OptionName → List ℕ → ServerOpts → ServerOpts
  set_option option_thread_to_processor_ratio v o =
      if is_zero (atoi v) then o else record o { so_thread_to_processor_ratio = atoi v }
  set_option option_port v o = if is_port (atoi v) then record o { so_port = v } else o
  set_option option_www_root_dir v o = record o { so_www_rootdir = v }
  set_option option_connection_limit v o =
      if is_positive (atoi v) then record o { so_max_clients = atoi v } else o
  set_option option_max_outstanding_accepts v o = record o { so_max_outstanding_accepts = atoi v }

  -- At the last argument: an option has a null pointer for its value.
  abbrev pub last_argument : Option OptionName → ServerOpts → Parsing
  last_argument none o = parsed o
  last_argument (some name) o = null_pointer

  abbrev pub on_argument : Option OptionName → Parsing → (OptionName → Parsing) → Parsing
  on_argument none skipped taken = skipped
  on_argument (some name) skipped taken = taken name

  -- The loop over the arguments behind the program's name.
  unfoldable pub read_options : List (List ℕ) → ServerOpts → Parsing
  read_options [] o = parsed o
  read_options (arg ∷ []) o = last_argument (option_of arg) o
  read_options (arg ∷ value ∷ args) o =
      on_argument (option_of arg) (read_options (value ∷ args) o)
        (λ name. read_options args (set_option name value o))
