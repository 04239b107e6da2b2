-- ===== src/Windows/Options/Given.antt =====
-- The options that `server_start_and_run` reads from arguments that give them, in any order.
mod Tests
use aio_server.Base.{
  ℕ, ◌<◌, ◌≡◌, refl, ◌∙◌, false, true, none, List, [], ◌∷◌, ℤ, pos, negsuc, is_zero,
}
use aio_server.Windows.Text.{strcmp_equal}
use aio_server.Windows.Options.{
  ServerOpts, thread_to_processor_ratio_text, port_text, www_root_dir_text, connection_limit_text,
  max_outstanding_accepts_text, option_of, is_positive, is_port, parsed, set_option, read_options,
}

-- What the arguments give, one after another: an option with its value, or an argument that names
-- no option.
pub data Setting : Type 0 where
  set_ratio set_limit set_accepts : ℤ → Setting
  set_port set_root stray : List ℕ → Setting

-- The values of an `int`
abbrev pub IsInt : ℤ → Type 0
IsInt (pos n) = n < 2147483648
IsInt (negsuc n) = n < 2147483648

-- The value that is given last, if there is one, or else the one before.
abbrev pub last_ratio : List Setting → ℤ → ℤ
last_ratio [] z = z
last_ratio (set_ratio x ∷ ss) z = last_ratio ss x
last_ratio (s ∷ ss) z = last_ratio ss z

abbrev pub last_limit : List Setting → ℤ → ℤ
last_limit [] z = z
last_limit (set_limit x ∷ ss) z = last_limit ss x
last_limit (s ∷ ss) z = last_limit ss z

abbrev pub last_accepts : List Setting → ℤ → ℤ
last_accepts [] z = z
last_accepts (set_accepts x ∷ ss) z = last_accepts ss x
last_accepts (s ∷ ss) z = last_accepts ss z

abbrev pub last_port : List Setting → List ℕ → List ℕ
last_port [] t = t
last_port (set_port u ∷ ss) t = last_port ss u
last_port (s ∷ ss) t = last_port ss t

abbrev pub last_root : List Setting → List ℕ → List ℕ
last_root [] t = t
last_root (set_root u ∷ ss) t = last_root ss u
last_root (s ∷ ss) t = last_root ss t

abbrev pub given : List Setting → ServerOpts → ServerOpts
given ss o = record {
  so_thread_to_processor_ratio = last_ratio ss o.so_thread_to_processor_ratio;
  so_www_rootdir = last_root ss o.so_www_rootdir;
  so_max_clients = last_limit ss o.so_max_clients;
  so_port = last_port ss o.so_port;
  so_max_outstanding_accepts = last_accepts ss o.so_max_outstanding_accepts;
}

module _ (atoi : List ℕ → ℤ) (show : ℤ → List ℕ) where
  abbrev pub arguments_of : List Setting → List (List ℕ)
  arguments_of [] = []
  arguments_of (set_ratio z ∷ ss) =
      (b'-' ∷ thread_to_processor_ratio_text) ∷ show z ∷ arguments_of ss
  arguments_of (set_limit z ∷ ss) = (b'-' ∷ connection_limit_text) ∷ show z ∷ arguments_of ss
  arguments_of (set_accepts z ∷ ss) =
      (b'-' ∷ max_outstanding_accepts_text) ∷ show z ∷ arguments_of ss
  arguments_of (set_port t ∷ ss) = (b'-' ∷ port_text) ∷ t ∷ arguments_of ss
  arguments_of (set_root t ∷ ss) = (b'-' ∷ www_root_dir_text) ∷ t ∷ arguments_of ss
  arguments_of (stray t ∷ ss) = t ∷ arguments_of ss

  -- A ratio that is not 0, a positive limit, a port that reads as 1 to 65534, any number of
  -- accepts, any root directory; another argument names no option.
  abbrev pub IsSetting : Setting → Type 0
  IsSetting (set_ratio z) = IsInt z × (is_zero z ≡ false)
  IsSetting (set_limit z) = IsInt z × (is_positive z ≡ true)
  IsSetting (set_accepts z) = IsInt z
  IsSetting (set_port t) = is_port (atoi t) ≡ true
  IsSetting (set_root t) = Unit
  IsSetting (stray t) = option_of t ≡ none

  abbrev pub AreSettings : List Setting → Type 0
  AreSettings [] = Unit
  AreSettings (s ∷ ss) = IsSetting s × AreSettings ss

  stray-read :
      (t : List ℕ) (args : List (List ℕ)) (o : ServerOpts)
      → option_of t ≡ none
      → read_options atoi (t ∷ args) o ≡ read_options atoi args o
  unfolding read_options
  stray-read t [] o e = rw e refl
  stray-read t (u ∷ args) o e = rw e refl

  module _ (atoi-show : (z : ℤ) → IsInt z → atoi (show z) ≡ z) where
    -- Where atoi reads back each int that show writes, arguments that give options in any order
    -- and any number, with other arguments between them, are read as the options before with the
    -- last value given for each: ratios that are not 0, positive limits, ports that read as 1 to
    -- 65534, any root directories and any numbers of accepts.
    pub read_options-given :
        (ss : List Setting) (before : ServerOpts)
        → AreSettings ss
        → read_options atoi (arguments_of ss) before ≡ parsed (given ss before)
    unfolding read_options option_of set_option strcmp_equal
    read_options-given [] before good = refl
    read_options-given (set_ratio z ∷ ss) before ((int, good), rest) =
        rw (atoi-show z int, good)
          (read_options-given ss (record before { so_thread_to_processor_ratio = z }) rest)
    read_options-given (set_limit z ∷ ss) before ((int, good), rest) =
        rw (atoi-show z int, good)
          (read_options-given ss (record before { so_max_clients = z }) rest)
    read_options-given (set_accepts z ∷ ss) before (int, rest) =
        rw (atoi-show z int)
          (read_options-given ss (record before { so_max_outstanding_accepts = z }) rest)
    read_options-given (set_port t ∷ ss) before (good, rest) =
        rw good (read_options-given ss (record before { so_port = t }) rest)
    read_options-given (set_root t ∷ ss) before (good, rest) =
        read_options-given ss (record before { so_www_rootdir = t }) rest
    read_options-given (stray t ∷ ss) before (good, rest) =
        stray-read t (arguments_of ss) before good ∙ read_options-given ss before rest
