-- ===== src/Windows/Options/Read.antt =====
-- What the options are after the arguments are read.
use aio_server.Base.{
  ℕ, ◌≡◌, ◌⊎◌, refl, inl, inr, true, false, Option, none, some, List, [], ◌∷◌, Bool-cases, ℤ, pos,
  negsuc, is_zero,
}
use aio_server.Windows.Options.{
  ServerOpts, default_port, default_options, OptionName, option_thread_to_processor_ratio,
  option_port, option_www_root_dir, option_connection_limit, option_max_outstanding_accepts,
  option_of, is_positive, is_port, Parsing, null_pointer, parsed, last_argument, on_argument,
  set_option, read_options,
}

module _ (atoi : List ℕ → ℤ) where
  -- What the server relies on.
  pub record IsValid (o : ServerOpts) : Type 0 where
    pub ratio : is_zero o.so_thread_to_processor_ratio ≡ false
    pub limit : (o.so_max_clients ≡ negsuc 0) ⊎ (is_positive o.so_max_clients ≡ true)
    pub port : is_port (atoi o.so_port) ≡ true

  -- The options after the loop, if it ends.
  pub data Reading : Parsing → Type 0 where
    no_value : Reading null_pointer
    options : {o : ServerOpts} → IsValid o → Reading (parsed o)

  set_option-IsValid :
      (name : OptionName) (v : List ℕ) (o : ServerOpts)
      → IsValid o
      → IsValid (set_option atoi name v o)
  unfolding set_option
  set_option-IsValid option_thread_to_processor_ratio v o good =
      elim (Bool-cases (is_zero (atoi v))) [
        | inl e ↦ rw e good
        | inr e ↦ rw e (record { ratio = e; limit = good.limit; port = good.port })
      ]
  set_option-IsValid option_port v o good = elim (Bool-cases (is_port (atoi v))) [
    | inl e ↦ rw e (record { ratio = good.ratio; limit = good.limit; port = e })
    | inr e ↦ rw e good
  ]
  set_option-IsValid option_www_root_dir v o good = record {
    ratio = good.ratio;
    limit = good.limit;
    port = good.port;
  }
  set_option-IsValid option_connection_limit v o good = elim (Bool-cases (is_positive (atoi v))) [
    | inl e ↦ rw e (record { ratio = good.ratio; limit = inr e; port = good.port })
    | inr e ↦ rw e good
  ]
  set_option-IsValid option_max_outstanding_accepts v o good = record {
    ratio = good.ratio;
    limit = good.limit;
    port = good.port;
  }

  last-Reading :
      (n : Option OptionName) (o : ServerOpts) → IsValid o → Reading (last_argument atoi n o)
  last-Reading none o good = options good
  last-Reading (some name) o good = no_value

  on_argument-Reading :
      (n : Option OptionName) {skipped : Parsing} {taken : OptionName → Parsing}
      → Reading skipped
      → ((name : OptionName) → Reading (taken name))
      → Reading (on_argument atoi n skipped taken)
  on_argument-Reading none skipped taken = skipped
  on_argument-Reading (some name) skipped taken = taken name

  read_options-Reading :
      (args : List (List ℕ)) (o : ServerOpts) → IsValid o → Reading (read_options atoi args o)
  unfolding read_options
  read_options-Reading [] o good = options good
  read_options-Reading (arg ∷ []) o good = last-Reading (option_of arg) o good
  read_options-Reading (arg ∷ v ∷ args) o good =
      on_argument-Reading (option_of arg) (read_options-Reading (v ∷ args) o good)
        (λ name. read_options-Reading args _ (set_option-IsValid name v o good))

  -- Whatever the arguments, where the default port reads as 27015, reading them from the defaults
  -- either meets an option without its value, which reads a null pointer, or gives a ratio that
  -- is not 0, a limit that is positive or -1, and the text of a port that reads as 1 to 65534.
  pub read_options-valid :
      (args : List (List ℕ))
      → atoi default_port ≡ pos 27015
      → Reading (read_options atoi args default_options)
  read_options-valid args e =
      read_options-Reading args default_options
        (record { ratio = refl; limit = inl refl; port = rw e refl })
