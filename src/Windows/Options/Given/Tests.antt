-- ===== src/Windows/Options/Given/Tests.antt =====
-- Decimal numbers of ten digits, as `atoi` of the C library reads them.
use aio_server.Base.{
  ℕ, zero, suc, ◌+◌, ◌-◌, ◌*◌, ◌/◌, ◌%◌, ◌<◌, ◌≡◌, refl, ap, ◌∙◌, List, [], ◌∷◌, ◌++◌, ◌==◌,
  if◌then◌else◌, arith, ℤ, pos, negsuc,
}
use aio_server.Windows.Options.{option_of, default_options, parsed, read_options}
use aio_server.Windows.Options.Given.{
  Setting, set_ratio, set_limit, set_accepts, set_port, set_root, stray, IsInt, AreSettings,
  arguments_of, read_options-given,
}

abbrev limit_of : ℕ → ℕ
limit_of zero = 1
limit_of (suc width) = 10 * limit_of width

abbrev digits : ℕ → ℕ → List ℕ
digits zero n = []
digits (suc width) n = digits width (n / 10) ++ (48 + n % 10) ∷ []

abbrev value : ℕ → List ℕ → ℕ
value n [] = n
value n (x ∷ l) = value (n * 10 + (x - 48)) l

value-append : (n : ℕ) (l : List ℕ) (x : ℕ) → value n (l ++ x ∷ []) ≡ value n l * 10 + (x - 48)
value-append n [] x = refl
value-append n (y ∷ l) x = value-append (n * 10 + (y - 48)) l x

value-digits : (width n : ℕ) → n < limit_of width → value 0 (digits width n) ≡ n
value-digits zero n lt = omega (arith, lt)
value-digits (suc width) n lt =
    value-append 0 (digits width (n / 10)) (48 + n % 10)
    ∙ omega (arith, value-digits width (n / 10) (omega (arith, lt)))

abbrev negated : ℕ → ℤ
negated zero = pos 0
negated (suc n) = negsuc n

abbrev decimal : List ℕ → ℤ
decimal [] = pos 0
decimal (x ∷ l) = if x == b'-' then negated (value 0 l) else pos (value 0 (x ∷ l))

abbrev show : ℤ → List ℕ
show (pos n) = b'0' ∷ digits 10 n
show (negsuc n) = b'-' ∷ digits 10 (suc n)

decimal-show : (z : ℤ) → IsInt z → decimal (show z) ≡ z
decimal-show (pos n) lt = ap pos (value-digits 10 n (omega (arith, lt)))
decimal-show (negsuc n) lt = ap negated (value-digits 10 (suc n) (omega (arith, lt)))

abbrev settings : List Setting
settings =
    set_ratio (negsuc 1)
    ∷ stray (b'x' ∷ [])
    ∷ set_port (b'8' ∷ b'0' ∷ [])
    ∷ set_accepts (pos 16)
    ∷ set_limit (pos 100)
    ∷ set_root (b'w' ∷ [])
    ∷ set_accepts (pos 8)
    ∷ []

settings-AreSettings : AreSettings decimal show settings
unfolding option_of
settings-AreSettings = (
  (omega arith, refl),
  (refl, (refl, (omega arith, ((omega arith, refl), (tt, (omega arith, tt)))))),
)

read_options-given_example :
    read_options decimal (arguments_of decimal show settings) default_options
    ≡ parsed (record {
      so_thread_to_processor_ratio = negsuc 1;
      so_www_rootdir = b'w' ∷ [];
      so_max_clients = pos 100;
      so_port = b'8' ∷ b'0' ∷ [];
      so_max_outstanding_accepts = pos 8;
    })
read_options-given_example =
    read_options-given decimal show decimal-show settings default_options settings-AreSettings
