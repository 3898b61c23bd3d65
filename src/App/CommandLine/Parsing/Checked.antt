-- ===== src/App/CommandLine/Parsing/Checked.antt =====
-- What a configuration from the command line satisfies.
use Prim.Native.String.{String}
use garcon.Prelude.{
  ℕ, ◌≡◌, refl, Bool, true, false, Option, none, some, List, [], ◌∷◌, ◌<◌, ◌^◌, Result, ok, ◌>>=◌,
  Yields, Yields->>=, Yields-ok, if◌then◌else◌, subst,
}
use garcon.Text.{Bytes, bytes, equal}
use garcon.App.CommandLine.{
  FilePath, Outside, ServerConfig, CliOptions, no_options, parse_port, parse_count,
  finalize_options,
}
use garcon.App.CommandLine.Numbers.{IsPort, IsCount, IsInRange, parse_port_sound, parse_count_sound}
use garcon.App.CommandLine.Finished.{IsChecked, finalize_options-IsChecked}
use garcon.App.CommandLine.Parsing.{
  CommandLineResult, configured, require_value, or_throw, after_round, program_of,
  parse_named_option, parse_positional, is_option, Round, returned, behind_one, behind_two, round,
  parse_args, parse,
}

number_read :
    (P : ℕ → Type 0) (message : String) (o : Option ℕ) (n : ℕ)
    → ((m : ℕ) → o ≡ some m → P m)
    → or_throw message o ≡ ok n
    → P n
number_read P message none n h e = cc
number_read P message (some m) n h e = let g : m ≡ n = cc in subst P g (h m refl)

Yields-if :
    {A : Type 0} (P : A → Type 0) (b : Bool) (x y : Result A)
    → Yields P x
    → Yields P y
    → Yields P (if b then x else y)
Yields-if P true x y h k = h
Yields-if P false x y h k = k

module _ (out : CliOptions) (h : IsInRange out) where
  -- An option whose value is a text.
  text_taken :
      (name : String) (value : Option Bytes) (next : Bytes → CliOptions)
      → ((v : Bytes) → IsInRange (next v))
      → Yields IsInRange (require_value name value >>= λ v. ok (next v))
  text_taken name value next k =
      Yields->>= IsInRange (λ v. Unit {0}) (require_value name value) (λ v. ok (next v)) (λ v e. tt)
        (λ v u. k v)

  -- An option whose value is a number.
  number_taken :
      (P : ℕ → Type 0) (name message : String) (value : Option Bytes) (read : Bytes → Option ℕ)
      (next : ℕ → CliOptions)
      → ((v : Bytes) (n : ℕ) → read v ≡ some n → P n)
      → ((n : ℕ) → P n → IsInRange (next n))
      → Yields IsInRange
          (require_value name value >>= λ v. or_throw message (read v) >>= λ n. ok (next n))
  number_taken P name message value read next r k =
      Yields->>= IsInRange (λ v. Unit {0}) (require_value name value) _ (λ v e. tt)
        (λ v u.
          Yields->>= IsInRange P (or_throw message (read v)) (λ n. ok (next n))
            (λ n e. number_read P message (read v) n (r v) e) k)

  named_IsInRange :
      (arg : Bytes) (value : Option Bytes) → Yields IsInRange (parse_named_option arg value out)
  unfolding parse_named_option
  named_IsInRange arg value =
      Yields-if IsInRange (equal arg (bytes "--bind")) _ _
        (text_taken "--bind" value (λ v. record out { bind_address = v }) (λ v. h))
        (Yields-if IsInRange (equal arg (bytes "--tls-cert")) _ _
          (text_taken "--tls-cert" value (λ v. record out { tls_certificate_file = some v })
            (λ v. h))
          (Yields-if IsInRange (equal arg (bytes "--tls-key")) _ _
            (text_taken "--tls-key" value (λ v. record out { tls_private_key_file = some v })
              (λ v. h))
            (Yields-if IsInRange (equal arg (bytes "--modules-dir")) _ _
              (text_taken "--modules-dir" value (λ v. record out { module_config_dir = some v })
                (λ v. h))
              (Yields-if IsInRange (equal arg (bytes "--workers")) _ _
                (number_taken IsCount "--workers" "invalid worker count" value parse_count
                  (λ n. record out { worker_threads = some n }) parse_count_sound
                  (λ n k. (h.0, k, h.2)))
                (Yields-if IsInRange (equal arg (bytes "--queue-capacity")) _ _
                  (number_taken IsCount "--queue-capacity" "invalid queue capacity" value
                    parse_count (λ n. record out { connection_queue_capacity = some n })
                    parse_count_sound (λ n k. (h.0, h.1, k)))
                  (Yields-if IsInRange (equal arg (bytes "--port")) _ _
                    (number_taken IsPort "--port" "invalid port" value parse_port
                      (λ n. record out { port = some n }) parse_port_sound (λ n k. (k, h.1, h.2)))
                    tt))))))

  positional_IsInRange : (arg : Bytes) → Yields IsInRange (parse_positional arg out)
  unfolding parse_positional
  positional_IsInRange arg =
      Yields->>= IsInRange IsPort (or_throw "invalid port" (parse_port arg)) _
        (λ n e. number_read IsPort "invalid port" (parse_port arg) n (parse_port_sound arg) e)
        (λ n k. (k, h.1, h.2))

-- A round that returns has no configuration, and one that goes on keeps the numbers in range.
abbrev RoundInRange : Round → Type 0
RoundInRange (returned result) = result.config ≡ none
RoundInRange (behind_one options) = Yields IsInRange options
RoundInRange (behind_two options) = Yields IsInRange options

round_if :
    (b : Bool) (x y : Round) → RoundInRange x → RoundInRange y → RoundInRange (if b then x else y)
round_if true x y h k = h
round_if false x y h k = k

round_InRange :
    (arg : Bytes) (next : Option Bytes) (out : CliOptions)
    → IsInRange out
    → RoundInRange (round arg next out)
unfolding round
round_InRange arg next out h = round_if (equal arg (bytes "--help")) _ _ refl (
    round_if (equal arg (bytes "--version")) _ _ refl (
      round_if (is_option arg) (behind_two (parse_named_option arg next out))
        (behind_one (parse_positional arg out)) (named_IsInRange out h arg next)
        (positional_IsInRange out h arg)))

module _ (outside : Outside) (program_path : FilePath) where
  -- A configuration is that of options in range.
  abbrev IsFinal : CommandLineResult → Type 0
  IsFinal result =
      (c : ServerConfig)
      → result.config ≡ some c
      → (opts : CliOptions) × IsInRange opts × (finalize_options outside opts program_path ≡ ok c)

  no_config_IsFinal : (result : CommandLineResult) → result.config ≡ none → IsFinal result
  no_config_IsFinal result e c f = cc

  end_IsFinal :
      (out : CliOptions) → IsInRange out → Yields IsFinal (parse_args outside program_path [] out)
  unfolding parse_args
  end_IsFinal out h =
      Yields->>= IsFinal (λ c. finalize_options outside out program_path ≡ ok c)
        (finalize_options outside out program_path) (λ c. ok (configured c)) (λ c e. e)
        (λ c e d f.
          let g : c ≡ d = cc in
          (out, h, subst (λ x. finalize_options outside out program_path ≡ ok x) g e))

  after_round-IsFinal :
      (r : Round) (one two : CliOptions → Result CommandLineResult)
      → RoundInRange r
      → ((next : CliOptions) → IsInRange next → Yields IsFinal (one next))
      → ((next : CliOptions) → IsInRange next → Yields IsFinal (two next))
      → Yields IsFinal (after_round r one two)
  after_round-IsFinal (returned result) one two k h1 h2 = no_config_IsFinal result k
  after_round-IsFinal (behind_one options) one two k h1 h2 =
      Yields->>= IsFinal IsInRange options one (λ next e. Yields-ok IsInRange options next k e) h1
  after_round-IsFinal (behind_two options) one two k h1 h2 =
      Yields->>= IsFinal IsInRange options two (λ next e. Yields-ok IsInRange options next k e) h2

  parse_args-IsFinal :
      (args : List Bytes) (out : CliOptions)
      → IsInRange out
      → Yields IsFinal (parse_args outside program_path args out)
  unfolding parse_args
  parse_args-IsFinal [] out h = end_IsFinal out h
  parse_args-IsFinal (arg ∷ []) out h =
      after_round-IsFinal (round arg none out) _ _ (round_InRange arg none out h)
        (parse_args-IsFinal []) (parse_args-IsFinal [])
  parse_args-IsFinal (arg ∷ value ∷ args) out h =
      after_round-IsFinal (round arg (some value) out) _ _ (round_InRange arg (some value) out h)
        (parse_args-IsFinal (value ∷ args)) (parse_args-IsFinal args)

-- A configuration that is returned has a port from 1 to 65535, at least one worker, and room for a
-- connection in the queue unless there are 2^58 workers or more, where the processors are counted
-- by an `unsigned`.
pub parse-IsChecked :
    (outside : Outside) (program : Option Bytes) (args : List Bytes) (c : ServerConfig)
    → outside.hardware_concurrency < 2 ^ 32
    → parse outside program args ≡ ok (configured c)
    → IsChecked c
unfolding parse
parse-IsChecked outside program args c b h =
    let (opts, r, e) =
      Yields-ok (IsFinal outside (program_of program)) _ (configured c)
        (parse_args-IsFinal outside (program_of program) args no_options (tt, tt, tt)) h c refl in
    finalize_options-IsChecked outside opts (program_of program) c b r e
