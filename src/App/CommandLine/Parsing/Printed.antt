-- ===== src/App/CommandLine/Parsing/Printed.antt =====
-- Options that are printed as arguments.
use mathlib.Core.Option
use garcon.Prelude.{ℕ, ◌≡◌, refl, ◌∙◌, Option, none, some, List, [], ◌∷◌, ◌++◌, ok, ◌>>=◌}
use garcon.Text.{Bytes, bytes, equal, to_string}
use garcon.App.CommandLine.{FilePath, Outside, CliOptions, no_options, finalize_options}
use garcon.App.CommandLine.Numbers.{
  IsPort, IsCount, IfSet, IsInRange, parse_port-to_string, parse_count-to_string,
}
use garcon.App.CommandLine.Parsing.{
  configured, parse_named_option, round, require_value, parse_args, parse, program_of,
}

abbrev pub flag : Bytes → Option Bytes → List Bytes
flag name none = []
flag name (some value) = name ∷ value ∷ []

-- Every option that is set, by its name and its value.
unfoldable pub arguments_of : CliOptions → List Bytes
arguments_of opts =
    flag (bytes "--bind") (some opts.bind_address)
    ++ (flag (bytes "--port") (Option.map to_string opts.port)
        ++ (flag (bytes "--workers") (Option.map to_string opts.worker_threads)
            ++ (flag (bytes "--queue-capacity")
                  (Option.map to_string opts.connection_queue_capacity)
                ++ (flag (bytes "--modules-dir") opts.module_config_dir
                    ++ (flag (bytes "--tls-cert") opts.tls_certificate_file
                        ++ (flag (bytes "--tls-key") opts.tls_private_key_file ++ []))))))

abbrev or_keep {ℓ} : {A : Type ℓ} → Option A → Option A → Option A
or_keep none d = d
or_keep (some a) d = some a

or_keep-none {ℓ} : {A : Type ℓ} (o : Option A) → or_keep o none ≡ o
or_keep-none none = refl
or_keep-none (some a) = refl

module _ (outside : Outside) (program_path : FilePath) (rest : List Bytes) (out : CliOptions) where
  bind_read :
      (address : Bytes)
      → parse_args outside program_path (flag (bytes "--bind") (some address) ++ rest) out
        ≡ parse_args outside program_path rest (record out { bind_address = address })
  unfolding parse_args round parse_named_option require_value equal
  bind_read address = refl

  port_read :
      (o : Option ℕ)
      → IfSet IsPort o
      → parse_args outside program_path (flag (bytes "--port") (Option.map to_string o) ++ rest) out
        ≡ parse_args outside program_path rest (record out { port = or_keep o out.port })
  unfolding parse_args round parse_named_option require_value equal
  port_read none h = refl
  port_read (some n) h = rw (parse_port-to_string n h.0 h.1) refl

  workers_read :
      (o : Option ℕ)
      → IfSet IsCount o
      → parse_args outside program_path
          (flag (bytes "--workers") (Option.map to_string o) ++ rest)
          out
        ≡ parse_args outside program_path rest
            (record out { worker_threads = or_keep o out.worker_threads })
  unfolding parse_args round parse_named_option require_value equal
  workers_read none h = refl
  workers_read (some n) h = rw (parse_count-to_string n h.0 h.1) refl

  capacity_read :
      (o : Option ℕ)
      → IfSet IsCount o
      → parse_args outside program_path
          (flag (bytes "--queue-capacity") (Option.map to_string o) ++ rest)
          out
        ≡ parse_args outside program_path rest
            (record out { connection_queue_capacity = or_keep o out.connection_queue_capacity })
  unfolding parse_args round parse_named_option require_value equal
  capacity_read none h = refl
  capacity_read (some n) h = rw (parse_count-to_string n h.0 h.1) refl

  modules_dir_read :
      (o : Option FilePath)
      → parse_args outside program_path (flag (bytes "--modules-dir") o ++ rest) out
        ≡ parse_args outside program_path rest
            (record out { module_config_dir = or_keep o out.module_config_dir })
  unfolding parse_args round parse_named_option require_value equal
  modules_dir_read none = refl
  modules_dir_read (some v) = refl

  certificate_read :
      (o : Option FilePath)
      → parse_args outside program_path (flag (bytes "--tls-cert") o ++ rest) out
        ≡ parse_args outside program_path rest
            (record out { tls_certificate_file = or_keep o out.tls_certificate_file })
  unfolding parse_args round parse_named_option require_value equal
  certificate_read none = refl
  certificate_read (some v) = refl

  key_read :
      (o : Option FilePath)
      → parse_args outside program_path (flag (bytes "--tls-key") o ++ rest) out
        ≡ parse_args outside program_path rest
            (record out { tls_private_key_file = or_keep o out.tls_private_key_file })
  unfolding parse_args round parse_named_option require_value equal
  key_read none = refl
  key_read (some v) = refl

all_read :
    (outside : Outside) (program_path : FilePath) (opts : CliOptions)
    → parse_args outside program_path [] (record {
      bind_address = opts.bind_address;
      port = or_keep opts.port none;
      worker_threads = or_keep opts.worker_threads none;
      connection_queue_capacity = or_keep opts.connection_queue_capacity none;
      module_config_dir = or_keep opts.module_config_dir none;
      tls_certificate_file = or_keep opts.tls_certificate_file none;
      tls_private_key_file = or_keep opts.tls_private_key_file none;
    })
      ≡ (finalize_options outside opts program_path >>= λ c. ok (configured c))
unfolding parse_args
all_read outside program_path opts =
    rw
      (
        or_keep-none opts.port,
        or_keep-none opts.worker_threads,
        or_keep-none opts.connection_queue_capacity,
        or_keep-none opts.module_config_dir,
        or_keep-none opts.tls_certificate_file,
        or_keep-none opts.tls_private_key_file,
      )
      refl

-- Options whose numbers are in range, printed by name and value, are read back: the result is the
-- configuration that these options become.
pub parse-arguments_of :
    (outside : Outside) (program : Option Bytes) (opts : CliOptions)
    → IsInRange opts
    → parse outside program (arguments_of opts)
      ≡ (finalize_options outside opts (program_of program) >>= λ c. ok (configured c))
unfolding parse arguments_of
parse-arguments_of outside program opts h =
    let path : FilePath = program_of program in
    bind_read outside path _ no_options opts.bind_address
    ∙ (port_read outside path _ _ opts.port h.0
        ∙ (workers_read outside path _ _ opts.worker_threads h.1
            ∙ (capacity_read outside path _ _ opts.connection_queue_capacity h.2
                ∙ (modules_dir_read outside path _ _ opts.module_config_dir
                    ∙ (certificate_read outside path _ _ opts.tls_certificate_file
                        ∙ (key_read outside path [] _ opts.tls_private_key_file
                            ∙ all_read outside path opts))))))
