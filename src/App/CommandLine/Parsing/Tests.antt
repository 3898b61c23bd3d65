-- ===== src/App/CommandLine/Parsing/Tests.antt =====
-- A file system with nothing but `www`, and 16 processors.
use garcon.Prelude.{◌≡◌, refl, true, none, some, [], ◌∷◌, ok, throw, ◌>>=◌, arith}
use garcon.Text.{bytes, equal, is_digit}
use garcon.Text.Decimal.{decimal}
use garcon.App.CommandLine.{
  Outside, ServerConfig, CliOptions, no_options, https_requested, default_worker_threads,
  default_queue_capacity, first_directory, default_module_config_dir, default_www_root,
  finalize_options, parse_port, parse_count, from_chars, from_chars_int,
}
use garcon.App.CommandLine.Finished.{IsChecked}
use garcon.App.CommandLine.Parsing.{
  configured, parse, parse_args, parse_named_option, parse_positional, round, require_value,
}
use garcon.App.CommandLine.Parsing.Checked.{parse-IsChecked}
use garcon.App.CommandLine.Parsing.Printed.{arguments_of, parse-arguments_of}

abbrev outside : Outside
outside = record {
  hardware_concurrency = 16;
  exists = λ path. ok (equal path (bytes "www"));
  is_directory = λ path. ok true;
  absolute = λ path. ok path;
  parent_path = λ path. bytes "/opt";
  joined = λ directory path. bytes "/opt/modules.d";
}

abbrev config_read : ServerConfig
config_read = record {
  bind_address = bytes "127.0.0.1";
  port = 9000;
  www_root = bytes "www";
  module_config_dir = bytes "/opt/modules.d";
  worker_threads = 2;
  connection_queue_capacity = 128;
  tls = none;
}

parsed :
    parse outside (some (bytes "/opt/garcon")) (bytes "9000" ∷ bytes "--workers" ∷ bytes "2" ∷ [])
    ≡ ok (configured config_read)
unfolding parse parse_args round parse_named_option parse_positional require_value finalize_options
    default_www_root default_module_config_dir first_directory default_worker_threads
    default_queue_capacity https_requested parse_port parse_count from_chars from_chars_int is_digit
    decimal equal
parsed = refl

unpaired :
    parse outside none (bytes "--tls-key" ∷ bytes "k" ∷ [])
    ≡ throw "--tls-cert and --tls-key must be provided together"
unfolding parse parse_args round parse_named_option require_value finalize_options equal
unpaired = refl

parse-IsChecked_example : IsChecked config_read
parse-IsChecked_example =
    parse-IsChecked outside (some (bytes "/opt/garcon"))
      (bytes "9000" ∷ bytes "--workers" ∷ bytes "2" ∷ []) config_read (omega arith) parsed

abbrev some_options : CliOptions
some_options = record no_options { port = some 443; tls_private_key_file = some (bytes "k") }

parse-arguments_of_example :
    parse outside none (arguments_of some_options)
    ≡ (finalize_options outside some_options [] >>= λ c. ok (configured c))
parse-arguments_of_example =
    parse-arguments_of outside none some_options ((omega arith, omega arith), tt, tt)
