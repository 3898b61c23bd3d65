-- ===== src/App/CommandLine/Parsing.antt =====
-- The loop over the arguments of command_line.cpp.
pub mod Checked
pub mod Printed
mod Tests
use Prim.Native.String.{String, ◌++◌}
use mathlib.Core.List.{◌++◌ as append}
use garcon.Prelude.{
  ℕ, Bool, true, false, ◌&&◌, not, Option, none, some, List, [], ◌∷◌, ◌==◌, Result, ok, throw,
  ◌>>=◌, if◌then◌else◌,
}
use garcon.Text.{Bytes, bytes, equal}
use garcon.App.CommandLine.{
  FilePath, Outside, ServerConfig, CliOptions, no_options, parse_port, parse_count,
  finalize_options,
}

pub record CommandLineResult : Type 0 where
  pub show_help : Bool
  pub show_version : Bool
  pub config : Option ServerConfig

abbrev pub help : CommandLineResult
help = record { show_help = true; show_version = false; config = none }

abbrev pub version : CommandLineResult
version = record { show_help = false; show_version = true; config = none }

abbrev pub configured : ServerConfig → CommandLineResult
configured c = record { show_help = false; show_version = false; config = some c }

-- The argument behind an option, where there is one.
pub require_value : String → Option Bytes → Result Bytes
require_value option_name none = throw ("missing value for " ++ option_name)
require_value option_name (some value) = ok value

abbrev pub or_throw : String → Option ℕ → Result ℕ
or_throw message none = throw message
or_throw message (some n) = ok n

-- An option with the argument behind it, which each of them takes.
pub parse_named_option : Bytes → Option Bytes → CliOptions → Result CliOptions
parse_named_option arg value out =
    if equal arg (bytes "--bind")
    then (require_value "--bind" value >>= λ v. ok (record out { bind_address = v }))
    else if equal arg (bytes "--tls-cert")
    then (require_value "--tls-cert" value >>= λ v.
        ok (record out { tls_certificate_file = some v }))
    else if equal arg (bytes "--tls-key")
    then (require_value "--tls-key" value >>= λ v.
        ok (record out { tls_private_key_file = some v }))
    else if equal arg (bytes "--modules-dir")
    then (require_value "--modules-dir" value >>= λ v.
        ok (record out { module_config_dir = some v }))
    else if equal arg (bytes "--workers")
    then (require_value "--workers" value >>= λ v.
        or_throw "invalid worker count" (parse_count v) >>= λ n.
        ok (record out { worker_threads = some n }))
    else if equal arg (bytes "--queue-capacity")
    then (require_value "--queue-capacity" value >>= λ v.
        or_throw "invalid queue capacity" (parse_count v) >>= λ n.
        ok (record out { connection_queue_capacity = some n }))
    else if equal arg (bytes "--port")
    then (require_value "--port" value >>= λ v.
        or_throw "invalid port" (parse_port v) >>= λ n. ok (record out { port = some n }))
    else throw "unknown option"

-- An argument that is no option is the port.
pub parse_positional : Bytes → CliOptions → Result CliOptions
parse_positional arg out =
    or_throw "invalid port" (parse_port arg) >>= λ n. ok (record out { port = some n })

abbrev pub is_option : Bytes → Bool
is_option [] = false
is_option (c ∷ cs) = c == b'-'

-- What a round of the loop does: it returns from `parse`, or it goes on behind one argument or two.
pub data Round : Type 0 where
  returned : CommandLineResult → Round
  behind_one behind_two : Result CliOptions → Round

pub round : Bytes → Option Bytes → CliOptions → Round
round arg next out =
    if equal arg (bytes "--help")
    then returned help
    else if equal arg (bytes "--version")
    then returned version
    else if is_option arg
    then behind_two (parse_named_option arg next out)
    else behind_one (parse_positional arg out)

abbrev pub after_round :
    Round
    → (CliOptions → Result CommandLineResult)
    → (CliOptions → Result CommandLineResult)
    → Result CommandLineResult
after_round (returned result) one two = ok result
after_round (behind_one options) one two = options >>= one
after_round (behind_two options) one two = options >>= two

module _ (outside : Outside) (program_path : FilePath) where
  pub parse_args : List Bytes → CliOptions → Result CommandLineResult
  parse_args [] out = finalize_options outside out program_path >>= λ c. ok (configured c)
  parse_args (arg ∷ []) out =
      after_round (round arg none out) (λ next. parse_args [] next) (λ next. parse_args [] next)
  parse_args (arg ∷ value ∷ args) out =
      after_round (round arg (some value) out) (λ next. parse_args (value ∷ args) next)
        (λ next. parse_args args next)

abbrev pub program_of : Option Bytes → FilePath
program_of none = []
program_of (some path) = path

-- `parse`, on `argv[0]` where there is one, and the arguments behind it.
pub parse : Outside → Option Bytes → List Bytes → Result CommandLineResult
parse outside program args = parse_args outside (program_of program) args no_options

abbrev program_name : Option Bytes → Bytes
program_name none = bytes "garcon"
program_name (some path) = path

pub usage : Option Bytes → Bytes
usage program = append (bytes "usage: ") (
    append (program_name program) (
      bytes
        " [port] [--bind ADDRESS] [--port PORT] [--modules-dir DIR] [--workers N] [--queue-capacity N] [--tls-cert PATH --tls-key PATH] [--help] [--version]\n"))
