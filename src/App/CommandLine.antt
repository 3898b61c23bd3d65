-- ===== src/App/CommandLine.antt =====
-- command_line.cpp and server_config.h: the process arguments become a server configuration. A path
-- is its text; the file system and the number of processors are parameters.
pub mod Numbers
pub mod Finished
pub mod Parsing
use mathlib.Core.Option
use Prim.Native.String.{String}
use garcon.Prelude.{
  ℕ, ◌+◌, ◌*◌, ◌%◌, ◌^◌, ◌-◌, Bool, true, false, ◌&&◌, ◌||◌, not, Option, none, some, List, [], ◌∷◌,
  ◌++◌, is_empty, all, leb, ltb, ◌==◌, Result, ok, throw, throw_if, ◌>>=◌, ◌>>◌, if◌then◌else◌,
}
use garcon.Prelude.Integers.{ℤ, pos, negsuc, negate}
use garcon.Text.{Bytes, bytes, equal, is_digit, int_max}
use garcon.Text.Decimal.{decimal}

abbrev pub FilePath : Type 0
FilePath = Bytes

-- `std::thread::hardware_concurrency` and what is asked of `std::filesystem`, which may throw.
pub record Outside : Type 0 where
  pub hardware_concurrency : ℕ
  pub exists : FilePath → Result Bool
  pub is_directory : FilePath → Result Bool
  pub absolute : FilePath → Result FilePath
  pub parent_path : FilePath → FilePath
  pub joined : FilePath → FilePath → FilePath

pub record TlsConfig : Type 0 where
  pub certificate_file : FilePath
  pub private_key_file : FilePath

pub record ServerConfig : Type 0 where
  pub bind_address : Bytes
  pub port : ℕ
  pub www_root : FilePath
  pub module_config_dir : FilePath
  pub worker_threads : ℕ
  pub connection_queue_capacity : ℕ
  pub tls : Option TlsConfig

pub record CliOptions : Type 0 where
  pub bind_address : Bytes
  pub port : Option ℕ
  pub worker_threads : Option ℕ
  pub connection_queue_capacity : Option ℕ
  pub module_config_dir : Option FilePath
  pub tls_certificate_file : Option FilePath
  pub tls_private_key_file : Option FilePath

abbrev pub no_options : CliOptions
no_options = record {
  bind_address = bytes "127.0.0.1";
  port = none;
  worker_threads = none;
  connection_queue_capacity = none;
  module_config_dir = none;
  tls_certificate_file = none;
  tls_private_key_file = none;
}

-- The greatest `std::size_t`
abbrev pub size_max : ℕ
size_max = 18446744073709551615

-- `std::from_chars` where it reads the whole text and the number is at most `max`.
pub from_chars : ℕ → Bytes → Option ℕ
from_chars max value =
    if is_empty value || not (all is_digit value)
    then none
    else if leb (decimal 0 value) max
    then some (decimal 0 value)
    else none

-- The same for `int`, where a minus may stand before the digits.
pub from_chars_int : Bytes → Option ℤ
from_chars_int [] = none
from_chars_int (c ∷ cs) =
    if c == b'-'
    then Option.map negate (from_chars (int_max + 1) cs)
    else Option.map pos (from_chars int_max (c ∷ cs))

abbrev in_port_range : ℤ → Option ℕ
in_port_range (pos n) = if leb n 0 || ltb 65535 n then none else some n
in_port_range (negsuc n) = none

abbrev port_of : Option ℤ → Option ℕ
port_of none = none
port_of (some n) = in_port_range n

pub parse_port : Bytes → Option ℕ
parse_port value = port_of (from_chars_int value)

abbrev positive : Option ℕ → Option ℕ
positive none = none
positive (some n) = if n == 0 then none else some n

pub parse_count : Bytes → Option ℕ
parse_count value = positive (from_chars size_max value)

abbrev pub has_value {ℓ} : {A : Type ℓ} → Option A → Bool
has_value none = false
has_value (some a) = true

abbrev pub value_or {ℓ} : {A : Type ℓ} → Option A → A → A
value_or none d = d
value_or (some a) d = a

pub https_requested : CliOptions → Bool
https_requested opts = has_value opts.tls_certificate_file || has_value opts.tls_private_key_file

pub default_worker_threads : Outside → ℕ
default_worker_threads outside =
    if outside.hardware_concurrency == 0 then 4 else outside.hardware_concurrency

pub default_queue_capacity : ℕ → ℕ
default_queue_capacity worker_threads = worker_threads * 64 % 2 ^ 64

-- The first candidate that is a directory, or the first of all.
first_directory : Outside → FilePath → List FilePath → Result FilePath
first_directory outside front [] = ok front
first_directory outside front (candidate ∷ candidates) =
    let later = first_directory outside front candidates in
    (outside.exists candidate >>= λ there.
    if there
    then (outside.is_directory candidate >>= λ directory. if directory then ok candidate else later)
    else later)

abbrev fixed_candidates : List FilePath
fixed_candidates = bytes "modules.d" ∷ bytes "/etc/garcon/modules.d" ∷ []

default_module_config_dir : Outside → FilePath → Result FilePath
default_module_config_dir outside [] = first_directory outside (bytes "modules.d") fixed_candidates
default_module_config_dir outside (c ∷ program_path) =
    outside.absolute (c ∷ program_path) >>= λ program.
    let beside = outside.joined (outside.parent_path program) (bytes "modules.d") in
    first_directory outside beside (beside ∷ fixed_candidates)

default_www_root : Outside → Result FilePath
default_www_root outside = outside.exists (bytes "www") >>= λ local.
    if local
    then ok (bytes "www")
    else (outside.exists (bytes "/usr/share/garcon/www") >>= λ installed.
        ok (if installed then bytes "/usr/share/garcon/www" else bytes "www"))

abbrev pub tls_of : Option FilePath → Option FilePath → Option TlsConfig
tls_of (some certificate) (some key) =
    some (record { certificate_file = certificate; private_key_file = key })
tls_of (some certificate) none = none
tls_of none key = none

abbrev pub differ : Bool → Bool → Bool
differ true b = not b
differ false b = b

abbrev pub workers_of : Outside → CliOptions → ℕ
workers_of outside opts = value_or opts.worker_threads (default_worker_threads outside)

-- The configuration, with the two defaults that come from the file system.
abbrev pub finalized : Outside → CliOptions → FilePath → FilePath → ServerConfig
finalized outside opts www_root config_dir = record {
  bind_address = opts.bind_address;
  port = value_or opts.port (if https_requested opts then 8443 else 8080);
  www_root = www_root;
  module_config_dir = value_or opts.module_config_dir config_dir;
  worker_threads = workers_of outside opts;
  connection_queue_capacity =
      value_or opts.connection_queue_capacity (default_queue_capacity (workers_of outside opts));
  tls = tls_of opts.tls_certificate_file opts.tls_private_key_file;
}

-- Both defaults are looked up even where an option takes the place of one.
pub finalize_options : Outside → CliOptions → FilePath → Result ServerConfig
finalize_options outside opts program_path = do
  throw_if (differ (has_value opts.tls_certificate_file) (has_value opts.tls_private_key_file))
      "--tls-cert and --tls-key must be provided together"
  www_root ← default_www_root outside
  config_dir ← default_module_config_dir outside program_path
  ok (finalized outside opts www_root config_dir)
