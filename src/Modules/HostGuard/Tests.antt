-- ===== src/Modules/HostGuard/Tests.antt =====
-- A guard of one rule with two hosts.
use garcon.Prelude.{◌≡◌, refl, [], ◌∷◌, ◌++◌, List, ok}
use garcon.Text.{
  Bytes, bytes, equal, has, pieces, trim, trim_by, is_space, starts_with, split_fields, parse_int,
  is_digit, ascii_lower, ascii_lowercase,
}
use garcon.Http.Request.{Request}
use garcon.Modules.Abi.{Reply}
use garcon.Modules.Config.{
  prefix, is_keyword_line, parse_each, parse_config, classify_target_pattern, parse_status_code,
}
use garcon.Modules.Config.Scan.{IsGuarded}
use garcon.Modules.HostGuard.{
  GuardRule, exact_host, suffix_host, host_pattern, parse_host_pattern, parse_host_fields,
  parse_host_patterns, parse_rule_fields, parse_rule_line, parse_rules, handle, create,
  normalize_host_header,
}
use garcon.Modules.HostGuard.Guards.{Applies, Satisfies, IsFailure, create_host_guard-IsGuarded}
use garcon.Modules.HostGuard.Hosts.{normalize_host_header-port}

abbrev config_text : Bytes
config_text = bytes "rule=GET|/*|Example.com, *.example.com|421|wrong host"

abbrev rules_read : List GuardRule
rules_read =
    record {
      method_pattern = bytes "GET";
      target_pattern = bytes "/";
      target_kind = prefix;
      allowed_hosts =
          record { kind = exact_host; value = bytes "example.com" }
          ∷ record { kind = suffix_host; value = bytes ".example.com" }
          ∷ [];
      failure_status = 421;
      failure_body = bytes "wrong host";
    }
    ∷ []

created : create config_text ≡ ok (handle rules_read)
unfolding create parse_rules parse_rule_line parse_rule_fields parse_host_patterns parse_host_fields
    parse_host_pattern host_pattern parse_status_code parse_int is_digit parse_config parse_each
    is_keyword_line classify_target_pattern pieces trim trim_by is_space starts_with split_fields
    equal ascii_lowercase ascii_lower
created = refl

create_host_guard-IsGuarded_example :
    (rules : List GuardRule) × (parse_rules config_text ≡ ok rules)
    × ((request : Request)
        → (reply : Reply) × (handle rules_read request ≡ ok reply)
          × IsGuarded (Applies request) (Satisfies request) IsFailure rules reply)
create_host_guard-IsGuarded_example =
    create_host_guard-IsGuarded config_text (handle rules_read) created

normalize_host_header-port_example :
    normalize_host_header (bytes "A.org" ++ (b':' ∷ bytes "80")) ≡ ascii_lowercase (bytes "A.org")
unfolding is_space is_digit has
normalize_host_header-port_example =
    normalize_host_header-port b'A' (bytes ".org") (bytes "80") refl refl (λ e. cc) (λ e. cc) refl
