-- ===== src/Modules/HeaderGuard/Tests.antt =====
-- A guard of one rule.
use garcon.Prelude.{◌≡◌, refl, some, [], ◌∷◌, List, ok}
use garcon.Text.{
  Bytes, bytes, equal, pieces, trim, trim_by, is_space, starts_with, split_fields, parse_int,
  is_digit,
}
use garcon.Http.Request.{Request}
use garcon.Modules.Abi.{Reply}
use garcon.Modules.Config.{
  prefix, is_keyword_line, parse_each, parse_config, classify_target_pattern, parse_status_code,
}
use garcon.Modules.Config.Scan.{IsGuarded}
use garcon.Modules.HeaderGuard.{
  GuardRule, parse_rule, parse_rule_fields, parse_rule_line, parse_rules, handle, create,
}
use garcon.Modules.HeaderGuard.Guards.{Applies, Satisfies, IsFailure, create_header_guard-IsGuarded}

abbrev config_text : Bytes
config_text = bytes "rule=*|/private*|X-Key|s3cret|401|denied\n"

abbrev rules_read : List GuardRule
rules_read =
    record {
      method_pattern = bytes "*";
      target_pattern = bytes "/private";
      target_kind = prefix;
      header_name = bytes "X-Key";
      expected_value = some (bytes "s3cret");
      failure_status = 401;
      failure_body = bytes "denied";
    }
    ∷ []

created : create config_text ≡ ok (handle rules_read)
unfolding create parse_rules parse_rule_line parse_rule_fields parse_rule parse_status_code
    parse_int is_digit parse_config parse_each is_keyword_line classify_target_pattern pieces trim
    trim_by is_space starts_with split_fields equal
created = refl

create_header_guard-IsGuarded_example :
    (rules : List GuardRule) × (parse_rules config_text ≡ ok rules)
    × ((request : Request)
        → (reply : Reply) × (handle rules_read request ≡ ok reply)
          × IsGuarded (Applies request) (Satisfies request) IsFailure rules reply)
create_header_guard-IsGuarded_example =
    create_header_guard-IsGuarded config_text (handle rules_read) created
