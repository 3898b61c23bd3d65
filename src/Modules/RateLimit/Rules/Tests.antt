-- ===== src/Modules/RateLimit/Rules/Tests.antt =====
-- Rules as a configuration gives them.
use garcon.Prelude.{◌≡◌, ◌≢◌, refl, List, [], ◌∷◌, All, ok}
use garcon.Text.{
  Bytes, bytes, equal, has, pieces, trim, trim_by, is_space, starts_with, split_fields, is_digit,
  parse_int,
}
use garcon.Modules.Config.{
  prefix, exact, is_keyword_line, parse_each, parse_config, classify_target_pattern,
}
use garcon.Modules.RateLimit.Rules.{
  Rule, global, header, parse_positive_int, split_last, parse_window_seconds, parse_key_spec,
  parse_burst, parse_rule_fields, parse_rule_line, create_rules,
}
use garcon.Modules.RateLimit.Rules.Checked.{IsRule, create_rules-IsRule}

abbrev config_text : Bytes
config_text = bytes "rule=*|/api/*|header:X-Key|5|2m\nrule=GET|/|global|3|10|1"

abbrev rules_read : List Rule
rules_read =
    record {
      method_pattern = bytes "*";
      target_pattern = bytes "/api/";
      target_kind = prefix;
      key_type = header;
      key_name = bytes "X-Key";
      limit = 5;
      window_seconds = 120;
      burst = 5;
    }
    ∷ record {
      method_pattern = bytes "GET";
      target_pattern = bytes "/";
      target_kind = exact;
      key_type = global;
      key_name = [];
      limit = 3;
      window_seconds = 10;
      burst = 3;
    }
    ∷ []

created : create_rules config_text ≡ ok rules_read
unfolding create_rules parse_rule_line parse_rule_fields parse_positive_int split_last
    parse_window_seconds parse_key_spec parse_burst parse_config parse_each is_keyword_line
    classify_target_pattern pieces trim trim_by is_space starts_with split_fields equal has
    parse_int is_digit
created = refl

create_rules-IsRule_example : (rules_read ≢ []) × All IsRule rules_read
create_rules-IsRule_example = create_rules-IsRule config_text rules_read created
