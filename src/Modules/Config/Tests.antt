-- ===== src/Modules/Config/Tests.antt =====
-- Status codes and patterns.
use garcon.Prelude.{◌≡◌, ◌<◌, refl, true, all, arith, ok, undefined}
use garcon.Text.{bytes, is_digit, parse_int, int_max}
use garcon.Text.Decimal.{decimal}
use garcon.Modules.Config.{parse_status_code}
use garcon.Modules.Config.Status.{parse_status_code_overflow}

code_read : parse_status_code "router: " (bytes "0404") ≡ ok 404
unfolding parse_status_code parse_int is_digit
code_read = refl

digits : all is_digit (bytes "4294967696") ≡ true
unfolding is_digit
digits = refl

overflows : int_max < decimal 0 (bytes "4294967696")
unfolding decimal
overflows = omega arith

parse_status_code_overflow_example : parse_status_code "router: " (bytes "4294967696") ≡ undefined
parse_status_code_overflow_example =
    parse_status_code_overflow "router: " (bytes "4294967696") digits overflows
