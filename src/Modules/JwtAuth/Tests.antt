-- ===== src/Modules/JwtAuth/Tests.antt =====
-- A module of one rule, with a mac of four bytes that is the same for all messages.
use garcon.Prelude.{
  ◌≡◌, refl, true, none, some, [], ◌∷◌, ◌++◌, ok, ◌>>=◌, arith, all, ltb, ltb→lt, ◌<◌, All-of_all,
  ◌∙◌,
}
use garcon.Prelude.Integers.{pos}
use garcon.Text.{
  Bytes, bytes, equal, pieces, trim, trim_by, is_space, starts_with, split_fields, is_digit,
  ascii_iequals, cut_at,
}
use garcon.Http.Header.{header_value, find_header, header_name_equals}
use garcon.Http.Request.{Request}
use garcon.Modules.Config.{
  prefix, is_keyword_line, parse_each, parse_config, classify_target_pattern, method_matches,
  target_matches,
}
use garcon.Modules.KeyValue.{get, entry_of}
use garcon.Modules.JwtAuth.{
  JwtAuthModule, parse_rule_fields, parse_rule_line, parse_rules, create, enforced, rule_applies,
  claims_reply, verdict_reply, handle,
}
use garcon.Modules.JwtAuth.Base64.{base64url_decode}
use garcon.Modules.JwtAuth.Base64.RoundTrip.{base64url_encode, base64url_decode-encode, AreBytes}
use garcon.Modules.JwtAuth.Json.{
  searched, extract_json_int, extract_json_string, read_string, read_int, read_digits, skip_spaces,
}
use garcon.Modules.JwtAuth.Tokens.{
  Outside, JwtClaims, accepted, extract_claims, check_claims, is_hs256, meets, is_expired,
}
use garcon.Modules.JwtAuth.Tokens.Accepted.{token_of}
use garcon.Modules.JwtAuth.Tokens.Issued.{IsText, parts_of}
use garcon.Modules.JwtAuth.Shield.{IsTurnedAway, IsFinal, handle-IsFinal}
use garcon.Modules.Abi.{respond_reply, to_http_request}
use garcon.Modules.Abi.Bridge.{IsDefined}
use garcon.Http.Response.{Response}
use garcon.Modules.JwtAuth.{make_unauthorized, request_token}
use garcon.Modules.JwtAuth.Guards.{IsAuthorized, handle-IsAuthorized}
use garcon.Modules.JwtAuth.Issued.{handle-issued}

abbrev config_text : Bytes
config_text = bytes "secret = abc\naudience=\nissuer=me\nrule=*|/jwt/*"

abbrev module_read : JwtAuthModule
module_read = record {
  secret = bytes "abc";
  alg = bytes "HS256";
  issuer = some (bytes "me");
  audience = none;
  rules =
      record { method_pattern = bytes "*"; target_pattern = bytes "/jwt/"; target_kind = prefix }
      ∷ [];
}

created : create config_text ≡ ok module_read
unfolding create parse_rules parse_rule_line parse_rule_fields parse_config parse_each
    is_keyword_line classify_target_pattern pieces trim trim_by is_space starts_with split_fields
    equal get entry_of cut_at
created = refl

abbrev mac : Bytes
mac = 1 ∷ 2 ∷ 3 ∷ 250 ∷ []

abbrev outside : Outside
outside = record { hmac = λ secret message. some mac; now = pos 1000 }

abbrev header : Bytes
header = bytes "{\"alg\":\"HS256\"}"

abbrev payload : Bytes
payload = bytes "{\"sub\": \"a\\\"b\",\"iss\":\"me\",\"aud\":[\"x\",\"y\"],\"exp\": 1001}"

abbrev claims_read : JwtClaims
claims_read = record {
  sub = bytes "a\"b";
  roles = [];
  iss = bytes "me";
  aud = bytes "x";
  exp = pos 1001;
}

claims_of_payload : extract_claims payload ≡ ok claims_read
unfolding extract_claims extract_json_string extract_json_int searched read_string read_int
    read_digits skip_spaces is_space is_digit cut_at starts_with equal
claims_of_payload = refl

abbrev token : Bytes
token = token_of (parts_of header payload mac)

abbrev signed_request : Request
signed_request = record {
  method = bytes "GET";
  target = bytes "/jwt/a";
  version_major = 1;
  version_minor = 1;
  headers = record { name = bytes "authorization"; value = bytes "Bearer " ++ token } ∷ [];
}

in_scope : enforced module_read signed_request ≡ true
unfolding enforced rule_applies method_matches target_matches equal
in_scope = refl

base64url_decode-encode_example :
    base64url_decode (base64url_encode (250 ∷ 251 ∷ 0 ∷ 7 ∷ [])) ≡ 250 ∷ 251 ∷ 0 ∷ 7 ∷ []
base64url_decode-encode_example =
    base64url_decode-encode (250 ∷ 251 ∷ 0 ∷ 7 ∷ [])
      (omega arith, (omega arith, (omega arith, (omega arith, tt))))

decoded : base64url_decode (bytes "_-A=b w") ≡ 255 ∷ 224 ∷ 27 ∷ []
unfolding base64url_decode
decoded = refl

are_bytes : (s : Bytes) → all (λ b. ltb b 256) s ≡ true → AreBytes s
are_bytes s h = All-of_all (λ b. ltb b 256) (λ b. b < 256) (λ b. ltb→lt b 256) s h

header-IsText : IsText header
header-IsText = ((λ e. cc), are_bytes header refl)

payload-IsText : IsText payload
payload-IsText = ((λ e. cc), are_bytes payload refl)

mac-IsText : IsText mac
mac-IsText = ((λ e. cc), are_bytes mac refl)

hs256_named : is_hs256 header ≡ true
unfolding is_hs256 cut_at starts_with equal
hs256_named = refl

header_carried :
    header_value signed_request.headers (bytes "Authorization") ≡ some (bytes "Bearer " ++ token)
unfolding header_value find_header header_name_equals ascii_iequals
header_carried = refl

handle-issued_example : handle outside module_read signed_request ≡ (
    extract_claims payload >>= λ claims.
    ok (verdict_reply (check_claims outside (some (bytes "me")) none claims)))
handle-issued_example =
    handle-issued outside module_read signed_request header payload mac header-IsText payload-IsText
      mac-IsText hs256_named refl in_scope header_carried

judged_claims : check_claims outside (some (bytes "me")) none claims_read ≡ accepted claims_read
unfolding check_claims meets is_expired equal
judged_claims = refl

handled : handle outside module_read signed_request ≡ ok (claims_reply claims_read)
handled = handle-issued_example ∙ rw (claims_of_payload, judged_claims) refl

handle-IsAuthorized_example :
    IsAuthorized outside module_read signed_request (claims_reply claims_read)
handle-IsAuthorized_example =
    handle-IsAuthorized outside module_read signed_request (claims_reply claims_read) handled

abbrev bare_request : Request
bare_request = record signed_request { headers = [] }

no_token : request_token bare_request ≡ none
unfolding request_token header_value find_header
no_token = refl

bare_handled :
    handle outside module_read bare_request
    ≡ ok (respond_reply (make_unauthorized (bytes "missing token\n")))
unfolding handle enforced rule_applies request_token header_value find_header method_matches
    target_matches equal
bare_handled = refl

bare-IsDefined : IsDefined bare_request (handle outside module_read)
unfolding to_http_request
bare-IsDefined e = cc bare_handled

handle-IsFinal_example :
    (answer : Response) × IsTurnedAway answer × IsFinal outside module_read bare_request answer
unfolding to_http_request enforced rule_applies
handle-IsFinal_example =
    handle-IsFinal outside module_read bare_request bare-IsDefined
      (in_scope, λ other claims t a. cc no_token)
