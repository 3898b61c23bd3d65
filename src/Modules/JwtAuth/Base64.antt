-- ===== src/Modules/JwtAuth/Base64.antt =====
-- `base64url_decode`. The bits that are read and not yet written are the low `held` bits of `val`,
-- where the source counts `valb = held - 8`. `val` is an `int` that is shifted left at each byte and
-- loses its high bits; its sign does not reach the low 14 bits that `>>` and `& 0xFF` keep.
pub mod RoundTrip
use garcon.Prelude.{
  ℕ, Bool, true, false, ◌&&◌, Option, none, some, List, [], ◌∷◌, ◌+◌, ◌-◌, ◌*◌, ◌/◌, ◌%◌, ◌^◌, leb,
  ◌==◌, if◌then◌else◌,
}
use garcon.Text.{Bytes}

-- The rows of the table, with `-` and `_` read as `+` and `/`; none where a byte is skipped.
pub sextet : ℕ → Option ℕ
sextet c =
    if c == b'-'
    then some 62
    else if c == b'_'
    then some 63
    else if c == b'+'
    then some 62
    else if c == b'/'
    then some 63
    else if leb b'0' c && leb c b'9'
    then some (c - b'0' + 52)
    else if leb b'A' c && leb c b'Z'
    then some (c - b'A')
    else if leb b'a' c && leb c b'z'
    then some (c - b'a' + 26)
    else none

-- `val = (val << 6) + b`
pub shifted : ℕ → ℕ → ℕ
shifted val b = (val * 64 + b) % 2 ^ 32

decode_from : ℕ → ℕ → Bytes → Bytes
decode_from val held [] = []
decode_from val held (c ∷ cs) = elim (sextet c) [
  | none ↦ decode_from val held cs
  | some b ↦ elim (leb 8 (held + 6)) [
    | true ↦
        shifted val b / 2 ^ (held + 6 - 8) % 256 ∷ decode_from (shifted val b) (held + 6 - 8) cs
    | false ↦ decode_from (shifted val b) (held + 6) cs
  ]
]

unfoldable pub base64url_decode : Bytes → Bytes
unfolding decode_from sextet shifted
base64url_decode input = decode_from 0 0 input
