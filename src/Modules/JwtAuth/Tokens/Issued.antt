-- ===== src/Modules/JwtAuth/Tokens/Issued.antt =====
-- What becomes of a token that an issuer with the secret wrote.
use garcon.Prelude.{◌≡◌, ◌≢◌, refl, true, Option, some, [], ok, ◌>>=◌}
use garcon.Text.{Bytes, bytes, has, is_space, trim, ascii_lowercase, cut_at}
use garcon.Text.Search.{all-has}
use garcon.Modules.JwtAuth.Base64.RoundTrip.{
  AreBytes, base64url_encode, base64url_decode-encode, is_plain, all-is_plain-encode, encode-ne-nil,
}
use garcon.Modules.JwtAuth.Tokens.{
  Outside, Parts, is_hs256, to_sign, signature_matches, extract_claims, check_claims,
  validate_and_extract,
}
use garcon.Modules.JwtAuth.Tokens.Accepted.{IsPart, token_of, token_parts_complete}

abbrev pub parts_of : Bytes → Bytes → Bytes → Parts
parts_of header payload mac = record {
  h64 = base64url_encode header;
  p64 = base64url_encode payload;
  s64 = base64url_encode mac;
}

-- A text of bytes that is not empty.
abbrev pub IsText : Bytes → Type 0
IsText s = (s ≢ []) × AreBytes s

encode-IsPart : (s : Bytes) → IsText s → IsPart (base64url_encode s)
unfolding is_plain
encode-IsPart s (n, h) =
    (encode-ne-nil s n, all-has is_plain b'.' (base64url_encode s) refl (all-is_plain-encode s h))

module _ (outside : Outside) (secret : Bytes) (required_issuer required_audience : Option Bytes)
    (header payload mac : Bytes) where
  -- A token of a header that says HS256, a payload and their mac under the secret, each of them
  -- bytes and not empty, is judged by the claims of the payload and nothing else.
  pub validate_and_extract-issued :
      IsText header
      → IsText payload
      → IsText mac
      → is_hs256 header ≡ true
      → outside.hmac secret (to_sign (parts_of header payload mac)) ≡ some mac
      → validate_and_extract outside
          (token_of (parts_of header payload mac))
          secret
          required_issuer
          required_audience
        ≡ (extract_claims payload >>= λ claims.
            ok (check_claims outside required_issuer required_audience claims))
  unfolding validate_and_extract signature_matches
  validate_and_extract-issued h p m alg sig =
      let parts =
        token_parts_complete (parts_of header payload mac)
          (encode-IsPart header h, encode-IsPart payload p, encode-IsPart mac m) in
      rw
        (
          validate_and_extract,
          parts,
          base64url_decode-encode header h.1,
          base64url_decode-encode payload p.1,
          base64url_decode-encode mac m.1,
          alg,
          sig,
          garcon.Text.Search.equal_refl mac,
        )
        refl
