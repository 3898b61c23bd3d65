-- ===== src/Modules/JwtAuth/Tokens/Accepted.antt =====
-- When a token is accepted.
use garcon.Prelude.Integers.{ℤ, pos, negsuc, lebℤ, is_zero}
use garcon.Prelude.{
  zero, suc, ◌⊎◌, Bool-cases, ◌≡◌, ◌≢◌, ◌↔◌, refl, ap, ◌∙◌, true, false, Option, none, some, [],
  ◌∷◌, ◌++◌, is_empty, arith, Option-cases, inl, inr, ok, >>=-eq-ok, subst,
}
use garcon.Text.{Bytes, bytes, has, cut_at}
use garcon.Text.Search.{equal_iff, cut_at-eq-some, cut_at-has, cut_at-append}
use garcon.Modules.JwtAuth.Base64.{base64url_decode}
use garcon.Modules.JwtAuth.Tokens.{
  Outside, JwtClaims, Parts, accepted, token_parts, last_part, is_hs256, to_sign, signature_matches,
  signed, extract_claims, meets, is_expired, check_claims, judged, validate_and_extract,
}

-- Three texts without a dot, none of them empty.
abbrev pub IsPart : Bytes → Type 0
IsPart s = (s ≢ []) × (has b'.' s ≡ false)

abbrev pub token_of : Parts → Bytes
token_of parts = parts.h64 ++ (bytes "." ++ (parts.p64 ++ (bytes "." ++ parts.s64)))

abbrev pub AreParts : Parts → Type 0
AreParts parts = IsPart parts.h64 × IsPart parts.p64 × IsPart parts.s64

is_empty-false : (s : Bytes) → is_empty s ≡ false → s ≢ []
is_empty-false [] h e = cc
is_empty-false (c ∷ s) h e = cc

not_empty : (s : Bytes) → s ≢ [] → is_empty s ≡ false
not_empty [] h = absurd (h refl)
not_empty (c ∷ s) h = refl

last_part_sound :
    (h p s : Bytes) (parts : Parts)
    → has b'.' h ≡ false
    → has b'.' p ≡ false
    → last_part h p s ≡ some parts
    → (h ++ (bytes "." ++ (p ++ (bytes "." ++ s))) ≡ token_of parts) × AreParts parts
last_part_sound h p s parts hd pd e =
    let sd : has b'.' s ≡ false = ground arith in
    let g : record { h64 = h; p64 = p; s64 = s } ≡ parts = ground arith in
    subst (λ q. (h ++ (bytes "." ++ (p ++ (bytes "." ++ s))) ≡ token_of q) × AreParts q) g
      (
        refl,
        (
          (is_empty-false h (ground arith), hd),
          (is_empty-false p (ground arith), pd),
          (is_empty-false s (ground arith), sd),
        ),
      )

token_parts_sound :
    (token : Bytes) (parts : Parts)
    → token_parts token ≡ some parts
    → (token ≡ token_of parts) × AreParts parts
unfolding token_parts
token_parts_sound token parts h = elim (Option-cases (cut_at (bytes ".") token)) [
  | inl e ↦ absurd (let k : none ≡ some parts = rw (e, token_parts) at h in cc)
  | inr ((a, rest), e) ↦ elim (Option-cases (cut_at (bytes ".") rest)) [
    | inl f ↦ absurd (let k : none ≡ some parts = rw (e, f, token_parts) at h in cc)
    | inr ((b, c), f) ↦
        let k : last_part a b c ≡ some parts = rw (e, f, token_parts) at h in
        let (g, are) =
          last_part_sound a b c parts (cut_at-has b'.' token a rest e) (cut_at-has b'.' rest b c f)
            k in
        (
          cut_at-eq-some (bytes ".") token a rest e
              ∙ (ap (λ t. a ++ (bytes "." ++ t)) (cut_at-eq-some (bytes ".") rest b c f) ∙ g),
          are,
        )
  ]
]

pub token_parts_complete :
    (parts : Parts) → AreParts parts → token_parts (token_of parts) ≡ some parts
unfolding token_parts
token_parts_complete parts ((h, hd), (p, pd), (s, sd)) =
    rw
      (
        token_parts,
        cut_at-append b'.' [] parts.h64 (parts.p64 ++ (bytes "." ++ parts.s64)) hd,
        cut_at-append b'.' [] parts.p64 parts.s64 pd,
        sd,
        not_empty parts.h64 h,
        not_empty parts.p64 p,
        not_empty parts.s64 s,
      )
      refl

pub signature_matches_iff :
    (mac : Option Bytes) (sig : Bytes) → (signature_matches mac sig ≡ true) ↔ (mac ≡ some sig)
unfolding signature_matches
signature_matches_iff none sig = (λ h. cc, λ h. cc)
signature_matches_iff (some mac) sig =
    (λ h. ap some ((equal_iff mac sig).0 h), λ h. ground (arith, equal_iff mac sig))

-- A claim for which the configuration has a text that is not empty is this text.
abbrev pub IsRequired : Option Bytes → Bytes → Type 0
IsRequired none claim = Unit
IsRequired (some required) claim = (required ≡ []) ⊎ (claim ≡ required)

meets_iff :
    (required : Option Bytes) (claim : Bytes)
    → (meets required claim ≡ true) ↔ IsRequired required claim
unfolding meets
meets_iff none claim = (λ h. tt, λ h. refl)
meets_iff (some []) claim = (λ h. inl refl, λ h. refl)
meets_iff (some (c ∷ required)) claim = (
  λ h. inr ((equal_iff claim (c ∷ required)).0 h),
  λ h. ground (arith, equal_iff claim (c ∷ required)),
)

-- There is no expiry, or it is later than now.
abbrev pub IsLive : ℤ → ℤ → Type 0
IsLive now exp = (exp ≡ pos 0) ⊎ (lebℤ exp now ≡ false)

is_zero_iff : (exp : ℤ) → (is_zero exp ≡ true) ↔ (exp ≡ pos 0)
is_zero_iff (pos zero) = (λ h. refl, λ h. refl)
is_zero_iff (pos (suc n)) = (λ h. cc, λ h. cc)
is_zero_iff (negsuc n) = (λ h. cc, λ h. cc)

is_expired_iff : (now exp : ℤ) → (is_expired now exp ≡ false) ↔ IsLive now exp
unfolding is_expired
is_expired_iff now exp = (
  λ h. elim (Bool-cases (is_zero exp)) [
    | inl z ↦ inl ((is_zero_iff exp).0 z)
    | inr z ↦ inr (rw z at h)
  ],
  λ h. elim h [ inl z ↦ rw ((is_zero_iff exp).1 z) refl | inr l ↦ ground arith ],
)

module _ (outside : Outside) (secret : Bytes)
    (required_issuer required_audience : Option Bytes) where
  -- The token is three dot-free parts; the first says HS256, the last is the mac of the two others
  -- under the secret, and the claims of the second are the required ones and not expired.
  pub IsAccepted : Bytes → JwtClaims → Type 0
  IsAccepted token claims =
      (parts : Parts) × (token ≡ token_of parts)
      × AreParts parts
      × (is_hs256 (base64url_decode parts.h64) ≡ true)
      × (outside.hmac secret (to_sign parts) ≡ some (base64url_decode parts.s64))
      × (extract_claims (base64url_decode parts.p64) ≡ ok claims)
      × IsRequired required_issuer claims.iss
      × IsRequired required_audience claims.aud
      × IsLive outside.now claims.exp

  check_claims_sound :
      (found claims : JwtClaims)
      → check_claims outside required_issuer required_audience found ≡ accepted claims
      → (found ≡ claims)
        × (meets required_issuer found.iss ≡ true)
        × (meets required_audience found.aud ≡ true)
        × (is_expired outside.now found.exp ≡ false)
  unfolding check_claims
  check_claims_sound found claims h = (ground arith, ground arith, ground arith, ground arith)

  judged_sound :
      (token : Bytes) (claims : JwtClaims) (parts : Parts)
      → token_parts token ≡ some parts
      → judged outside secret required_issuer required_audience parts ≡ ok (accepted claims)
      → IsAccepted token claims
  unfolding IsAccepted
  judged_sound token claims parts e k =
      let alg : is_hs256 (base64url_decode parts.h64) ≡ true = ground arith in
      let sig : signed outside secret parts ≡ true = ground arith in
      let k1 = rw (alg, sig) at k in
      let (found, f, k2) = >>=-eq-ok (extract_claims (base64url_decode parts.p64)) _ k1 in
      let (c, i, a, x) = check_claims_sound found claims (ground arith) in
      let (t, are) = token_parts_sound token parts e in
      (
        parts,
        t,
        are,
        alg,
        (signature_matches_iff (outside.hmac secret (to_sign parts)) _).0 sig,
        (rw c at f),
        (meets_iff required_issuer claims.iss).0 (rw c at i),
        (meets_iff required_audience claims.aud).0 (rw c at a),
        (is_expired_iff outside.now claims.exp).0 (rw c at x),
      )

  accepted_sound :
      (token : Bytes) (claims : JwtClaims)
      → validate_and_extract outside token secret required_issuer required_audience
        ≡ ok (accepted claims)
      → IsAccepted token claims
  unfolding validate_and_extract
  accepted_sound token claims h = elim (Option-cases (token_parts token)) [
    | inl e ↦ cc (rw (e, validate_and_extract) at h)
    | inr (parts, e) ↦ judged_sound token claims parts e (rw (e, validate_and_extract) at h)
  ]

  accepted_complete :
      (token : Bytes) (claims : JwtClaims)
      → IsAccepted token claims
      → validate_and_extract outside token secret required_issuer required_audience
        ≡ ok (accepted claims)
  unfolding validate_and_extract IsAccepted check_claims
  accepted_complete token claims (parts, t, are, alg, sig, e, i, a, x) =
      let p : token_parts token ≡ some parts = rw t (token_parts_complete parts are) in
      let s = (signature_matches_iff (outside.hmac secret (to_sign parts)) _).1 sig in
      let i1 = (meets_iff required_issuer claims.iss).1 i in
      let a1 = (meets_iff required_audience claims.aud).1 a in
      let x1 = (is_expired_iff outside.now claims.exp).1 x in
      rw (validate_and_extract, p, alg, s, e, i1, a1, x1) refl

  -- A token is accepted with its claims where it is three dot-free parts of which the first says
  -- HS256 and the last is the mac of the two others under the secret, the claims read from the
  -- second are those that are required, and they are not expired; and nowhere else.
  pub validate_and_extract_iff :
      (token : Bytes) (claims : JwtClaims)
      → (validate_and_extract outside token secret required_issuer required_audience
          ≡ ok (accepted claims))
        ↔ IsAccepted token claims
  validate_and_extract_iff token claims =
      (accepted_sound token claims, accepted_complete token claims)
