-- ===== src/Modules/JwtAuth/Base64/RoundTrip.antt =====
-- Decoding what an encoder wrote gives the bytes back.
use garcon.Prelude.{
  ℕ, ◌≡◌, refl, ap, ◌∙◌, Bool, true, ◌&&◌, some, [], ◌∷◌, All, arith, ◌<◌, ◌+◌, ◌-◌, ◌*◌, ◌/◌, ◌%◌,
  ◌^◌, ◌≢◌, not, all, ltb, ◌==◌, if◌then◌else◌,
}
use garcon.Text.{Bytes, is_space}
use garcon.Modules.JwtAuth.Base64.{sextet, shifted, decode_from, base64url_decode}

-- The alphabet of base64url
unfoldable pub digit : ℕ → ℕ
digit n =
    if ltb n 26
    then n + b'A'
    else if ltb n 52
    then n - 26 + b'a'
    else if ltb n 62
    then n - 52 + b'0'
    else if n == 62
    then b'-'
    else b'_'

-- Three bytes in four digits, without padding behind a rest of one or two bytes.
unfoldable pub base64url_encode : Bytes → Bytes
unfolding digit
base64url_encode [] = []
base64url_encode (a ∷ []) = digit (a / 4) ∷ digit (a % 4 * 16) ∷ []
base64url_encode (a ∷ b ∷ []) =
    digit (a / 4) ∷ digit (a % 4 * 16 + b / 16) ∷ digit (b % 16 * 4) ∷ []
base64url_encode (a ∷ b ∷ c ∷ rest) =
    digit (a / 4)
    ∷ digit (a % 4 * 16 + b / 16)
    ∷ digit (b % 16 * 4 + c / 64)
    ∷ digit (c % 64)
    ∷ base64url_encode rest

abbrev pub AreBytes : Bytes → Type 0
AreBytes bs = All (λ b. b < 256) bs

sextet-digit : (n : ℕ) → n < 64 → sextet (digit n) ≡ some n
unfolding sextet digit
sextet-digit n h = ground arith

-- The bits that a shift brings in, and those that it moves up.
low : (v n : ℕ) → n < 64 → shifted v n % 64 ≡ n
unfolding shifted
low v n h = omega arith

high4 : (v n : ℕ) → n < 64 → shifted v n / 2 ^ 4 % 256 ≡ v % 64 * 4 + n / 16
unfolding shifted
high4 v n h = omega arith

high2 : (v n : ℕ) → n < 64 → shifted v n / 2 ^ 2 % 256 ≡ v % 16 * 16 + n / 4
unfolding shifted
high2 v n h = omega arith

high0 : (v n : ℕ) → n < 64 → shifted v n / 2 ^ 0 % 256 ≡ v % 4 * 64 + n
unfolding shifted
high0 v n h = omega arith

-- What one digit does, by the number of bits that are held.
module _ (v n : ℕ) (cs : Bytes) (h : n < 64) where
  step0 : decode_from v 0 (digit n ∷ cs) ≡ decode_from (shifted v n) 6 cs
  unfolding decode_from
  step0 = rw (decode_from, sextet-digit n h) refl

  step6 : decode_from v 6 (digit n ∷ cs) ≡ (v % 64 * 4 + n / 16) ∷ decode_from (shifted v n) 4 cs
  unfolding decode_from
  step6 = rw (decode_from, sextet-digit n h, high4 v n h) refl

  step4 : decode_from v 4 (digit n ∷ cs) ≡ (v % 16 * 16 + n / 4) ∷ decode_from (shifted v n) 2 cs
  unfolding decode_from
  step4 = rw (decode_from, sextet-digit n h, high2 v n h) refl

  step2 : decode_from v 2 (digit n ∷ cs) ≡ (v % 4 * 64 + n) ∷ decode_from (shifted v n) 0 cs
  unfolding decode_from
  step2 = rw (decode_from, sextet-digit n h, high0 v n h) refl

-- The first byte, from two digits.
two_digits :
    (v a m n : ℕ) (cs : Bytes)
    → a < 256
    → m < 16
    → n ≡ a % 4 * 16 + m
    → decode_from v 0 (digit (a / 4) ∷ digit n ∷ cs)
      ≡ a ∷ decode_from (shifted (shifted v (a / 4)) n) 4 cs
two_digits v a m n cs h k e =
    let l = low v (a / 4) (omega arith) in
    let byte : shifted v (a / 4) % 64 * 4 + n / 16 ≡ a = omega arith in
    step0 v (a / 4) (digit n ∷ cs) (omega arith)
    ∙ (step6 (shifted v (a / 4)) n cs (omega arith)
        ∙ ap (λ b. b ∷ decode_from (shifted (shifted v (a / 4)) n) 4 cs) byte)

-- The second byte, from a third digit.
third_digit :
    (w b k n : ℕ) (cs : Bytes)
    → w % 16 ≡ b / 16
    → b < 256
    → k < 4
    → n ≡ b % 16 * 4 + k
    → decode_from w 4 (digit n ∷ cs) ≡ b ∷ decode_from (shifted w n) 2 cs
third_digit w b k n cs e h l f =
    let byte : w % 16 * 16 + n / 4 ≡ b = omega arith in
    step4 w n cs (omega arith) ∙ ap (λ x. x ∷ decode_from (shifted w n) 2 cs) byte

-- What is held behind two digits are the low bits of the second.
held4 : (v n m : ℕ) → n < 4 → m < 16 → shifted v (n * 16 + m) % 16 ≡ m
held4 v n m h k = omega (arith, low v (n * 16 + m) (omega arith))

-- The third byte, from a fourth digit, and whatever is left in `val`.
fourth_digit :
    (w c n : ℕ) (cs : Bytes)
    → n < 16
    → c < 256
    → (u : ℕ) × (decode_from (shifted w (n * 4 + c / 64)) 2 (digit (c % 64) ∷ cs)
        ≡ c ∷ decode_from u 0 cs)
fourth_digit w c n cs h k =
    let l = low w (n * 4 + c / 64) (omega arith) in
    let v : ℕ = shifted w (n * 4 + c / 64) in
    let byte : v % 4 * 64 + c % 64 ≡ c = omega arith in
    (
      shifted v (c % 64),
      step2 v (c % 64) cs (omega arith) ∙ ap (λ x. x ∷ decode_from (shifted v (c % 64)) 0 cs) byte,
    )

decode_from-encode : (v : ℕ) (bs : Bytes) → AreBytes bs → decode_from v 0 (base64url_encode bs) ≡ bs
unfolding base64url_encode
decode_from-encode v [] h = unfold decode_from in refl
decode_from-encode v (a ∷ []) (ha, _) =
    unfold decode_from in two_digits v a 0 (a % 4 * 16) [] ha (omega arith) (omega arith)
decode_from-encode v (a ∷ b ∷ []) (ha, (hb, _)) =
    let n : ℕ = a % 4 * 16 + b / 16 in
    let w : ℕ = shifted (shifted v (a / 4)) n in
    let e =
      third_digit w b 0 (b % 16 * 4) [] (held4 _ (a % 4) (b / 16) (omega arith) (omega arith)) hb
        (omega arith) (omega arith) in
    two_digits v a (b / 16) n (digit (b % 16 * 4) ∷ []) ha (omega arith) refl
    ∙ ap (◌∷◌ a) (unfold decode_from in e)
decode_from-encode v (a ∷ b ∷ c ∷ rest) (ha, (hb, (hc, hs))) =
    let n : ℕ = a % 4 * 16 + b / 16 in
    let w : ℕ = shifted (shifted v (a / 4)) n in
    let tail : Bytes = digit (c % 64) ∷ base64url_encode rest in
    let e =
      third_digit w b (c / 64) (b % 16 * 4 + c / 64) tail
        (held4 _ (a % 4) (b / 16) (omega arith) (omega arith)) hb (omega arith) refl in
    let (u, f) = fourth_digit w c (b % 16) (base64url_encode rest) (omega arith) hc in
    two_digits v a (b / 16) n (digit (b % 16 * 4 + c / 64) ∷ tail) ha (omega arith) refl
    ∙ ap (◌∷◌ a) (e ∙ ap (◌∷◌ b) (f ∙ ap (◌∷◌ c) (decode_from-encode u rest hs)))

-- Bytes that are written in base64url without padding decode to themselves, at every length.
pub base64url_decode-encode :
    (bs : Bytes) → AreBytes bs → base64url_decode (base64url_encode bs) ≡ bs
unfolding base64url_decode
base64url_decode-encode bs h = decode_from-encode 0 bs h

-- A byte that a token's part can have: no dot and no space.
unfoldable pub is_plain : ℕ → Bool
is_plain c = not (c == b'.') && not (is_space c)

is_plain-digit : (n : ℕ) → n < 64 → is_plain (digit n) ≡ true
unfolding is_plain digit is_space
is_plain-digit n h = ground arith

pub all-is_plain-encode : (bs : Bytes) → AreBytes bs → all is_plain (base64url_encode bs) ≡ true
unfolding base64url_encode
all-is_plain-encode [] h = refl
all-is_plain-encode (a ∷ []) (ha, _) =
    rw (is_plain-digit (a / 4) (omega arith), is_plain-digit (a % 4 * 16) (omega arith)) refl
all-is_plain-encode (a ∷ b ∷ []) (ha, (hb, _)) =
    rw
      (
        is_plain-digit (a / 4) (omega arith),
        is_plain-digit (a % 4 * 16 + b / 16) (omega arith),
        is_plain-digit (b % 16 * 4) (omega arith),
      )
      refl
all-is_plain-encode (a ∷ b ∷ c ∷ rest) (ha, (hb, (hc, hs))) =
    rw
      (
        is_plain-digit (a / 4) (omega arith),
        is_plain-digit (a % 4 * 16 + b / 16) (omega arith),
        is_plain-digit (b % 16 * 4 + c / 64) (omega arith),
        is_plain-digit (c % 64) (omega arith),
      )
      (all-is_plain-encode rest hs)

pub encode-ne-nil : (bs : Bytes) → bs ≢ [] → base64url_encode bs ≢ []
unfolding base64url_encode
encode-ne-nil [] h e = h refl
encode-ne-nil (a ∷ []) h e = cc
encode-ne-nil (a ∷ b ∷ []) h e = cc
encode-ne-nil (a ∷ b ∷ c ∷ rest) h e = cc
