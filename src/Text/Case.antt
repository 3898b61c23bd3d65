-- ===== src/Text/Case.antt =====
-- ASCII case folding.
use garcon.Prelude.{ℕ, ◌≡◌, ◌↔◌, refl, true, [], ◌∷◌, arith}
use garcon.Text.{Bytes, ascii_lower, ascii_lowercase, same_lower, ascii_iequals}

ascii_lower_idem : (c : ℕ) → ascii_lower (ascii_lower c) ≡ ascii_lower c
unfolding ascii_lower
ascii_lower_idem c = ground arith

pub ascii_lowercase_idem : (s : Bytes) → ascii_lowercase (ascii_lowercase s) ≡ ascii_lowercase s
unfolding ascii_lowercase
ascii_lowercase_idem [] = refl
ascii_lowercase_idem (c ∷ s) = cc (ascii_lower_idem c, ascii_lowercase_idem s)

ascii_iequals_sound :
    (a b : Bytes) → ascii_iequals a b ≡ true → ascii_lowercase a ≡ ascii_lowercase b
unfolding ascii_iequals same_lower ascii_lowercase
ascii_iequals_sound [] [] h = refl
ascii_iequals_sound [] (c ∷ b) h = ground arith
ascii_iequals_sound (c ∷ a) [] h = ground arith
ascii_iequals_sound (c ∷ a) (d ∷ b) h = ground (arith, ascii_iequals_sound a b)

ascii_iequals_complete :
    (a b : Bytes) → ascii_lowercase a ≡ ascii_lowercase b → ascii_iequals a b ≡ true
unfolding ascii_iequals same_lower ascii_lowercase
ascii_iequals_complete [] [] h = refl
ascii_iequals_complete [] (c ∷ b) h = ground arith
ascii_iequals_complete (c ∷ a) [] h = ground arith
ascii_iequals_complete (c ∷ a) (d ∷ b) h = ground (arith, ascii_iequals_complete a b)

-- The comparison ignores case and nothing else.
pub ascii_iequals_iff :
    (a b : Bytes) → (ascii_iequals a b ≡ true) ↔ (ascii_lowercase a ≡ ascii_lowercase b)
ascii_iequals_iff a b = (ascii_iequals_sound a b, ascii_iequals_complete a b)
