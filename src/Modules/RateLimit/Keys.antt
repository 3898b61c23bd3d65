-- ===== src/Modules/RateLimit/Keys.antt =====
-- The keys of the buckets.
use garcon.Prelude.{ℕ, ◌≡◌, refl, ap, sym, ◌∙◌, false, [], Option, some}
use garcon.Text.{Bytes, bytes, has, is_digit, to_string, cut_at}
use garcon.Text.Search.{all-has, cut_at-append}
use garcon.Text.Decimal.{decimal, decimal-to_string, all-is_digit-to_string}
use garcon.Modules.RateLimit.{make_state_key}

no_colon : (i : ℕ) → has b':' (to_string i) ≡ false
no_colon i =
    all-has is_digit b':' (to_string i) (unfold is_digit in refl) (all-is_digit-to_string i)

key_cut : (i : ℕ) (s : Bytes) → cut_at (bytes ":") (make_state_key i s) ≡ some (to_string i, s)
unfolding make_state_key
key_cut i s = cut_at-append b':' [] (to_string i) s (no_colon i)

-- Two rules, or two subjects of one rule, never share a bucket's key, whatever bytes the subjects
-- have.
pub make_state_key_injective :
    (i j : ℕ) (s t : Bytes) → make_state_key i s ≡ make_state_key j t → (i ≡ j) × (s ≡ t)
make_state_key_injective i j s t e =
    let both : ◌≡◌ {A = Option (Bytes × Bytes)} (some (to_string i, s)) (some (to_string j, t)) =
      sym (key_cut i s) ∙ (ap (cut_at (bytes ":")) e ∙ key_cut j t) in
    let same : to_string i ≡ to_string j = cc in
    (sym (decimal-to_string i) ∙ (ap (decimal 0) same ∙ decimal-to_string j), cc)
