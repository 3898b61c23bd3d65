-- ===== src/Modules/KeyValue/Tests.antt =====
-- A configuration of two keys.
use garcon.Prelude.{◌≡◌, refl, some, [], ◌∷◌}
use garcon.Text.{Bytes, bytes, has, pieces, trim, trim_by, is_space, equal, starts_with, cut_at}
use garcon.Modules.KeyValue.{get, get_from, entry_of}
use garcon.Modules.KeyValue.Entries.{print, lookup, get-print}

abbrev config_text : Bytes
config_text = bytes "# a = b\n a = 1 = 2\n\na=3\n b ="

get_a : get config_text (bytes "a") ≡ some (bytes "1 = 2")
unfolding get get_from entry_of pieces trim trim_by is_space equal starts_with cut_at
get_a = refl

get_b : get config_text (bytes "b") ≡ some (bytes "")
unfolding get get_from entry_of pieces trim trim_by is_space equal starts_with cut_at
get_b = refl

get-print_example :
    get (print ((bytes "a", bytes "1") ∷ (bytes "b", bytes "x = y") ∷ [])) (bytes "b")
    ≡ some (bytes "x = y")
unfolding is_space has lookup equal
get-print_example =
    get-print ((bytes "a", bytes "1") ∷ (bytes "b", bytes "x = y") ∷ []) (bytes "b") (λ e. cc)
      (
        ((λ e. cc), refl, refl, refl, refl, (refl, refl), (refl, refl)),
        (((λ e. cc), refl, refl, refl, refl, (refl, refl), (refl, refl)), tt),
      )
