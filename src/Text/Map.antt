-- ===== src/Text/Map.antt =====
-- `std::unordered_map` with texts as keys, as the list of its entries.
use garcon.Prelude.{◌≡◌, refl, Option, none, some, List, [], ◌∷◌, arith, if◌then◌else◌}
use garcon.Text.{Bytes, equal}
use garcon.Text.Search.{equal_iff}

module _ {A : Type 0} where
  unfoldable pub find : Bytes → List (Bytes × A) → Option A
  unfolding equal
  find k [] = none
  find k ((j, a) ∷ m) = let later = find k m in if equal j k then some a else later

  -- The value at a key, which is added if it is missing.
  unfoldable pub put : Bytes → A → List (Bytes × A) → List (Bytes × A)
  unfolding equal
  put k a [] = (k, a) ∷ []
  put k a ((j, b) ∷ m) = let later = put k a m in if equal j k then (j, a) ∷ m else (j, b) ∷ later

  -- A key that is set has its value, and the others have theirs.
  pub find-put :
      (k j : Bytes) (a : A) (m : List (Bytes × A))
      → find j (put k a m) ≡ (if equal k j then some a else find j m)
  unfolding find put
  find-put k j a [] = refl
  find-put k j a ((i, b) ∷ m) =
      ground (arith, equal_iff k j, equal_iff i k, equal_iff i j, find-put k j a m)
