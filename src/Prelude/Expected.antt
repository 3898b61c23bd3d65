-- ===== src/Prelude/Expected.antt =====
-- `std::expected`: a value, or the error in its place.
use mathlib.Core.Path.{◌≡◌, refl}
use mathlib.Core.Bool.{Bool, true, false}

pub data Expected (E A : Type 0) : Type 0 where
  expected : A → Expected E A
  unexpected : E → Expected E A

infixl 5 ◌>>=◌ ◌>>◌
abbrev pub ◌>>=◌ : {E A B : Type 0} → Expected E A → (A → Expected E B) → Expected E B
expected a >>= f = f a
unexpected e >>= f = unexpected e

abbrev pub ◌>>◌ : {E B : Type 0} → Expected E (Unit {0}) → Expected E B → Expected E B
m >> k = m >>= λ _. k

-- `m.and_then(f)`, the same by name.
abbrev pub and_then : {E A B : Type 0} → Expected E A → (A → Expected E B) → Expected E B
and_then m f = m >>= f

-- `if (!test) return std::unexpected(error);`
abbrev pub require : {E : Type 0} → Bool → E → Expected E (Unit {0})
require true e = expected tt
require false e = unexpected e

pub >>=-eq-expected :
    {E A B : Type 0} (m : Expected E A) (f : A → Expected E B) {b : B}
    → (m >>= f) ≡ expected b
    → (a : A) × (m ≡ expected a) × (f a ≡ expected b)
>>=-eq-expected (expected a) f h = (a, refl, h)
>>=-eq-expected (unexpected e) f h = cc

pub require-eq-expected :
    {E : Type 0} (b : Bool) (e : E) {u : Unit {0}} → require b e ≡ expected u → b ≡ true
require-eq-expected true e h = refl
require-eq-expected false e h = cc
