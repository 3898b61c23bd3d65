-- ===== src/Prelude/Results.antt =====
-- Code that may throw: a value, an exception with its message, or undefined behaviour (a signed
-- integer overflow, which the language gives no meaning).
use Prim.Native.String.{String}
use mathlib.Core.Path.{◌≡◌, refl, subst}
use mathlib.Core.Bool.{Bool, true, false}

pub data Result {ℓ} (A : Type ℓ) : Type ℓ where
  ok : A → Result A
  throw : String → Result A
  undefined : Result A

infixl 5 ◌>>◌ ◌>>=◌
-- An exception leaves the block, and nothing is known behind undefined behaviour.
abbrev pub ◌>>=◌ {ℓ κ} : {X : Type ℓ} {Y : Type κ} → Result X → (X → Result Y) → Result Y
undefined >>= next = undefined
throw message >>= next = throw message
ok value >>= next = next value

abbrev pub ◌>>◌ {κ} : {Y : Type κ} → Result (Unit {0}) → Result Y → Result Y
first >> second = first >>= λ done. second

-- `if (test) throw std::runtime_error(message);`
abbrev pub throw_if : Bool → String → Result (Unit {0})
throw_if true e = throw e
throw_if false e = ok tt

-- What is behind a bind that returns.
pub >>=-eq-ok {ℓ κ} :
    {X : Type ℓ} {Y : Type κ} (run : Result X) (next : X → Result Y) {y : Y}
    → (run >>= next) ≡ ok y
    → (x : X) × (run ≡ ok x) × (next x ≡ ok y)
>>=-eq-ok undefined next e = cc
>>=-eq-ok (throw message) next e = cc
>>=-eq-ok (ok x) next e = (x, refl, e)

pub throw_if-eq-ok : (b : Bool) (e : String) {u : Unit {0}} → throw_if b e ≡ ok u → b ≡ false
throw_if-eq-ok true e h = cc
throw_if-eq-ok false e h = refl

-- A value that is returned satisfies the predicate.
module _ {ℓ κ} {A : Type ℓ} (P : A → Type κ) where
  abbrev pub Yields : Result A → Type κ
  Yields (ok a) = P a
  Yields (throw message) = Unit
  Yields undefined = Unit

  pub Yields->>= {ν μ} :
      {X : Type ν} (Q : X → Type μ) (run : Result X) (next : X → Result A)
      → ((x : X) → run ≡ ok x → Q x)
      → ((x : X) → Q x → Yields (next x))
      → Yields (run >>= next)
  Yields->>= Q undefined next h k = tt
  Yields->>= Q (throw message) next h k = tt
  Yields->>= Q (ok x) next h k = k x (h x refl)

  pub Yields-ok : (run : Result A) (a : A) → Yields run → run ≡ ok a → P a
  Yields-ok undefined a h e = cc
  Yields-ok (throw message) a h e = cc
  Yields-ok (ok b) a h e = let g : b ≡ a = cc in subst P g h

  pub ok-Yields : (run : Result A) → ((a : A) → run ≡ ok a → P a) → Yields run
  ok-Yields undefined h = tt
  ok-Yields (throw message) h = tt
  ok-Yields (ok a) h = h a refl
