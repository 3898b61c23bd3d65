-- ===== src/Text/Search.antt =====
-- Comparing and searching texts.
use garcon.Prelude.{
  ℕ, ◌≡◌, refl, ap, ◌∙◌, sym, Bool, true, false, ◌||◌, ◌↔◌, inl, inr, Option, none, some, List, [],
  ◌∷◌, ◌++◌, length, take, drop, all, arith, ◌==◌, ==_iff, Bool-cases, Option-cases,
}
use garcon.Text.{Bytes, equal, has, starts_with, cut_at, push_found}

equal_sound : (a b : Bytes) → equal a b ≡ true → a ≡ b
unfolding equal
equal_sound [] [] h = refl
equal_sound [] (c ∷ cs) h = cc
equal_sound (b ∷ bs) [] h = cc
equal_sound (b ∷ bs) (c ∷ cs) h = ground (arith, equal_sound bs cs)

pub equal_refl : (a : Bytes) → equal a a ≡ true
unfolding equal
equal_refl [] = refl
equal_refl (b ∷ bs) = ground (arith, equal_refl bs)

pub equal_iff : (a b : Bytes) → (equal a b ≡ true) ↔ (a ≡ b)
equal_iff a b = (equal_sound a b, λ e. rw e (equal_refl b))

pub take-length-append {ℓ} : {A : Type ℓ} (p s : List A) → take (length p) (p ++ s) ≡ p
take-length-append [] s = refl
take-length-append (c ∷ p) s = rw (take-length-append p s)

pub drop-length-append {ℓ} : {A : Type ℓ} (p s : List A) → drop (length p) (p ++ s) ≡ s
drop-length-append [] s = refl
drop-length-append (c ∷ p) s = drop-length-append p s

pub take-drop {ℓ} : {A : Type ℓ} (n : ℕ) (s : List A) → s ≡ take n s ++ drop n s
take-drop n s = sym (garcon.Prelude.take-append-drop n s)

-- The test of a prefix.
pub starts_with-append : (p s : Bytes) → starts_with p (p ++ s) ≡ true
unfolding starts_with
starts_with-append p s = rw (take-length-append p s) (equal_refl p)

pub starts_with-split : (p s : Bytes) → starts_with p s ≡ true → s ≡ p ++ drop (length p) s
unfolding starts_with
starts_with-split p s h =
    take-drop (length p) s ∙ ap (λ q. q ++ drop (length p) s) (equal_sound _ p h)

push_found-eq-some :
    (c : ℕ) (o : Option (Bytes × Bytes)) (a b : Bytes)
    → push_found c o ≡ some (a, b)
    → (a' : Bytes) × (o ≡ some (a', b)) × (a ≡ c ∷ a')
push_found-eq-some c none a b h = cc
push_found-eq-some c (some (x, y)) a b h = (x, ground arith, ground arith)

-- What is found is an occurrence.
pub cut_at-eq-some : (needle s a b : Bytes) → cut_at needle s ≡ some (a, b) → s ≡ a ++ (needle ++ b)
unfolding cut_at
cut_at-eq-some [] [] a b h = ground arith
cut_at-eq-some (n ∷ ns) [] a b h = cc
cut_at-eq-some needle (c ∷ cs) a b h = elim (Bool-cases (starts_with needle (c ∷ cs))) [
  | inl here ↦ ground (arith, starts_with-split needle (c ∷ cs) here)
  | inr later ↦
      let (a', e, p) = push_found-eq-some c (cut_at needle cs) a b (rw later at h) in
      rw p (ap (λ t. c ∷ t) (cut_at-eq-some needle cs a' b e))
]

-- Where the needle's first byte does not occur before it, the search finds this occurrence.
pub cut_at-append :
    (n : ℕ) (ns a b : Bytes)
    → has n a ≡ false
    → cut_at (n ∷ ns) (a ++ ((n ∷ ns) ++ b)) ≡ some (a, b)
unfolding cut_at has starts_with equal
cut_at-append n ns [] b h =
    rw (starts_with-append (n ∷ ns) b) (rw (drop-length-append (n ∷ ns) b) refl)
cut_at-append n ns (c ∷ a) b h = ground (arith, cut_at-append n ns a b)

-- A text without the needle's first byte has no occurrence.
pub cut_at-none : (n : ℕ) (ns s : Bytes) → has n s ≡ false → cut_at (n ∷ ns) s ≡ none
unfolding cut_at has starts_with equal
cut_at-none n ns [] h = refl
cut_at-none n ns (c ∷ s) h = ground (arith, cut_at-none n ns s)

-- A search for one byte finds its first occurrence.
pub cut_at-has : (d : ℕ) (s a b : Bytes) → cut_at (d ∷ []) s ≡ some (a, b) → has d a ≡ false
unfolding cut_at has starts_with equal
cut_at-has d [] a b h = cc
cut_at-has d (c ∷ cs) a b h = elim (Bool-cases (c == d)) [
  | inl here ↦ ground arith
  | inr later ↦
      let (a', e, p) = push_found-eq-some c (cut_at (d ∷ []) cs) a b (ground arith) in
      rw p (ground (arith, cut_at-has d cs a' b e))
]

pub cut_at-none-has : (d : ℕ) (s : Bytes) → cut_at (d ∷ []) s ≡ none → has d s ≡ false
unfolding cut_at has starts_with equal
cut_at-none-has d [] h = refl
cut_at-none-has d (c ∷ cs) h = ground (arith, cut_at-none-has d cs)

pub has-append : (d : ℕ) (a b : Bytes) → has d (a ++ b) ≡ (has d a || has d b)
unfolding has
has-append d [] b = refl
has-append d (c ∷ a) b = ground (arith, has-append d a b)

-- A byte that fails a test does not stand among bytes that pass it.
pub all-has : (p : ℕ → Bool) (d : ℕ) (s : Bytes) → p d ≡ false → all p s ≡ true → has d s ≡ false
unfolding has
all-has p d [] h k = refl
all-has p d (c ∷ s) h k = elim (Bool-cases (c == d)) [
  | inl same ↦
      let e : c ≡ d = ground arith in
      let t : p d ≡ true = rw e at (let u : p c ≡ true = ground arith in u) in cc
  | inr other ↦ ground (arith, all-has p d s h)
]
