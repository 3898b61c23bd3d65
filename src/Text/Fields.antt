-- ===== src/Text/Fields.antt =====
-- Lines and fields: `pieces` is the one list of delimiter-free texts that joins to the value.
use garcon.Prelude.{
  ℕ, ◌≡◌, refl, ap, ◌∙◌, ◌≢◌, false, inl, inr, List, [], ◌∷◌, ◌++◌, All, arith, ◌==◌, Bool-cases,
}
use garcon.Text.{Bytes, has, pieces, push_piece}

-- The texts with the delimiter between each two.
pub join : ℕ → List Bytes → Bytes
join d [] = []
join d (field ∷ []) = field
join d (field ∷ next ∷ fields) = field ++ (d ∷ join d (next ∷ fields))

abbrev pub NoDelimiter : ℕ → List Bytes → Type 0
NoDelimiter d fields = All (λ field. has d field ≡ false) fields

pieces-ne-nil : (d : ℕ) (s : Bytes) → pieces d s ≢ []
unfolding pieces
pieces-ne-nil d [] h = cc
pieces-ne-nil d (c ∷ cs) h = elim (Bool-cases (c == d)) [
  | inl here ↦ cc (rw here at h)
  | inr other ↦ pushed (pieces d cs) (rw other at h)
]
  where
    pushed : (fs : List Bytes) → push_piece c fs ≡ [] → ⊥
    pushed [] e = cc
    pushed (f ∷ fs) e = cc

join-cons : (d : ℕ) (fs : List Bytes) → fs ≢ [] → join d ([] ∷ fs) ≡ d ∷ join d fs
unfolding join
join-cons d [] h = absurd (h refl)
join-cons d (f ∷ fs) h = refl

join-push_piece : (d c : ℕ) (fs : List Bytes) → join d (push_piece c fs) ≡ c ∷ join d fs
unfolding join
join-push_piece d c [] = refl
join-push_piece d c (f ∷ []) = refl
join-push_piece d c (f ∷ g ∷ fs) = refl

pub join-pieces : (d : ℕ) (s : Bytes) → join d (pieces d s) ≡ s
unfolding pieces
join-pieces d [] = unfold join in refl
join-pieces d (c ∷ cs) = elim (Bool-cases (c == d)) [
  | inl here ↦
      let e : c ≡ d = ground arith in
      rw here
        (join-cons d (pieces d cs) (pieces-ne-nil d cs) ∙ rw e (ap (◌∷◌ d) (join-pieces d cs)))
  | inr other ↦ rw other (join-push_piece d c (pieces d cs) ∙ ap (◌∷◌ c) (join-pieces d cs))
]

NoDelimiter-push_piece :
    (d c : ℕ) (fs : List Bytes)
    → (c == d) ≡ false
    → NoDelimiter d fs
    → NoDelimiter d (push_piece c fs)
unfolding has
NoDelimiter-push_piece d c [] h k = ground arith
NoDelimiter-push_piece d c (f ∷ fs) h k = ground arith

has_nil : (d : ℕ) → has d [] ≡ false
unfolding has
has_nil d = refl

pub pieces-NoDelimiter : (d : ℕ) (s : Bytes) → NoDelimiter d (pieces d s)
unfolding pieces
pieces-NoDelimiter d [] = (has_nil d, tt)
pieces-NoDelimiter d (c ∷ cs) = elim (Bool-cases (c == d)) [
  | inl here ↦ rw here ((has_nil d, pieces-NoDelimiter d cs))
  | inr other ↦ rw other (NoDelimiter-push_piece d c (pieces d cs) other (pieces-NoDelimiter d cs))
]

pieces_end : (d : ℕ) (f : Bytes) → has d f ≡ false → pieces d f ≡ f ∷ []
unfolding pieces has
pieces_end d [] h = refl
pieces_end d (c ∷ f) h = ground (arith, pieces_end d f)

pieces-append : (d : ℕ) (f s : Bytes) → has d f ≡ false → pieces d (f ++ (d ∷ s)) ≡ f ∷ pieces d s
unfolding pieces has
pieces-append d [] s h = ground arith
pieces-append d (c ∷ f) s h = ground (arith, pieces-append d f s)

-- Any delimiter-free texts come back, so `pieces` has no other value.
pub pieces-join : (d : ℕ) (fs : List Bytes) → fs ≢ [] → NoDelimiter d fs → pieces d (join d fs) ≡ fs
unfolding join
pieces-join d [] h k = absurd (h refl)
pieces-join d (f ∷ []) h k = pieces_end d f k.0
pieces-join d (f ∷ g ∷ fs) h k =
    pieces-append d f (join d (g ∷ fs)) k.0 ∙ ap (◌∷◌ f) (pieces-join d (g ∷ fs) (λ e. cc) k.1)
