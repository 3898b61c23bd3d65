-- ===== src/Text/Trim.antt =====
-- What trimming leaves.
use garcon.Prelude.{
  ℕ, not, ◌≡◌, refl, ap, ◌∙◌, Bool, true, false, ◌&&◌, [], ◌∷◌, ◌++◌, is_empty, all, arith,
}
use garcon.Text.{Bytes, trim_by, drop_begin, drop_end}

-- Neither the first nor the last byte is one that the trimming removes.
abbrev pub StartsTrimmed : (ℕ → Bool) → Bytes → Type 0
StartsTrimmed p [] = Unit
StartsTrimmed p (c ∷ cs) = p c ≡ false

abbrev pub EndsTrimmed : (ℕ → Bool) → Bytes → Type 0
EndsTrimmed p [] = Unit
EndsTrimmed p (c ∷ []) = p c ≡ false
EndsTrimmed p (c ∷ d ∷ cs) = EndsTrimmed p (d ∷ cs)

abbrev pub IsTrimmed : (ℕ → Bool) → Bytes → Type 0
IsTrimmed p s = StartsTrimmed p s × EndsTrimmed p s

drop_begin-StartsTrimmed : (p : ℕ → Bool) (s : Bytes) → StartsTrimmed p (drop_begin p s)
unfolding drop_begin
drop_begin-StartsTrimmed p [] = tt
drop_begin-StartsTrimmed p (c ∷ cs) = ground (arith, drop_begin-StartsTrimmed p cs)

pub EndsTrimmed-cons :
    (p : ℕ → Bool) (c : ℕ) (s : Bytes)
    → EndsTrimmed p s
    → (p c && is_empty s) ≡ false
    → EndsTrimmed p (c ∷ s)
EndsTrimmed-cons p c [] h k = ground arith
EndsTrimmed-cons p c (d ∷ s) h k = h

drop_end-EndsTrimmed : (p : ℕ → Bool) (s : Bytes) → EndsTrimmed p (drop_end p s)
unfolding drop_end
drop_end-EndsTrimmed p [] = tt
drop_end-EndsTrimmed p (c ∷ cs) = ground (
  arith,
  drop_end-EndsTrimmed p cs,
  EndsTrimmed-cons p c (drop_end p cs) (drop_end-EndsTrimmed p cs),
)

drop_end-StartsTrimmed :
    (p : ℕ → Bool) (s : Bytes) → StartsTrimmed p s → StartsTrimmed p (drop_end p s)
unfolding drop_end
drop_end-StartsTrimmed p [] h = tt
drop_end-StartsTrimmed p (c ∷ cs) h = ground arith

pub trim_by-IsTrimmed : (p : ℕ → Bool) (s : Bytes) → IsTrimmed p (trim_by p s)
unfolding trim_by
trim_by-IsTrimmed p s = (
  drop_end-StartsTrimmed p (drop_begin p s) (drop_begin-StartsTrimmed p s),
  drop_end-EndsTrimmed p (drop_begin p s),
)

drop_begin_eq : (p : ℕ → Bool) (s : Bytes) → StartsTrimmed p s → drop_begin p s ≡ s
unfolding drop_begin
drop_begin_eq p [] h = refl
drop_begin_eq p (c ∷ cs) h = ground arith

drop_end_eq : (p : ℕ → Bool) (s : Bytes) → EndsTrimmed p s → drop_end p s ≡ s
unfolding drop_end
drop_end_eq p [] h = refl
drop_end_eq p (c ∷ []) h = ground arith
drop_end_eq p (c ∷ d ∷ cs) h = ground (arith, drop_end_eq p (d ∷ cs) h)

-- A trimmed text stays as it is.
pub trim_by_eq : (p : ℕ → Bool) (s : Bytes) → IsTrimmed p s → trim_by p s ≡ s
unfolding trim_by
trim_by_eq p s h = ap (drop_end p) (drop_begin_eq p s h.0) ∙ drop_end_eq p s h.1

drop_begin-append :
    (p : ℕ → Bool) (a s : Bytes) → all p a ≡ true → drop_begin p (a ++ s) ≡ drop_begin p s
unfolding drop_begin
drop_begin-append p [] s h = refl
drop_begin-append p (c ∷ a) s h = ground (arith, drop_begin-append p a s)

drop_begin-all : (p : ℕ → Bool) (s : Bytes) → all p s ≡ true → drop_begin p s ≡ []
unfolding drop_begin
drop_begin-all p [] h = refl
drop_begin-all p (c ∷ s) h = ground (arith, drop_begin-all p s)

drop_end-all : (p : ℕ → Bool) (s : Bytes) → all p s ≡ true → drop_end p s ≡ []
unfolding drop_end
drop_end-all p [] h = refl
drop_end-all p (c ∷ s) h = ground (arith, drop_end-all p s)

drop_end-append : (p : ℕ → Bool) (s b : Bytes) → all p b ≡ true → drop_end p (s ++ b) ≡ drop_end p s
unfolding drop_end
drop_end-append p [] b h = drop_end-all p b h
drop_end-append p (c ∷ s) b h = ground (arith, drop_end-append p s b h)

trim_by-append :
    (p : ℕ → Bool) (s b : Bytes) → IsTrimmed p s → all p b ≡ true → trim_by p (s ++ b) ≡ s
unfolding trim_by
trim_by-append p [] b h k = rw (drop_begin-all p b k) refl
trim_by-append p (c ∷ s) b h k =
    ap (drop_end p) (drop_begin_eq p (c ∷ s ++ b) h.0)
    ∙ drop_end-append p (c ∷ s) b k
    ∙ drop_end_eq p (c ∷ s) h.1

-- Trimming removes what surrounds a trimmed text, and nothing else.
pub trim_by-surrounded :
    (p : ℕ → Bool) (a s b : Bytes)
    → all p a ≡ true
    → IsTrimmed p s
    → all p b ≡ true
    → trim_by p (a ++ (s ++ b)) ≡ s
unfolding trim_by
trim_by-surrounded p a s b h t k =
    ap (drop_end p) (drop_begin-append p a (s ++ b) h) ∙ trim_by-append p s b t k

pub trim_by_idempotent : (p : ℕ → Bool) (s : Bytes) → trim_by p (trim_by p s) ≡ trim_by p s
trim_by_idempotent p s = trim_by_eq p (trim_by p s) (trim_by-IsTrimmed p s)

EndsTrimmed-all : (p : ℕ → Bool) (s : Bytes) → all (λ c. not (p c)) s ≡ true → EndsTrimmed p s
EndsTrimmed-all p [] h = tt
EndsTrimmed-all p (c ∷ []) h = ground arith
EndsTrimmed-all p (c ∷ d ∷ s) h = EndsTrimmed-all p (d ∷ s) (ground arith)

-- A text without any byte that the trimming removes.
pub all-IsTrimmed : (p : ℕ → Bool) (s : Bytes) → all (λ c. not (p c)) s ≡ true → IsTrimmed p s
all-IsTrimmed p [] h = (tt, tt)
all-IsTrimmed p (c ∷ s) h = (ground arith, EndsTrimmed-all p (c ∷ s) h)
