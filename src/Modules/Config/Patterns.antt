-- ===== src/Modules/Config/Patterns.antt =====
-- The patterns of methods and targets.
use garcon.Prelude.{
  ◌⊎◌, inl, inr, ◌&&◌, Bool-cases, ◌≡◌, ◌↔◌, refl, ap, ◌∙◌, sym, subst, true, [], ◌∷◌, ◌++◌, arith,
  length, drop,
}
use garcon.Text.{Bytes, bytes, equal, starts_with}
use garcon.Text.Search.{equal_iff, starts_with-append, starts_with-split}
use garcon.Http.Request.{Request}
use garcon.Modules.Config.{
  method_matches, PatternKind, exact, prefix, classify_target_pattern, target_matches,
}

-- What a pattern is written for: an exact text, or a text and all that begin with it.
pub data Covers : PatternKind → Bytes → Bytes → Type 0 where
  same : (target : Bytes) → Covers exact target target
  begins : (pattern rest : Bytes) → Covers prefix pattern (pattern ++ rest)

pub target_matches_sound :
    (kind : PatternKind) (pattern actual : Bytes)
    → target_matches kind pattern actual ≡ true
    → Covers kind pattern actual
unfolding target_matches
target_matches_sound exact pattern actual h =
    subst (λ a. Covers exact pattern a) ((equal_iff pattern actual).0 h) (same pattern)
target_matches_sound prefix pattern actual h =
    subst (λ a. Covers prefix pattern a)
      (sym (starts_with-split pattern actual (unfold starts_with in h)))
      (begins pattern (drop (length pattern) actual))

pub target_matches_complete :
    (kind : PatternKind) (pattern actual : Bytes)
    → Covers kind pattern actual
    → target_matches kind pattern actual ≡ true
unfolding target_matches
target_matches_complete _ _ _ (same target) = (equal_iff target target).1 refl
target_matches_complete _ _ _ (begins pattern rest) =
    unfold starts_with in starts_with-append pattern rest

-- A target matches an exact pattern where it is that text, byte by byte, and a prefix where it begins
-- with it; nothing else is compared.
pub target_matches_iff :
    (kind : PatternKind) (pattern actual : Bytes)
    → (target_matches kind pattern actual ≡ true) ↔ Covers kind pattern actual
target_matches_iff kind pattern actual =
    (target_matches_sound kind pattern actual, target_matches_complete kind pattern actual)

-- What a rule is for: every method or this very one, and the targets of its pattern.
abbrev pub IsFor : Bytes → PatternKind → Bytes → Request → Type 0
IsFor method_pattern kind pattern request =
    ((method_pattern ≡ bytes "*") ⊎ (method_pattern ≡ request.method))
    × Covers kind pattern request.target

pub matches_sound :
    (method_pattern : Bytes) (kind : PatternKind) (pattern : Bytes) (request : Request)
    → method_matches method_pattern request.method && target_matches kind pattern request.target
      ≡ true
    → IsFor method_pattern kind pattern request
unfolding method_matches
matches_sound method_pattern kind pattern request h =
    let t : target_matches kind pattern request.target ≡ true = ground arith in
    (
      elim (Bool-cases (equal method_pattern (bytes "*"))) [
        | inl any ↦ inl ((equal_iff method_pattern (bytes "*")).0 any)
        | inr one ↦
            let e : equal method_pattern request.method ≡ true = ground arith in
            inr ((equal_iff method_pattern request.method).0 e)
      ],
      target_matches_sound kind pattern request.target t,
    )

pub matches_complete :
    (method_pattern : Bytes) (kind : PatternKind) (pattern : Bytes) (request : Request)
    → IsFor method_pattern kind pattern request
    → method_matches method_pattern request.method && target_matches kind pattern request.target
      ≡ true
unfolding method_matches
matches_complete method_pattern kind pattern request (inl e, c) =
    let any : equal method_pattern (bytes "*") ≡ true =
      (equal_iff method_pattern (bytes "*")).1 e in
    let t = target_matches_complete kind pattern request.target c in rw (any, t) refl
matches_complete method_pattern kind pattern request (inr e, c) =
    let one : equal method_pattern request.method ≡ true =
      (equal_iff method_pattern request.method).1 e in
    let t = target_matches_complete kind pattern request.target c in ground arith

pub matches_iff :
    (method_pattern : Bytes) (kind : PatternKind) (pattern : Bytes) (request : Request)
    → (method_matches method_pattern request.method && target_matches kind pattern request.target
        ≡ true)
      ↔ IsFor method_pattern kind pattern request
matches_iff method_pattern kind pattern request = (
  matches_sound method_pattern kind pattern request,
  matches_complete method_pattern kind pattern request,
)

-- A pattern written with a star at its end is the prefix before it.
pub classify_target_pattern-star :
    (text : Bytes) → classify_target_pattern (text ++ (b'*' ∷ [])) ≡ (prefix, text)
unfolding classify_target_pattern
classify_target_pattern-star [] = refl
classify_target_pattern-star (c ∷ []) = ap (λ k. (k.0, c ∷ k.1)) (classify_target_pattern-star [])
classify_target_pattern-star (c ∷ d ∷ text) =
    ap (λ k. (k.0, c ∷ k.1)) (classify_target_pattern-star (d ∷ text))

-- The text of a pattern with its star, as the configuration has it.
pub written : PatternKind × Bytes → Bytes
written (exact, text) = text
written (prefix, text) = text ++ (b'*' ∷ [])

pub written-classify_target_pattern :
    (pattern : Bytes) → written (classify_target_pattern pattern) ≡ pattern
unfolding classify_target_pattern written
written-classify_target_pattern [] = refl
written-classify_target_pattern (c ∷ []) = ground arith
written-classify_target_pattern (c ∷ d ∷ pattern) =
    push (classify_target_pattern (d ∷ pattern))
    ∙ ap (λ s. c ∷ s) (written-classify_target_pattern (d ∷ pattern))
  where
    push : (k : PatternKind × Bytes) → written (k.0, c ∷ k.1) ≡ c ∷ written k
    push (exact, text) = refl
    push (prefix, text) = refl
