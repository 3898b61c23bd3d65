-- ===== src/Modules/Router/Fits.antt =====
-- What a pattern with parameters matches.
use garcon.Prelude.{
  ℕ, zero, suc, ◌≡◌, ◌≢◌, ◌↔◌, refl, ap, sym, ◌∙◌, subst, true, false, Bool-cases, inl, inr, Option,
  none, some, List, [], ◌∷◌, ◌++◌, length, drop, arith, ◌==◌, is_empty, Option-cases, ==_iff,
}
use garcon.Text.{Bytes, bytes, has, cut_at}
use garcon.Text.Search.{cut_at-append}
use garcon.Modules.Config.{PatternKind, exact, prefix}
use garcon.Modules.Router.{
  CapturedParam, match_from, segment, push_capture, at_end, match_target, extract_path,
}
use garcon.Modules.Router.Segments.{
  EndsSegment, Fits, segment_eq, match_from-drop, caught, Fits-eq, pushed_eq, at_literal, drop-name,
  param-Fits, finished, literal, param,
}

match_from_sound :
    (n : ℕ) (pattern path : Bytes) (caps : List CapturedParam) (rest : Bytes)
    → match_from n pattern path ≡ some (caps, rest)
    → Fits (drop n pattern) caps path rest
unfolding match_from
match_from_sound zero [] path caps rest h = Fits-eq (finished path) h
match_from_sound (suc n) [] path caps rest h = Fits-eq (finished path) h
match_from_sound (suc n) (c ∷ pattern) path caps rest h =
    match_from_sound n pattern path caps rest h
match_from_sound zero (c ∷ pattern) path caps rest h = elim (Bool-cases (c == b'{')) [
  | inl o ↦ elim (Option-cases (cut_at (bytes "}") pattern)) [
    | inl e ↦ absurd (let k : none ≡ caught caps rest = rw (o, e, match_from) at h in cc)
    | inr ((name, after), e) ↦ elim (Bool-cases (is_empty name)) [
      | inl m ↦ absurd (let k : none ≡ caught caps rest = rw (o, e, m, match_from) at h in cc)
      | inr m ↦
          let k : push_capture name (segment path).0
                (match_from (suc (length name)) pattern (segment path).1)
              ≡ caught caps rest =
            rw (o, e, m, match_from) at h in
          let (caps', f, g) = pushed_eq name (segment path).0 _ k in
          let r = match_from_sound (suc (length name)) pattern (segment path).1 caps' rest f in
          subst (λ x. Fits x caps path rest)
            (let t : b'{' ≡ c = sym ((==_iff c b'{').0 o) in ap (λ x. x ∷ pattern) t)
            (subst (λ x. Fits (b'{' ∷ pattern) x path rest) g
              (param-Fits name after pattern path rest m e r))
    ]
  ]
  | inr o ↦
      at_literal c pattern path caps rest o h (λ ts k. match_from_sound zero pattern ts caps rest k)
]

nonempty : (s : Bytes) → s ≢ [] → is_empty s ≡ false
nonempty [] h = absurd (h refl)
nonempty (c ∷ s) h = refl

at_param :
    (name value pattern path : Bytes) (caps : List CapturedParam) (rest : Bytes)
    → name ≢ []
    → has b'}' name ≡ false
    → has b'/' value ≡ false
    → EndsSegment path
    → match_from 0 pattern path ≡ some (caps, rest)
    → match_from 0 (b'{' ∷ (name ++ (b'}' ∷ pattern))) (value ++ path)
      ≡ some (record { name = name; value = value } ∷ caps, rest)
unfolding match_from
at_param name value pattern path caps rest m n v t h =
    let c : cut_at (bytes "}") (name ++ (b'}' ∷ pattern)) ≡ some (name, pattern) =
      cut_at-append b'}' [] name pattern n in
    let s = segment_eq value path v t in
    let f : match_from (suc (length name)) (name ++ (b'}' ∷ pattern)) path ≡ some (caps, rest) =
      match_from-drop (suc (length name)) (name ++ (b'}' ∷ pattern)) path
      ∙ ap (λ x. match_from 0 x path) (drop-name name pattern)
      ∙ h in
    rw (c, nonempty name m, s, f, match_from) refl

match_from_complete :
    {pattern path : Bytes} {caps : List CapturedParam} {rest : Bytes}
    → Fits pattern caps path rest
    → match_from 0 pattern path ≡ some (caps, rest)
unfolding match_from
match_from_complete (finished rest) = refl
match_from_complete (literal c {pattern} {caps} {path} {rest} q f) =
    let o : (c == b'{') ≡ false = ground arith in
    let r : (c == c) ≡ true = ground arith in rw (o, r, match_from) (match_from_complete f)
match_from_complete (param name value {pattern} {caps} {path} {rest} m n v t f) =
    at_param name value pattern path caps rest m n v t (match_from_complete f)

-- The loop returns captures and what is left of the path for a pattern that fits the path, and
-- nothing else.
pub match_from_iff :
    (pattern path : Bytes) (caps : List CapturedParam) (rest : Bytes)
    → (match_from 0 pattern path ≡ some (caps, rest)) ↔ Fits pattern caps path rest
match_from_iff pattern path caps rest =
    (match_from_sound 0 pattern path caps rest, match_from_complete)

-- An exact pattern covers the whole path, and a prefix leaves any rest.
abbrev pub AllowsRest : PatternKind → Bytes → Type 0
AllowsRest exact rest = rest ≡ []
AllowsRest prefix rest = Unit

at_end_sound :
    (kind : PatternKind) (o : Option (List CapturedParam × Bytes)) (caps : List CapturedParam)
    → at_end kind o ≡ some caps
    → (rest : Bytes) × (o ≡ some (caps, rest)) × AllowsRest kind rest
at_end_sound kind none caps h = absurd cc
at_end_sound prefix (some (caps', rest)) caps h = (rest, ground arith, tt)
at_end_sound exact (some (caps', [])) caps h = ([], ground arith, refl)
at_end_sound exact (some (caps', c ∷ rest)) caps h = absurd cc

at_end_complete :
    (kind : PatternKind) (caps : List CapturedParam) (rest : Bytes)
    → AllowsRest kind rest
    → at_end kind (some (caps, rest)) ≡ some caps
at_end_complete prefix caps rest a = refl
at_end_complete exact caps rest a = rw a refl

-- A route's target matches with these captures exactly where the path of the request's target, up to
-- its question mark, is the pattern with the captured values in the places of its parameters, each
-- value as long as it can be without a slash, and what is left of the path is nothing but for a prefix.
pub match_target_iff :
    (kind : PatternKind) (pattern target : Bytes) (caps : List CapturedParam)
    → (match_target kind pattern target ≡ some caps)
      ↔ ((rest : Bytes) × Fits pattern caps (extract_path target) rest × AllowsRest kind rest)
unfolding match_target
match_target_iff kind pattern target caps = (
  (λ h.
      let (rest, e, a) = at_end_sound kind (match_from 0 pattern (extract_path target)) caps h in
      (rest, (match_from_iff pattern (extract_path target) caps rest).0 e, a)),
  (λ (rest, f, a).
      ap (at_end kind) ((match_from_iff pattern (extract_path target) caps rest).1 f)
      ∙ at_end_complete kind caps rest a),
)
