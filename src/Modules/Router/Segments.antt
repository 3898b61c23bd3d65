-- ===== src/Modules/Router/Segments.antt =====
-- What path parameters capture.
use garcon.Prelude.{
  ℕ, zero, suc, ◌≡◌, ◌≢◌, refl, ap, sym, ◌∙◌, subst, false, Bool-cases, inl, inr, Option, none,
  some, List, [], ◌∷◌, ◌++◌, length, drop, arith, ◌==◌, is_empty, ==_iff,
}
use garcon.Text.{Bytes, bytes, has, cut_at}
use garcon.Text.Search.{cut_at-eq-some, cut_at-has}
use garcon.Modules.Router.{CapturedParam, match_from, segment, push_capture}

-- A value ends where the path does or at a slash.
abbrev pub EndsSegment : Bytes → Type 0
EndsSegment [] = Unit
EndsSegment (c ∷ cs) = c ≡ b'/'

-- The path is the pattern with a value in the place of each parameter, and the rest behind it: a
-- value is as long as it can be without a slash.
pub data Fits : Bytes → List CapturedParam → Bytes → Bytes → Type 0 where
  finished : (rest : Bytes) → Fits [] [] rest rest
  literal :
      (c : ℕ) {pattern : Bytes} {caps : List CapturedParam} {path rest : Bytes}
      → c ≢ b'{'
      → Fits pattern caps path rest
      → Fits (c ∷ pattern) caps (c ∷ path) rest
  param :
      (name value : Bytes) {pattern : Bytes} {caps : List CapturedParam} {path rest : Bytes}
      → name ≢ []
      → has b'}' name ≡ false
      → has b'/' value ≡ false
      → EndsSegment path
      → Fits pattern caps path rest
      → Fits
          (b'{' ∷ (name ++ (b'}' ∷ pattern)))
          (record { name = name; value = value } ∷ caps)
          (value ++ path)
          rest

segment-split : (path : Bytes) → path ≡ (segment path).0 ++ (segment path).1
unfolding segment
segment-split [] = refl
segment-split (c ∷ cs) = ground (arith, segment-split cs)

segment-has : (path : Bytes) → has b'/' (segment path).0 ≡ false
unfolding segment has
segment-has [] = refl
segment-has (c ∷ cs) = ground (arith, segment-has cs)

segment-EndsSegment : (path : Bytes) → EndsSegment (segment path).1
unfolding segment
segment-EndsSegment [] = tt
segment-EndsSegment (c ∷ cs) = ground (arith, segment-EndsSegment cs)

pub segment_eq :
    (value path : Bytes)
    → has b'/' value ≡ false
    → EndsSegment path
    → segment (value ++ path) ≡ (value, path)
unfolding segment has
segment_eq [] [] v h = refl
segment_eq [] (c ∷ cs) v h = ground arith
segment_eq (c ∷ value) path v h =
    let k : has b'/' value ≡ false = ground arith in
    let e = segment_eq value path k h in ground arith

pub match_from-drop :
    (n : ℕ) (pattern path : Bytes) → match_from n pattern path ≡ match_from 0 (drop n pattern) path
unfolding match_from
match_from-drop zero pattern path = refl
match_from-drop (suc n) [] path = refl
match_from-drop (suc n) (c ∷ pattern) path = match_from-drop n pattern path

abbrev pub caught : List CapturedParam → Bytes → Option (List CapturedParam × Bytes)
caught caps rest = some (caps, rest)

pub pick : Option (List CapturedParam × Bytes) → List CapturedParam × Bytes
pick none = ([], [])
pick (some x) = x

pub Fits-eq :
    {pattern path : Bytes} {caps caps' : List CapturedParam} {rest rest' : Bytes}
    → Fits pattern caps path rest
    → caught caps rest ≡ caught caps' rest'
    → Fits pattern caps' path rest'
unfolding pick
Fits-eq {pattern} {path} f e = subst (λ x. Fits pattern x.0 path x.1) (ap pick e) f

pub pushed_eq :
    (name value : Bytes) (o : Option (List CapturedParam × Bytes)) {caps : List CapturedParam}
    {rest : Bytes}
    → push_capture name value o ≡ some (caps, rest)
    → (caps' : List CapturedParam) × (o ≡ some (caps', rest))
      × ((record { name = name; value = value } ∷ caps') ≡ caps)
pushed_eq name value none h = absurd cc
pushed_eq name value (some (caps', rest')) h = (caps', cc, cc)

pub at_literal :
    (c : ℕ) (pattern path : Bytes) (caps : List CapturedParam) (rest : Bytes)
    → (c == b'{') ≡ false
    → match_from 0 (c ∷ pattern) path ≡ some (caps, rest)
    → ((ts : Bytes) → match_from 0 pattern ts ≡ some (caps, rest) → Fits pattern caps ts rest)
    → Fits (c ∷ pattern) caps path rest
unfolding match_from
at_literal c pattern [] caps rest o h later =
    absurd (let k : none ≡ caught caps rest = rw (o, match_from) at h in cc)
at_literal c pattern (t ∷ ts) caps rest o h later = elim (Bool-cases (c == t)) [
  | inl e ↦
      let k : match_from 0 pattern ts ≡ caught caps rest = rw (o, e, match_from) at h in
      let s : c ≡ t = (==_iff c t).0 e in
      subst (λ x. Fits (c ∷ pattern) caps (x ∷ ts) rest) s
        (literal c (λ q. ground arith) (later ts k))
  | inr e ↦ absurd (let k : none ≡ caught caps rest = rw (o, e, match_from) at h in cc)
]

pub drop-name : (name after : Bytes) → drop (suc (length name)) (name ++ (b'}' ∷ after)) ≡ after
drop-name [] after = refl
drop-name (c ∷ name) after = drop-name name after

pub param-Fits :
    (name after pattern path : Bytes) {caps : List CapturedParam} (rest : Bytes)
    → is_empty name ≡ false
    → cut_at (bytes "}") pattern ≡ some (name, after)
    → Fits (drop (suc (length name)) pattern) caps (segment path).1 rest
    → Fits (b'{' ∷ pattern) (record { name = name; value = (segment path).0 } ∷ caps) path rest
param-Fits name after pattern path {caps} rest m e f =
    let split : pattern ≡ name ++ (b'}' ∷ after) =
      cut_at-eq-some (bytes "}") pattern name after e in
    let f' : Fits after caps (segment path).1 rest =
      subst (λ x. Fits x caps (segment path).1 rest)
        (ap (drop (suc (length name))) split ∙ drop-name name after) f in
    let filled : Fits (b'{' ∷ (name ++ (b'}' ∷ after)))
        (record { name = name; value = (segment path).0 } ∷ caps)
        ((segment path).0 ++ (segment path).1) rest =
      param name (segment path).0 (λ q. ground arith) (cut_at-has b'}' pattern name after e)
        (segment-has path) (segment-EndsSegment path) f' in
    subst (λ x. Fits (b'{' ∷ x) (record { name = name; value = (segment path).0 } ∷ caps) path rest)
      (sym split)
      (subst
        (λ x.
          Fits (b'{' ∷ (name ++ (b'}' ∷ after)))
            (record { name = name; value = (segment path).0 } ∷ caps) x rest)
        (sym (segment-split path)) filled)
