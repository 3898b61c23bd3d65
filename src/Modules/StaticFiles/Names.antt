-- ===== src/Modules/StaticFiles/Names.antt =====
-- Where the paths of targets lead.
use mathlib.Core.Option
use garcon.Prelude.{
  ◌≡◌, ◌≢◌, refl, ap, sym, true, false, ◌||◌, Bool-cases, inl, inr, Option, none, some, List, [],
  ◌∷◌, ◌++◌, All, subst, arith, is_empty, ◌==◌,
}
use garcon.Text.{Bytes, bytes, equal, has, pieces, cut_at}
use garcon.Text.Fields.{NoDelimiter, pieces-NoDelimiter}
use garcon.Text.Search.{equal_iff}
use garcon.Modules.StaticFiles.{
  FilePath, map_to_relative_path, is_within_root, relative_of, with_component, below_slash,
  before_query,
}

-- A name that stays in its directory.
abbrev pub IsName : Bytes → Type 0
IsName segment =
    (segment ≢ [])
    × (segment ≢ bytes ".")
    × (segment ≢ bytes "..")
    × (has 0 segment ≡ false)
    × (has b'/' segment ≡ false)

pub nonempty : (s : FilePath) → s ≢ [] → is_empty s ≡ false
nonempty [] h = absurd (h refl)
nonempty (c ∷ s) h = refl

pub apart : (a b : Bytes) → a ≡ b → equal a b ≡ false → ⊥
apart a b q h = let e : equal a b ≡ true = (equal_iff a b).1 q in absurd cc

mapped :
    {segment : Bytes} (o : Option FilePath) {path : FilePath}
    → Option.map (λ p. segment ∷ p) o ≡ some path
    → (rest : FilePath) × (o ≡ some rest) × ((segment ∷ rest) ≡ path)
mapped none h = absurd cc
mapped (some rest) h = (rest, refl, cc)

relative_of-IsName :
    (segments : List Bytes) (path : FilePath)
    → NoDelimiter b'/' segments
    → relative_of segments ≡ some path
    → All IsName path
unfolding relative_of
relative_of-IsName [] path n h = let e : [] ≡ path = ground arith in subst (All IsName) e tt
relative_of-IsName (segment ∷ segments) path (s, n) h = elim (Bool-cases (is_empty segment)) [
  | inl e ↦ relative_of-IsName segments path n (rw e at h)
  | inr e ↦
      elim (Bool-cases
        (equal segment (bytes ".") || (equal segment (bytes "..") || has 0 segment))) [
          | inl b ↦ absurd (let k : none ≡ some path = rw (e, b) at h in cc)
          | inr b ↦
              let k : Option.map (λ p. segment ∷ p) (relative_of segments) ≡ some path =
                rw (e, b) at h in
              let (rest, f, g) = mapped (relative_of segments) k in
              subst (All IsName) g (
                (
                  (λ q. ground (arith, ap is_empty q)),
                  (λ q. apart segment (bytes ".") q (ground arith)),
                  (λ q. apart segment (bytes "..") q (ground arith)),
                  ground arith,
                  s,
                ),
                relative_of-IsName segments rest n f,
              )
        ]
]

-- Under a root: the root's elements come first.
pub IsUnder : FilePath → FilePath → Type 0
IsUnder root path = (below : FilePath) × (path ≡ root ++ below)

pub is_within_root-IsUnder :
    (root candidate : FilePath) → is_within_root root candidate ≡ true → IsUnder root candidate
unfolding is_within_root IsUnder
is_within_root-IsUnder [] candidate h = (candidate, refl)
is_within_root-IsUnder (r ∷ root) [] h = absurd cc
is_within_root-IsUnder (r ∷ root) (c ∷ candidate) h =
    let e : r ≡ c = (equal_iff r c).0 (ground arith) in
    let (below, f) = is_within_root-IsUnder root candidate (ground arith) in
    (below, rw (sym e, f) refl)

with_component_eq :
    (o : Option FilePath) {path : FilePath}
    → with_component o ≡ some path
    → (o ≡ some path) × (path ≢ [])
with_component_eq none h = absurd cc
with_component_eq (some []) h = absurd cc
with_component_eq (some (c ∷ p)) h = (h, λ q. ground arith)

pieces-IsName :
    (s : Bytes) {path : FilePath}
    → with_component (relative_of (pieces b'/' s)) ≡ some path
    → All IsName path
pieces-IsName s {path} h =
    let (e, n) = with_component_eq (relative_of (pieces b'/' s)) h in
    relative_of-IsName (pieces b'/' s) path (pieces-NoDelimiter b'/' s) e

below_slash-IsName :
    (target : Bytes) (path : FilePath) → below_slash target ≡ some path → All IsName path
below_slash-IsName [] path h = absurd cc
below_slash-IsName (c ∷ []) path h = elim (Bool-cases (c == b'/')) [
  | inl e ↦ pieces-IsName (bytes "index.html") (rw e at h)
  | inr e ↦ absurd (let k : none ≡ some path = rw e at h in cc)
]
below_slash-IsName (c ∷ d ∷ rest) path h = elim (Bool-cases (c == b'/')) [
  | inl e ↦ pieces-IsName (d ∷ rest) (rw e at h)
  | inr e ↦ absurd (let k : none ≡ some path = rw e at h in cc)
]

-- No element of a relative path is empty, a dot, two dots, or has a zero byte or a slash in it.
pub map_to_relative_path-IsName :
    (target : Bytes) (path : FilePath) → map_to_relative_path target ≡ some path → All IsName path
unfolding map_to_relative_path
map_to_relative_path-IsName target path h =
    below_slash-IsName (before_query target (cut_at (bytes "?") target)) path h
