-- ===== src/Modules/HostGuard/Hosts.antt =====
-- Which hosts a pattern of the host guard allows.
use garcon.Prelude.{
  ℕ, ◌≡◌, ◌≢◌, ◌↔◌, ◌<◌, ◌-◌, refl, ap, sym, ◌∙◌, true, false, not, some, [], ◌∷◌, ◌++◌, length,
  length-append, drop, ltb, all, is_empty, subst, arith, Bool-cases, take, length-take, ltb→lt,
  lt→ltb, all-append, ◌==◌, inl, inr,
}
use garcon.Text.{Bytes, bytes, equal, has, cut_at, trim, is_digit, is_space, ascii_lowercase}
use garcon.Text.Search.{equal_iff, take-drop, drop-length-append, cut_at-append, all-has}
use garcon.Text.Trim.{StartsTrimmed, EndsTrimmed, trim_by_eq}
use garcon.Modules.HostGuard.{suffix_host, host_matches, normalize_host_header}

pub nonempty : (s : Bytes) → s ≢ [] → is_empty s ≡ false
nonempty [] h = absurd (h refl)
nonempty (c ∷ s) h = refl

drop-length-suffix : (a b : Bytes) → drop (length (a ++ b) - length b) (a ++ b) ≡ b
drop-length-suffix a b =
    let e : length (a ++ b) - length b ≡ length a = omega (arith, length-append a b) in
    rw e (drop-length-append a b)

suffix_sound :
    (value actual : Bytes)
    → host_matches (record { kind = suffix_host; value = value }) actual ≡ true
    → (front : Bytes) × (front ≢ []) × (actual ≡ front ++ value)
unfolding host_matches
suffix_sound value actual h = elim (Bool-cases (ltb (length value) (length actual))) [
  | inl l ↦
      let n = length actual - length value in
      let k : equal (drop (length actual - length value) actual) value ≡ true = rw l at h in
      let e : drop (length actual - length value) actual ≡ value = (equal_iff _ _).0 k in
      let split = take-drop (length actual - length value) actual in
      let lt : length value < length actual = ltb→lt _ _ l in
      (
        take (length actual - length value) actual,
        (λ q.
            let t : length (take (length actual - length value) actual) ≡ 0 = ap length q in
            absurd (omega (arith, t, lt, length-take (length actual - length value) actual))),
        split ∙ ap (λ x. take (length actual - length value) actual ++ x) e,
      )
  | inr l ↦ absurd (let k : false ≡ true = rw l at h in cc)
]

suffix_complete :
    (value front : Bytes)
    → front ≢ []
    → host_matches (record { kind = suffix_host; value = value }) (front ++ value) ≡ true
unfolding host_matches
suffix_complete value [] n = absurd (n refl)
suffix_complete value (c ∷ front) n =
    let l : length value < length ((c ∷ front) ++ value) =
      omega (arith, length-append (c ∷ front) value) in
    rw (lt→ltb _ _ l, drop-length-suffix (c ∷ front) value) ((equal_iff value value).1 refl)

-- A suffix pattern allows the hosts that have at least one byte in front of it.
pub host_matches-suffix :
    (value actual : Bytes)
    → (host_matches (record { kind = suffix_host; value = value }) actual ≡ true)
      ↔ ((front : Bytes) × (front ≢ []) × (actual ≡ front ++ value))
unfolding host_matches
host_matches-suffix value actual = (
  suffix_sound value actual,
  λ (front, n, e).
      subst (λ a. host_matches (record { kind = suffix_host; value = value }) a ≡ true) (sym e)
        (suffix_complete value front n),
)

all-StartsTrimmed : (s : Bytes) → all (λ b. not (is_space b)) s ≡ true → StartsTrimmed is_space s
all-StartsTrimmed [] h = tt
all-StartsTrimmed (c ∷ s) h = ground arith

all-EndsTrimmed : (s : Bytes) → all (λ b. not (is_space b)) s ≡ true → EndsTrimmed is_space s
all-EndsTrimmed [] h = tt
all-EndsTrimmed (c ∷ []) h = ground arith
all-EndsTrimmed (c ∷ d ∷ s) h = all-EndsTrimmed (d ∷ s) (ground arith)

-- A text without white space is trimmed.
trim_eq : (s : Bytes) → all (λ b. not (is_space b)) s ≡ true → trim s ≡ s
unfolding trim
trim_eq s h = trim_by_eq is_space s (all-StartsTrimmed s h, all-EndsTrimmed s h)

all-is_digit-not_space : (s : Bytes) → all is_digit s ≡ true → all (λ b. not (is_space b)) s ≡ true
unfolding is_digit is_space
all-is_digit-not_space [] h = refl
all-is_digit-not_space (c ∷ s) h = ground (arith, all-is_digit-not_space s)

-- The port of a host is not compared: a name without white space and without a colon, which does not
-- begin with a bracket, then a colon and one digit or more, are read as the name in lower case.
pub normalize_host_header-port :
    (c : ℕ) (name port : Bytes)
    → all (λ b. not (is_space b)) (c ∷ name) ≡ true
    → has b':' (c ∷ name) ≡ false
    → c ≢ b'['
    → port ≢ []
    → all is_digit port ≡ true
    → normalize_host_header ((c ∷ name) ++ (b':' ∷ port)) ≡ ascii_lowercase (c ∷ name)
unfolding normalize_host_header
normalize_host_header-port c name port s h b n d =
    let colon : not (is_space b':') ≡ true = unfold is_space in refl in
    let t : trim ((c ∷ name) ++ (b':' ∷ port)) ≡ (c ∷ name) ++ (b':' ∷ port) =
      trim_eq ((c ∷ name) ++ (b':' ∷ port)) (
        all-append (λ b. not (is_space b)) (c ∷ name) (b':' ∷ port)
        ∙ rw (s, colon) (all-is_digit-not_space port d)) in
    let e : cut_at (bytes ":") ((c ∷ name) ++ (b':' ∷ port)) ≡ some (c ∷ name, port) =
      cut_at-append b':' [] (c ∷ name) port h in
    let k : has b':' port ≡ false = all-has is_digit b':' port (unfold is_digit in refl) d in
    let m : is_empty port ≡ false = nonempty port n in
    let f : (c == b'[') ≡ false = ground arith in rw (t, f, e, k, m, d) refl
