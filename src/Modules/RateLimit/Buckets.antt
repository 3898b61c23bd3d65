-- ===== src/Modules/RateLimit/Buckets.antt =====
-- What a bucket lets through.
use garcon.Prelude.{
  ℕ, zero, suc, ◌≡◌, refl, ap, ◌∙◌, Bool, true, false, Option, none, some, List, [], ◌∷◌, ◌++◌, ltb,
  leb, ◌==◌, ◌≤◌, ◌<◌, arith, Result, ok, ◌>>=◌, if◌then◌else◌, Bool-cases, Option-cases, inl, inr,
  >>=-eq-ok, subst,
}
use garcon.Text.{Bytes, bytes, equal, is_digit, int_max, to_string}
use garcon.Text.Search.{equal_iff, equal_refl, all-has}
use garcon.Text.Decimal.{all-is_digit-to_string}
use garcon.Http.Header.{is_valid_header_name}
use garcon.Text.Map.{find, put, find-put}
use garcon.Http.Response.{
  Response, text, validate_header, valid_header_value, replace_first, add_header, set_header,
}
use garcon.Modules.RateLimit.{
  Doubles, Store, TokenBucket, entered, filled, refilled, consume, answer, make_rate_limit_response,
  make_state_key, check_and_consume, retry_after_of,
}
use garcon.Modules.RateLimit.Keys.{make_state_key_injective}
use garcon.Modules.RateLimit.Rules.{Rule}

not_equal : (a b : Bytes) → (a ≡ b → ⊥) → equal a b ≡ false
not_equal a b h = elim (Bool-cases (equal a b)) [
  | inl e ↦ absurd (h ((equal_iff a b).0 e))
  | inr e ↦ e
]

-- A field whose value is a number can be set.
number_set :
    (resp : Response) (name : Bytes) (n : ℕ)
    → is_valid_header_name name ≡ true
    → (r : Response) × (set_header resp name (to_string n) ≡ ok r)
unfolding set_header validate_header valid_header_value add_header
number_set resp name n h =
    let cr =
      all-has is_digit b'\r' (to_string n) (unfold is_digit in refl) (all-is_digit-to_string n) in
    let lf =
      all-has is_digit b'\n' (to_string n) (unfold is_digit in refl) (all-is_digit-to_string n) in
    elim (Option-cases (replace_first resp.headers name (to_string n))) [
      | inl e ↦ (
        record resp {
          headers = resp.headers ++ (record { name = name; value = to_string n } ∷ []);
        },
        rw (h, cr, lf, e, add_header, h, cr, lf) refl,
      )
      | inr (hs, e) ↦ (record resp { headers = hs }, rw (h, cr, lf, e) refl)
    ]

response_made :
    (limit window retry : ℕ)
    → (response : Response) × (make_rate_limit_response limit window retry ≡ ok response)
unfolding make_rate_limit_response is_valid_header_name
response_made limit window retry =
    let first = text 429 (bytes "Too Many Requests") (bytes "rate limit exceeded\n") in
    let (second, e) = number_set first (bytes "X-RateLimit-Limit") limit refl in
    let (third, f) =
      number_set second (bytes "Retry-After") (if ltb 0 retry then retry else 1) refl in
    let (fourth, g) = number_set third (bytes "X-RateLimit-Reset") window refl in
    (fourth, rw (make_rate_limit_response, e, f, g) refl)

-- The first `n` of `k` answers are yes, and the others no.
unfoldable pub granted : ℕ → ℕ → List Bool
granted zero n = []
granted (suc k) zero = false ∷ granted k 0
granted (suc k) (suc n) = true ∷ granted k n

module _ (d : Doubles) where
  answer_made :
      (r : Rule) (bucket : TokenBucket d) (allowed : Bool)
      → (response : Option Response) × (answer d r (bucket, allowed) ≡ ok response)
  answer_made r bucket true = (none, refl)
  answer_made r bucket false =
      let (response, e) =
        response_made r.limit r.window_seconds (retry_after_of d r bucket.tokens) in
      (some response, rw e refl)

  -- A request leaves the buckets of other rules and other subjects as they are.
  pub check_and_consume-other :
      (r : Rule) (i : ℕ) (subject : Bytes) (now : ℕ) (buckets after : Store d)
      (response : Option Response) (j : ℕ) (other : Bytes)
      → check_and_consume d r i subject now buckets ≡ ok (response, after)
      → (i ≡ j → subject ≡ other → ⊥)
      → find (make_state_key j other) after ≡ find (make_state_key j other) buckets
  unfolding check_and_consume
  check_and_consume-other r i subject now buckets after response j other h n =
      let key = make_state_key i subject in
      let bucket = consume d r now (entered d (find key buckets)) in
      let (made, e, h1) = >>=-eq-ok (answer d r bucket) _ h in
      let g : put key bucket.0 buckets ≡ after = cc in
      let apart : equal key (make_state_key j other) ≡ false =
        not_equal key (make_state_key j other)
          (λ same. let (ij, so) = make_state_key_injective i j subject other same in n ij so) in
      subst (λ m. find (make_state_key j other) m ≡ find (make_state_key j other) buckets) g
        (find-put key (make_state_key j other) bucket.0 buckets ∙ rw apart refl)

  module _ (still : (t : ℕ) → d.less (d.of_int 0) (d.seconds_between t t) ≡ false)
      (compared : (n : ℕ) → n ≤ int_max → d.not_below (d.of_int n) (d.of_int 1) ≡ leb 1 n)
      (decremented : (n : ℕ) → n < int_max → d.minus (d.of_int (suc n)) (d.of_int 1) ≡ d.of_int n)
      (r : Rule) (now : ℕ) (running : 0 < now) where
    abbrev holding : ℕ → TokenBucket d
    holding n = record { tokens = d.of_int n; last_refill = now }

    filled_before : (n : ℕ) → filled d r now (holding n) ≡ holding n
    unfolding filled
    filled_before n = let e : (now == 0) ≡ false = ground arith in rw e refl

    not_refilled : (n : ℕ) → refilled d r now (holding n) ≡ holding n
    unfolding refilled
    not_refilled n = rw (still now) refl

    unchanged : (n : ℕ) → refilled d r now (filled d r now (holding n)) ≡ holding n
    unchanged n = ap (refilled d r now) (filled_before n) ∙ not_refilled n

    first : refilled d r now (filled d r now (entered d none)) ≡ holding r.burst
    unfolding filled
    first = not_refilled r.burst

    fresh : consume d r now (entered d none) ≡ consume d r now (holding r.burst)
    unfolding consume
    fresh = rw (consume, first, unchanged r.burst) refl

    taken : (n : ℕ) → n < int_max → consume d r now (holding (suc n)) ≡ (holding n, true)
    unfolding consume
    taken n h =
        let some_left : leb 1 (suc n) ≡ true = ground arith in
        rw (consume, unchanged (suc n), compared (suc n) (omega arith), some_left, decremented n h)
          refl

    refused : consume d r now (holding 0) ≡ (holding 0, false)
    unfolding consume
    refused = rw (consume, unchanged 0, compared 0 (omega arith)) refl

    abbrev pub is_none : Option Response → Bool
    is_none none = true
    is_none (some response) = false

    module _ (i : ℕ) (subject : Bytes) where
      -- Which of so many requests in a row are allowed, at one tick of the clock.
      pub serve : ℕ → Store d → Result (List Bool)
      serve zero buckets = ok []
      serve (suc k) buckets = check_and_consume d r i subject now buckets >>= λ checked.
          serve k checked.1 >>= λ rest. ok (is_none checked.0 ∷ rest)

      -- The bucket is one that has this many tokens, or is filled with them.
      abbrev IsReady : Store d → ℕ → Type 0
      IsReady buckets n =
          consume d r now (entered d (find (make_state_key i subject) buckets))
          ≡ consume d r now (holding n)

      stored_IsReady :
          (buckets : Store d) (n : ℕ)
          → IsReady (put (make_state_key i subject) (holding n) buckets) n
      stored_IsReady buckets n =
          let key = make_state_key i subject in
          rw (find-put key key (holding n) buckets, equal_refl key) refl

      checked_taken :
          (buckets : Store d) (n : ℕ)
          → n < int_max
          → IsReady buckets (suc n)
          → check_and_consume d r i subject now buckets
            ≡ ok (none, put (make_state_key i subject) (holding n) buckets)
      unfolding check_and_consume
      checked_taken buckets n h e = rw (check_and_consume, e, taken n h) refl

      checked_refused :
          (buckets : Store d)
          → IsReady buckets 0
          → (response : Response) × (check_and_consume d r i subject now buckets
              ≡ ok (some response, put (make_state_key i subject) (holding 0) buckets))
      unfolding check_and_consume
      checked_refused buckets e =
          let (response, f) =
            response_made r.limit r.window_seconds (retry_after_of d r (d.of_int 0)) in
          (response, rw (check_and_consume, e, refused, f) refl)

      serve-ready :
          (k n : ℕ) (buckets : Store d)
          → n ≤ int_max
          → IsReady buckets n
          → serve k buckets ≡ ok (granted k n)
      unfolding serve granted
      serve-ready zero n buckets h e = refl
      serve-ready (suc k) zero buckets h e =
          let (response, f) = checked_refused buckets e in
          rw (f, serve-ready k 0 _ h (stored_IsReady buckets 0)) refl
      serve-ready (suc k) (suc n) buckets h e =
          rw
            (
              checked_taken buckets n (omega arith) e,
              serve-ready k n _ (omega arith) (stored_IsReady buckets n),
            )
            refl

      -- With no bucket yet for a rule and a subject, as many requests at one tick of the clock are
      -- allowed as the rule's burst says, the first ones, and all others are refused; where the
      -- clock is past its epoch, no time lies between a tick and itself, and a `double` counts
      -- down to 0 in steps of 1 from any `int`.
      pub serve-granted :
          (k : ℕ) (buckets : Store d)
          → r.burst ≤ int_max
          → find (make_state_key i subject) buckets ≡ none
          → serve k buckets ≡ ok (granted k r.burst)
      serve-granted k buckets h e = serve-ready k r.burst buckets h (rw e fresh)
