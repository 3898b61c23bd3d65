-- ===== src/Modules/Config/Scan.antt =====
-- What the loop of a `handle` returns.
use garcon.Prelude.{
  any, Any, here, there, ◌↔◌, refl, Bool-cases, ◌≡◌, Option, none, some, List, [], ◌∷◌, ◌++◌, All,
  Option-cases, inl, inr, true, false, Bool, ◌&&◌, not, if◌then◌else◌, arith, subst,
}
use garcon.Http.Response.{Response}
use garcon.Modules.Abi.{Reply, pass_reply, respond_reply}
use garcon.Modules.Config.{first_reply}

-- Either every step gives nothing and the reply is a pass, or it is the one of the first step that
-- gives one.
pub data IsFirst {ℓ} {A : Type ℓ} (step : A → Option Reply) : List A → Reply → Type ℓ where
  nothing : {xs : List A} → All (λ x. step x ≡ none) xs → IsFirst step xs pass_reply
  found :
      {reply : Reply} (before : List A) (x : A) (after : List A)
      → All (λ y. step y ≡ none) before
      → step x ≡ some reply
      → IsFirst step (before ++ (x ∷ after)) reply

skip {ℓ} :
    {A : Type ℓ} (step : A → Option Reply) (x : A) {xs : List A} {reply : Reply}
    → step x ≡ none
    → IsFirst step xs reply
    → IsFirst step (x ∷ xs) reply
skip step x e (nothing h) = nothing (e, h)
skip step x e (found before y after h f) = found (x ∷ before) y after (e, h) f

pub first_reply-IsFirst {ℓ} :
    {A : Type ℓ} (step : A → Option Reply) (xs : List A) → IsFirst step xs (first_reply step xs)
unfolding first_reply
first_reply-IsFirst step [] = nothing tt
first_reply-IsFirst step (x ∷ xs) = elim (Option-cases (step x)) [
  | inl e ↦ rw e (skip step x e (first_reply-IsFirst step xs))
  | inr (reply, e) ↦ rw e (found [] x xs tt e)
]

-- A loop over rules that a request has to satisfy where they apply, in the words of what it means to
-- apply, to satisfy and to be an answer to a failure.
module _ {A : Type 0} (Applies Satisfied : A → Type 0) (IsFailure : A → Response → Type 0) where
  abbrev pub Obeyed : List A → Type 0
  Obeyed rules = All (λ rule. Applies rule → Satisfied rule) rules

  -- Every rule that applies is satisfied and the reply is a pass, or it is the response of the first
  -- rule that applies and is not.
  pub data IsGuarded : List A → Reply → Type 0 where
    admitted : {rules : List A} → Obeyed rules → IsGuarded rules pass_reply
    refused :
        (before : List A) (rule : A) (after : List A) (r : Response)
        → Obeyed before
        → Applies rule
        → (Satisfied rule → ⊥)
        → IsFailure rule r
        → IsGuarded (before ++ (rule ∷ after)) (respond_reply r)

  module _ (applies satisfied : A → Bool) (answer : A → Response)
      (applies_iff : (rule : A) → (applies rule ≡ true) ↔ Applies rule)
      (satisfied_iff : (rule : A) → (satisfied rule ≡ true) ↔ Satisfied rule)
      (fails : (rule : A) → IsFailure rule (answer rule)) where
    abbrev pub guard_step : A → Option Reply
    guard_step rule =
        if applies rule && not (satisfied rule) then some (respond_reply (answer rule)) else none

    step_obeyed : (rule : A) → guard_step rule ≡ none → Applies rule → Satisfied rule
    step_obeyed rule e a =
        let t : applies rule ≡ true = (applies_iff rule).1 a in
        let s : satisfied rule ≡ true = ground arith in (satisfied_iff rule).0 s

    obeyed : (rules : List A) → All (λ rule. guard_step rule ≡ none) rules → Obeyed rules
    obeyed [] h = tt
    obeyed (rule ∷ rules) (e, h) = (step_obeyed rule e, obeyed rules h)

    pub first_IsGuarded :
        (rules : List A) {reply : Reply} → IsFirst guard_step rules reply → IsGuarded rules reply
    first_IsGuarded rules (nothing h) = admitted (obeyed rules h)
    first_IsGuarded _ (found {reply} before rule after h e) =
        let a : applies rule ≡ true = ground arith in
        let s : satisfied rule ≡ false = ground arith in
        let r : respond_reply (answer rule) ≡ reply = ground arith in
        subst (IsGuarded (before ++ (rule ∷ after))) r (
          refused before rule after (answer rule) (obeyed before h) ((applies_iff rule).0 a)
            (λ k. let t : satisfied rule ≡ true = (satisfied_iff rule).1 k in cc) (fails rule))

-- A test of the elements, in the words of what it tests.
pub any_iff :
    {A : Type 0} (test : A → Bool) (P : A → Type 0)
    → ((x : A) → (test x ≡ true) ↔ P x)
    → (xs : List A) → (any test xs ≡ true) ↔ Any P xs
any_iff {A} test P iff xs = (sound xs, complete xs)
  where
    sound : (ys : List A) → any test ys ≡ true → Any P ys
    sound [] h = absurd cc
    sound (y ∷ ys) h = elim (Bool-cases (test y)) [
      | inl e ↦ here ((iff y).0 e)
      | inr e ↦ there (sound ys (rw e at h))
    ]

    complete : (ys : List A) → Any P ys → any test ys ≡ true
    complete [] k = elim k [ ]
    complete (y ∷ ys) (here p) = rw ((iff y).1 p) refl
    complete (y ∷ ys) (there k) = elim (Bool-cases (test y)) [
      | inl e ↦ rw e refl
      | inr e ↦ rw e (complete ys k)
    ]
