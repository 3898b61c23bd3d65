-- ===== src/Http/Response/Fields.antt =====
-- Adding and replacing the fields of a response.
use garcon.Prelude.{
  ◌≡◌, refl, ap, sym, ◌∙◌, inl, inr, true, false, not, none, some, List, [], ◌∷◌, ◌++◌, arith,
  Bool-cases, Option-cases, ok, throw_if, >>=-eq-ok, throw_if-eq-ok, subst,
}
use garcon.Text.{Bytes}
use garcon.Http.Header.{HeaderField, header_name_equals, header_value, is_valid_header_name}
use garcon.Http.Response.{
  Response, valid_header_value, validate_header, add_header, replace_first, set_header,
}
use garcon.Http.Response.Lookup.{
  header_value-append_none, header_value-append_other, replace_first-none,
  replace_first-header_value, replace_first-other, SetIn, SetIn-cons, replace_first-none-All,
  replaced, appended,
}

replace_first-SetIn :
    (hs : List HeaderField) (name value : Bytes) (hs' : List HeaderField)
    → replace_first hs name value ≡ some hs'
    → SetIn name value hs hs'
unfolding replace_first
replace_first-SetIn [] name value hs' e = absurd cc
replace_first-SetIn (h ∷ hs) name value hs' e = elim (Bool-cases (header_name_equals h.name name)) [
  | inl same ↦
      let k : some (record h { value = value } ∷ hs) ≡ some hs' = rw same at e in
      let g : record h { value = value } ∷ hs ≡ hs' = cc in
      subst (SetIn name value (h ∷ hs)) g (replaced [] h hs tt same)
  | inr other ↦ elim (Option-cases (replace_first hs name value)) [
    | inl missing ↦ absurd (let k : none ≡ some hs' = rw (other, missing) at e in cc)
    | inr (t, found) ↦
        let k : some (h ∷ t) ≡ some hs' = rw (other, found) at e in
        let g : h ∷ t ≡ hs' = cc in
        subst (SetIn name value (h ∷ hs)) g
          (SetIn-cons name value h other (replace_first-SetIn hs name value t found))
  ]
]

-- What setting a field leaves: the name has the value, every other name has what it had, and the
-- rest of the response stays.
pub record Sets (resp : Response) (name value : Bytes) (resp' : Response) : Type 0 where
  pub value_set : header_value resp'.headers name ≡ some value
  pub others_kept :
      (other : Bytes)
      → header_name_equals name other ≡ false
      → header_value resp'.headers other ≡ header_value resp.headers other
  pub fields_set : SetIn name value resp.headers resp'.headers
  pub rest_kept : record resp' { headers = resp.headers } ≡ resp

add_header-eq-ok :
    (resp : Response) (name value : Bytes)
    → is_valid_header_name name ≡ true
    → valid_header_value value ≡ true
    → add_header resp name value
      ≡ ok (record resp { headers = resp.headers ++ (record { name = name; value = value } ∷ []) })
unfolding add_header validate_header
add_header-eq-ok resp name value n v = rw (n, v)

-- For a valid name and value `set_header` returns. Afterwards the value of the first field of this
-- name, in any case, is the new one, or a field was added at the end where there was none; every
-- other field is as it was and where it was, so that every other name has the value that it had; and
-- the rest of the response stays.
pub set_header-Sets :
    (resp : Response) (name value : Bytes)
    → is_valid_header_name name ≡ true
    → valid_header_value value ≡ true
    → (resp' : Response) × (set_header resp name value ≡ ok resp') × Sets resp name value resp'
unfolding set_header validate_header
set_header-Sets resp name value n v = elim (Option-cases (replace_first resp.headers name value)) [
  | inl missing ↦
      let added = resp.headers ++ (record { name = name; value = value } ∷ []) in
      (
        record resp { headers = added },
        rw (n, v, missing) (add_header-eq-ok resp name value n v),
        record {
          value_set =
              header_value-append_none resp.headers name value
                (replace_first-none resp.headers name value missing);
          others_kept = λ other a. header_value-append_other resp.headers name value other a;
          fields_set = appended (replace_first-none-All resp.headers name value missing);
          rest_kept = refl;
        },
      )
  | inr (hs, found) ↦ (
    record resp { headers = hs },
    rw (n, v, found),
    record {
      value_set = replace_first-header_value resp.headers name value hs found;
      others_kept = λ other a. replace_first-other resp.headers name value other hs a found;
      fields_set = replace_first-SetIn resp.headers name value hs found;
      rest_kept = refl;
    },
  )
]

validate_header-eq-ok :
    (name value : Bytes) {u : Unit {0}}
    → validate_header name value ≡ ok u
    → (is_valid_header_name name ≡ true) × (valid_header_value value ≡ true)
unfolding validate_header
validate_header-eq-ok name value h =
    let (a, e, h1) =
      >>=-eq-ok (throw_if (not (is_valid_header_name name)) "invalid response header name") _ h in
    let f = throw_if-eq-ok _ _ e in let g = throw_if-eq-ok _ _ h1 in (ground arith, ground arith)

-- Whenever `set_header` returns it has set the field.
pub set_header_returned :
    (resp : Response) (name value : Bytes) (resp' : Response)
    → set_header resp name value ≡ ok resp'
    → Sets resp name value resp'
unfolding set_header validate_header
set_header_returned resp name value resp' h =
    let (u, e, h1) = >>=-eq-ok (validate_header name value) _ h in
    let (n, v) = validate_header-eq-ok name value e in
    let (r, f, s) = set_header-Sets resp name value n v in
    let g : r ≡ resp' = cc in subst (Sets resp name value) g s

-- Whenever `add_header` returns, every other name has the value that it had.
pub add_header_returned :
    (resp : Response) (name value : Bytes) (resp' : Response) (other : Bytes)
    → add_header resp name value ≡ ok resp'
    → header_name_equals name other ≡ false
    → header_value resp'.headers other ≡ header_value resp.headers other
unfolding add_header validate_header
add_header_returned resp name value resp' other h n =
    let (u, e, h1) = >>=-eq-ok (validate_header name value) _ h in
    let g : (record resp { headers = resp.headers ++ (record { name = name; value = value } ∷ []) })
        ≡ resp' =
      cc in
    ap (λ r. header_value r.headers other) (sym g)
    ∙ header_value-append_other resp.headers name value other n
