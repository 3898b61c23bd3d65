-- ===== src/Http/Response/Lookup.antt =====
-- Finding, replacing and adding a field.
use garcon.Prelude.{
  All, ◌≡◌, refl, sym, ◌∙◌, inl, inr, true, false, none, some, List, [], ◌∷◌, ◌++◌, arith,
  Bool-cases, Option-cases,
}
use garcon.Text.{Bytes, ascii_lowercase}
use garcon.Text.Case.{ascii_iequals_iff}
use garcon.Http.Header.{HeaderField, header_name_equals, find_header, header_value}
use garcon.Http.Response.{replace_first}

-- Names that differ in case alone are one name.
header_name_equals_sound :
    (a b : Bytes) → header_name_equals a b ≡ true → ascii_lowercase a ≡ ascii_lowercase b
unfolding header_name_equals
header_name_equals_sound a b = (ascii_iequals_iff a b).0

header_name_equals_complete :
    (a b : Bytes) → ascii_lowercase a ≡ ascii_lowercase b → header_name_equals a b ≡ true
unfolding header_name_equals
header_name_equals_complete a b = (ascii_iequals_iff a b).1

header_name_equals_refl : (a : Bytes) → header_name_equals a a ≡ true
header_name_equals_refl a = header_name_equals_complete a a refl

-- A field of one name has no other name.
header_name_equals_apart :
    (a b c : Bytes)
    → header_name_equals a b ≡ true
    → header_name_equals b c ≡ false
    → header_name_equals a c ≡ false
header_name_equals_apart a b c h k = elim (Bool-cases (header_name_equals a c)) [
  | inl same ↦
      let e : ascii_lowercase b ≡ ascii_lowercase c =
        sym (header_name_equals_sound a b h) ∙ header_name_equals_sound a c same in
      cc (header_name_equals_complete b c e)
  | inr other ↦ other
]

pub header_value-append_none :
    (hs : List HeaderField) (name value : Bytes)
    → find_header hs name ≡ none
    → header_value (hs ++ (record { name = name; value = value } ∷ [])) name ≡ some value
unfolding header_value find_header
header_value-append_none [] name value e = rw (header_name_equals_refl name)
header_value-append_none (h ∷ hs) name value e =
    ground (arith, header_value-append_none hs name value)

pub header_value-append_other :
    (hs : List HeaderField) (name value other : Bytes)
    → header_name_equals name other ≡ false
    → header_value (hs ++ (record { name = name; value = value } ∷ [])) other
      ≡ header_value hs other
unfolding header_value find_header
header_value-append_other [] name value other e = ground arith
header_value-append_other (h ∷ hs) name value other e =
    ground (arith, header_value-append_other hs name value other e)

pub replace_first-none :
    (hs : List HeaderField) (name value : Bytes)
    → replace_first hs name value ≡ none
    → find_header hs name ≡ none
unfolding replace_first find_header
replace_first-none [] name value e = refl
replace_first-none (h ∷ hs) name value e = ground (arith, replace_first-none hs name value)

pub replace_first-header_value :
    (hs : List HeaderField) (name value : Bytes) (hs' : List HeaderField)
    → replace_first hs name value ≡ some hs'
    → header_value hs' name ≡ some value
unfolding replace_first header_value find_header
replace_first-header_value [] name value hs' e = cc
replace_first-header_value (h ∷ hs) name value hs' e =
    elim (Option-cases (replace_first hs name value)) [
      | inl missing ↦
          let here : hs' ≡ record h { value = value } ∷ hs = ground arith in rw here (ground arith)
      | inr (t, found) ↦ ground (arith, replace_first-header_value hs name value t)
    ]

pub replace_first-other :
    (hs : List HeaderField) (name value other : Bytes) (hs' : List HeaderField)
    → header_name_equals name other ≡ false
    → replace_first hs name value ≡ some hs'
    → header_value hs' other ≡ header_value hs other
unfolding replace_first header_value find_header
replace_first-other [] name value other hs' n e = cc
replace_first-other (h ∷ hs) name value other hs' n e =
    elim (Option-cases (replace_first hs name value)) [
      | inl missing ↦ ground (arith, header_name_equals_apart h.name name other)
      | inr (t, found) ↦ ground (
        arith,
        header_name_equals_apart h.name name other,
        replace_first-other hs name value other t n,
      )
    ]

-- The fields behind the replacement of the first field of a name, or behind the addition of one where
-- there is none; the other fields stay as they are and where they are.
pub data SetIn (name value : Bytes) : List HeaderField → List HeaderField → Type 0 where
  replaced :
      (before : List HeaderField) (h : HeaderField) (after : List HeaderField)
      → All (λ b. header_name_equals b.name name ≡ false) before
      → header_name_equals h.name name ≡ true
      → SetIn name value
          (before ++ (h ∷ after))
          (before ++ (record { name = h.name; value = value } ∷ after))
  appended :
      {hs : List HeaderField}
      → All (λ b. header_name_equals b.name name ≡ false) hs
      → SetIn name value hs (hs ++ (record { name = name; value = value } ∷ []))

pub SetIn-cons :
    (name value : Bytes) (h : HeaderField) {hs hs' : List HeaderField}
    → header_name_equals h.name name ≡ false
    → SetIn name value hs hs'
    → SetIn name value (h ∷ hs) (h ∷ hs')
SetIn-cons name value h e (replaced before g after b k) = replaced (h ∷ before) g after (e, b) k
SetIn-cons name value h e (appended b) = appended (e, b)

pub replace_first-none-All :
    (hs : List HeaderField) (name value : Bytes)
    → replace_first hs name value ≡ none
    → All (λ b. header_name_equals b.name name ≡ false) hs
unfolding replace_first
replace_first-none-All [] name value e = tt
replace_first-none-All (h ∷ hs) name value e =
    (ground arith, replace_first-none-All hs name value (ground arith))
