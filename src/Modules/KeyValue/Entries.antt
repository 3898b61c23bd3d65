-- ===== src/Modules/KeyValue/Entries.antt =====
-- What a configuration printed from entries gives back.
use garcon.Prelude.{
  ℕ, ◌≡◌, ◌≢◌, refl, ap, ◌∙◌, Bool, false, Option, none, some, List, [], ◌∷◌, ◌++◌, map, All,
  if◌then◌else◌,
}
use garcon.Text.{Bytes, equal, has, trim, is_space}
use garcon.Text.Search.{cut_at-append, has-append}
use garcon.Text.Trim.{IsTrimmed, EndsTrimmed, EndsTrimmed-cons, trim_by_eq}
use garcon.Text.Fields.{join, NoDelimiter, pieces-join}
use garcon.Modules.KeyValue.{front_is, entry_of, get, get_from}

abbrev pub line_of : Bytes × Bytes → Bytes
line_of (key, value) = key ++ (b'=' ∷ value)

pub print : List (Bytes × Bytes) → Bytes
print entries = join b'\n' (map line_of entries)

-- A key is not empty and begins no comment; key and value are trimmed, on one line, and the key has
-- no `=`.
abbrev pub IsEntry : Bytes × Bytes → Type 0
IsEntry (key, value) =
    (key ≢ [])
    × (front_is b'#' key ≡ false)
    × (has b'=' key ≡ false)
    × (has b'\n' key ≡ false)
    × (has b'\n' value ≡ false)
    × IsTrimmed is_space key
    × IsTrimmed is_space value

unfoldable pub lookup : Bytes → List (Bytes × Bytes) → Option Bytes
lookup key [] = none
lookup key ((k, value) ∷ entries) =
    let later = lookup key entries in if equal k key then some value else later

EndsTrimmed-append :
    (p : ℕ → Bool) (a : Bytes) (c : ℕ) (s : Bytes)
    → EndsTrimmed p (c ∷ s)
    → EndsTrimmed p (a ++ (c ∷ s))
EndsTrimmed-append p [] c s h = h
EndsTrimmed-append p (b ∷ []) c s h = h
EndsTrimmed-append p (b ∷ d ∷ a) c s h = EndsTrimmed-append p (d ∷ a) c s h

trim-line_of : (entry : Bytes × Bytes) → IsEntry entry → trim (line_of entry) ≡ line_of entry
unfolding trim is_space
trim-line_of ([], value) (n, _, _, _, _, _, _) = absurd (n refl)
trim-line_of (c ∷ key, value) (_, _, _, _, _, k, v) =
    trim_by_eq is_space (c ∷ (key ++ (b'=' ∷ value))) (
      k.0,
      EndsTrimmed-append is_space (c ∷ key) b'=' value
          (EndsTrimmed-cons is_space b'=' value v.1 refl),
    )

entry_of-line_of : (entry : Bytes × Bytes) → IsEntry entry → entry_of (line_of entry) ≡ some entry
unfolding entry_of trim
entry_of-line_of ([], value) (n, _, _, _, _, _, _) = absurd (n refl)
entry_of-line_of (c ∷ key, value) (_, f, e, _, _, k, v) =
    rw
      (
        f,
        cut_at-append b'=' [] (c ∷ key) value e,
        trim_by_eq is_space (c ∷ key) k,
        trim_by_eq is_space value v,
      )
      refl

get_from-map :
    (key : Bytes) (entries : List (Bytes × Bytes))
    → All IsEntry entries
    → get_from key (map line_of entries) ≡ lookup key entries
unfolding get_from lookup
get_from-map key [] h = refl
get_from-map key ((k, value) ∷ entries) h =
    rw (trim-line_of (k, value) h.0, entry_of-line_of (k, value) h.0, get_from-map key entries h.1)
      refl

lines-NoDelimiter :
    (entries : List (Bytes × Bytes)) → All IsEntry entries → NoDelimiter b'\n' (map line_of entries)
lines-NoDelimiter [] h = tt
lines-NoDelimiter ((k, value) ∷ entries) ((_, _, _, a, b, _, _), h) =
    (rw (has-append b'\n' k (b'=' ∷ value), a) (unfold has in b), lines-NoDelimiter entries h)

-- Reading a key from printed entries gives the value of the first entry with that key, and nothing
-- where there is none: keys are not empty, begin no comment and have no `=`, and keys and values
-- are trimmed and free of line ends.
pub get-print :
    (entries : List (Bytes × Bytes)) (key : Bytes)
    → entries ≢ []
    → All IsEntry entries
    → get (print entries) key ≡ lookup key entries
unfolding get print
get-print [] key n h = absurd (n refl)
get-print (entry ∷ entries) key n h =
    ap (get_from key) (
      pieces-join b'\n' (map line_of (entry ∷ entries)) (λ e. cc)
        (lines-NoDelimiter (entry ∷ entries) h))
    ∙ get_from-map key (entry ∷ entries) h
