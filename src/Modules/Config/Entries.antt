-- ===== src/Modules/Config/Entries.antt =====
-- What the loop over the lines keeps.
use garcon.Prelude.{
  ◌≡◌, Bool-cases, inl, inr, List, [], ◌∷◌, All, Result, ok, ◌>>=◌, >>=-eq-ok, subst,
}
use garcon.Text.{Bytes, pieces, trim}
use garcon.Modules.Config.{is_keyword_line, parse_each, parse_config}

-- What every line that is parsed has as its result, every entry of the configuration is.
module _ {A : Type 0} (keyword : Bytes) (parse_line : Bytes → Result A) (P : A → Type 0)
    (parsed : (line : Bytes) (entry : A) → parse_line line ≡ ok entry → P entry) where
  parse_each-All :
      (raws : List Bytes) (entries : List A)
      → parse_each keyword parse_line raws ≡ ok entries
      → All P entries
  unfolding parse_each
  parse_each-All [] entries h = let e : [] ≡ entries = cc in subst (All P) e tt
  parse_each-All (raw ∷ raws) entries h = elim (Bool-cases (is_keyword_line keyword (trim raw))) [
    | inl k ↦ kept (parse_each-All raws) entries (rw k at h)
    | inr k ↦ parse_each-All raws entries (rw k at h)
  ]
    where
      kept :
          ((rest : List A) → parse_each keyword parse_line raws ≡ ok rest → All P rest)
          → (entries : List A)
          → (parse_line (trim raw) >>= λ entry.
              parse_each keyword parse_line raws >>= λ rest. ok (entry ∷ rest))
            ≡ ok entries
          → All P entries
      kept later entries h =
          let (entry, e, h1) = >>=-eq-ok (parse_line (trim raw)) _ h in
          let (rest, f, h2) = >>=-eq-ok (parse_each keyword parse_line raws) _ h1 in
          let g : (entry ∷ rest) ≡ entries = cc in
          subst (All P) g (parsed (trim raw) entry e, later rest f)

  pub parse_config-All :
      (config_text : Bytes) (entries : List A)
      → parse_config keyword parse_line config_text ≡ ok entries
      → All P entries
  unfolding parse_config
  parse_config-All config_text entries h = parse_each-All (pieces b'\n' config_text) entries h
