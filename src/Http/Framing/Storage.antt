-- ===== src/Http/Framing/Storage.antt =====
-- The receive buffer keeps what was committed.
use garcon.Prelude.{
  ℕ, zero, suc, ◌+◌, ◌-◌, ◌≤◌, ◌≡◌, refl, ap, sym, ◌∙◌, List, [], ◌∷◌, ◌++◌, length, take, drop,
  length-append, length-take, length-drop, append_assoc, arith,
}
use garcon.Text.{Bytes}
use garcon.Text.Search.{take-length-append}
use garcon.Http.Framing.{Buffer, zeros, grow, span_size, fill, commit, as_string_view}

-- The committed bytes lie in the storage.
abbrev pub IsValid : Buffer → Type 0
IsValid b = b.size ≤ length b.data_

length-zeros : (n : ℕ) → length (zeros n) ≡ n
unfolding zeros
length-zeros zero = refl
length-zeros (suc n) = ap suc (length-zeros n)

-- The span of `write_span` has room for what was asked, and the storage grows no further.
pub grow_room :
    (b : Buffer) (m : ℕ)
    → IsValid b
    → (m ≤ span_size (grow b m)) × ((grow b m).size ≡ b.size) × IsValid (grow b m)
unfolding grow
grow_room b m v = ground (
  arith,
  length-append b.data_ (zeros (b.size + m - length b.data_)),
  length-zeros (b.size + m - length b.data_),
)

pub length-grow :
    (b : Buffer) (m bound : ℕ)
    → length b.data_ ≤ bound
    → b.size + m ≤ bound
    → length (grow b m).data_ ≤ bound
unfolding grow
length-grow b m bound h k = ground (
  arith,
  length-append b.data_ (zeros (b.size + m - length b.data_)),
  length-zeros (b.size + m - length b.data_),
)

take-append {ℓ} :
    {A : Type ℓ} (n : ℕ) (xs ys : List A) → n ≤ length xs → take n (xs ++ ys) ≡ take n xs
take-append zero xs ys h = refl
take-append (suc n) [] ys h = absurd (omega arith)
take-append (suc n) (x ∷ xs) ys h = ap (◌∷◌ x) (take-append n xs ys (omega arith))

pub as_string_view-grow :
    (b : Buffer) (m : ℕ) → IsValid b → as_string_view (grow b m) ≡ as_string_view b
unfolding as_string_view grow
as_string_view-grow b m v =
    ground (arith, take-append b.size b.data_ (zeros (b.size + m - length b.data_)) v)

pub length-fill :
    (b : Buffer) (r : Bytes)
    → b.size + length r ≤ length b.data_
    → length (fill b r).data_ ≡ length b.data_
unfolding fill
length-fill b r h = omega (
  arith,
  length-append (take b.size b.data_) (r ++ drop (b.size + length r) b.data_),
  length-append r (drop (b.size + length r) b.data_),
  length-take b.size b.data_,
  length-drop (b.size + length r) b.data_,
)

commit_eq :
    (b : Buffer) (n : ℕ) → b.size + n ≤ length b.data_ → commit b n ≡ record b { size = b.size + n }
unfolding commit
commit_eq b n h = ground arith

-- If what was received fits the storage behind what is committed, committing it appends it to the
-- view, and the storage keeps its size.
pub commit-fill :
    (b : Buffer) (r : Bytes)
    → b.size + length r ≤ length b.data_
    → (as_string_view (commit (fill b r) (length r)) ≡ as_string_view b ++ r)
      × (length (commit (fill b r) (length r)).data_ ≡ length b.data_)
      × ((commit (fill b r) (length r)).size ≡ b.size + length r)
unfolding as_string_view fill
commit-fill b r h =
    let same = length-fill b r h in
    let e = commit_eq (fill b r) (length r) (omega arith) in rw e (view, same, refl)
  where
    front : Bytes
    front = take b.size b.data_ ++ r

    size_front : length front ≡ b.size + length r
    size_front = omega (arith, length-append (take b.size b.data_) r, length-take b.size b.data_)

    view :
        take (b.size + length r) (take b.size b.data_ ++ (r ++ drop (b.size + length r) b.data_))
        ≡ take b.size b.data_ ++ r
    view = rw (← size_front) (
        ap (take (length front))
          (sym (append_assoc (take b.size b.data_) r (drop (length front) b.data_)))
        ∙ take-length-append front (drop (length front) b.data_))
