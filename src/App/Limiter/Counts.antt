-- ===== src/App/Limiter/Counts.antt =====
-- The limiter counts exactly, never above its limit, and keeps no entry for an idle address.
use garcon.Prelude.{
  ℕ, ◌+◌, ◌-◌, ◌≤◌, ◌<◌, ◌≡◌, ◌≢◌, refl, Bool, true, none, some, [], ◌∷◌, ltb, leb, arith, inl, inr,
  Bool-cases, Option-cases, if◌then◌else◌,
}
use garcon.Text.{Bytes, equal}
use garcon.Text.Search.{equal_iff, equal_refl}
use garcon.Text.Map.{find, put, find-put}
use garcon.App.Limiter.{Inflight, Limiter, erase, count_of, try_acquire, release_at, release}

-- No key stands twice, and every count lies between 1 and the limit.
abbrev pub IsMap : ℕ → Inflight → Type 0
IsMap limit [] = Unit
IsMap limit ((k, n) ∷ m) = (find k m ≡ none) × (0 < n) × (n ≤ limit) × IsMap limit m

find-erase :
    (limit : ℕ) (k j : Bytes) (m : Inflight)
    → IsMap limit m
    → find j (erase k m) ≡ (if equal k j then none else find j m)
unfolding find erase
find-erase limit k j [] v = ground arith
find-erase limit k j ((i, o) ∷ m) v =
    ground (arith, equal_iff k j, equal_iff i k, equal_iff i j, find-erase limit k j m)

put-IsMap :
    (limit : ℕ) (k : Bytes) (n : ℕ) (m : Inflight)
    → IsMap limit m
    → 0 < n
    → n ≤ limit
    → IsMap limit (put k n m)
unfolding find put
put-IsMap limit k n [] v h g = (refl, h, g, tt)
put-IsMap limit k n ((i, o) ∷ m) v h g =
    ground (arith, put-IsMap limit k n m, find-put k i n m, equal_iff i k, equal_iff k i)

erase-IsMap : (limit : ℕ) (k : Bytes) (m : Inflight) → IsMap limit m → IsMap limit (erase k m)
unfolding find erase
erase-IsMap limit k [] v = tt
erase-IsMap limit k ((i, o) ∷ m) v =
    ground (arith, erase-IsMap limit k m, find-erase limit k i m, equal_iff i k, equal_iff k i)

pub record IsValid (l : Limiter) : Type 0 where
  pub limit_positive : 0 < l.per_ip_limit
  pub entries : IsMap l.per_ip_limit l.inflight_by_ip

-- The number of connections that an address holds.
pub count : Limiter → Bytes → ℕ
count l address = count_of (find address l.inflight_by_ip)

find-bounds :
    (limit : ℕ) (k : Bytes) (m : Inflight) (n : ℕ)
    → IsMap limit m
    → find k m ≡ some n
    → (0 < n) × (n ≤ limit)
unfolding find
find-bounds limit k [] n v e = cc
find-bounds limit k ((i, o) ∷ m) n v e = ground (arith, find-bounds limit k m n)

pub count-le-limit : (l : Limiter) (k : Bytes) → IsValid l → count l k ≤ l.per_ip_limit
unfolding count
count-le-limit l k v = elim (Option-cases (find k l.inflight_by_ip)) [
  | inl missing ↦ rw missing (omega arith)
  | inr (n, found) ↦ rw found (find-bounds l.per_ip_limit k l.inflight_by_ip n v.entries found).1
]

-- One more for this address, none for any other.
abbrev pub one_at : Bytes → Bytes → ℕ
one_at k j = if equal k j then 1 else 0

pub record Acquired (l : Limiter) (k : Bytes) (r : Limiter × Bool) : Type 0 where
  pub valid : IsValid r.0
  pub same_limit : r.0.per_ip_limit ≡ l.per_ip_limit
  pub admitted : r.1 ≡ ltb (count l k) l.per_ip_limit
  pub counts : (j : Bytes) → count r.0 j ≡ count l j + (if r.1 then one_at k j else 0)

-- For a valid limiter and an address that is not empty, `try_acquire` admits exactly when the address holds fewer
-- connections than the limit; then its count is one higher, and else no count changes.
pub try_acquire-Acquired :
    (l : Limiter) (k : Bytes) → IsValid l → k ≢ [] → Acquired l k (try_acquire l k)
unfolding try_acquire count
try_acquire-Acquired l [] v h = absurd (h refl)
try_acquire-Acquired l (c ∷ cs) v h =
    elim (Bool-cases (leb l.per_ip_limit (count_of (find (c ∷ cs) l.inflight_by_ip)))) [
      | inl full ↦ rw full (record {
        valid = record {
          limit_positive = v.limit_positive;
          entries =
              put-IsMap l.per_ip_limit (c ∷ cs) _ l.inflight_by_ip v.entries
                (ground (arith, v.limit_positive)) (count-le-limit l (c ∷ cs) v);
        };
        same_limit = refl;
        admitted = ground arith;
        counts = λ j. ground (
          arith,
          find-put (c ∷ cs) j (count_of (find (c ∷ cs) l.inflight_by_ip)) l.inflight_by_ip,
          equal_iff (c ∷ cs) j,
        );
      })
      | inr free ↦ rw free (record {
        valid = record {
          limit_positive = v.limit_positive;
          entries =
              put-IsMap l.per_ip_limit (c ∷ cs) _ l.inflight_by_ip v.entries (omega arith)
                (ground arith);
        };
        same_limit = refl;
        admitted = ground arith;
        counts = λ j. ground (
          arith,
          find-put (c ∷ cs) j (count_of (find (c ∷ cs) l.inflight_by_ip) + 1) l.inflight_by_ip,
          equal_iff (c ∷ cs) j,
        );
      })
    ]

pub record Released (l : Limiter) (k : Bytes) (l' : Limiter) : Type 0 where
  pub valid : IsValid l'
  pub same_limit : l'.per_ip_limit ≡ l.per_ip_limit
  pub counts : (j : Bytes) → count l' j ≡ count l j - one_at k j
  pub forgotten : count l k ≤ 1 → find k l'.inflight_by_ip ≡ none

-- For a valid limiter and an address that is not empty, `release` takes one connection from its count, if it has one,
-- and from no other; an address whose last connection is released has no entry any more.
pub release-Released : (l : Limiter) (k : Bytes) → IsValid l → k ≢ [] → Released l k (release l k)
unfolding release release_at count
release-Released l [] v h = absurd (h refl)
release-Released l (c ∷ cs) v h = elim (Option-cases (find (c ∷ cs) l.inflight_by_ip)) [
  | inl missing ↦
      rw (missing, release_at)
        (record {
          valid = v;
          same_limit = refl;
          counts = λ j. ground (arith, equal_iff (c ∷ cs) j);
          forgotten = λ _. missing;
        })
  | inr (n, found) ↦ elim (Bool-cases (ltb 1 n)) [
    | inl several ↦
        rw (found, release_at)
          (rw several (record {
            valid = record {
              limit_positive = v.limit_positive;
              entries =
                  put-IsMap l.per_ip_limit (c ∷ cs) (n - 1) l.inflight_by_ip v.entries
                    (ground arith)
                    (omega (
                      arith,
                      (find-bounds l.per_ip_limit (c ∷ cs) l.inflight_by_ip n v.entries found).1,
                    ));
            };
            same_limit = refl;
            counts = λ j.
                ground (arith, find-put (c ∷ cs) j (n - 1) l.inflight_by_ip, equal_iff (c ∷ cs) j);
            forgotten = λ last. let single : n ≤ 1 = rw found at last in ground arith;
          }))
    | inr last ↦
        rw (found, release_at)
          (rw last (record {
            valid = record {
              limit_positive = v.limit_positive;
              entries = erase-IsMap l.per_ip_limit (c ∷ cs) l.inflight_by_ip v.entries;
            };
            same_limit = refl;
            counts = λ j. ground (
              arith,
              find-erase l.per_ip_limit (c ∷ cs) j l.inflight_by_ip v.entries,
              find-bounds l.per_ip_limit (c ∷ cs) l.inflight_by_ip n v.entries found,
              equal_iff (c ∷ cs) j,
            );
            forgotten = λ _. ground (
              arith,
              find-erase l.per_ip_limit (c ∷ cs) (c ∷ cs) l.inflight_by_ip v.entries,
              equal_refl (c ∷ cs),
            );
          }))
  ]
]

-- Connections without an address are not counted.
pub try_acquire_nil : (l : Limiter) → try_acquire l [] ≡ (l, true)
unfolding try_acquire
try_acquire_nil l = refl

pub release_nil : (l : Limiter) → release l [] ≡ l
unfolding release
release_nil l = refl

pub count_empty :
    (limit : ℕ) (j : Bytes) → count (record { per_ip_limit = limit; inflight_by_ip = [] }) j ≡ 0
unfolding count find
count_empty limit j = refl
