-- ===== src/Filter/Validity.antt =====
-- Which filters are accepted: `valid_filter` of lib/broker-lib/src/filter.rs.
use rust_mqtt_sn.Prelude.{
  ℕ, ◌+◌, ◌<◌, ◌≡◌, ◌≢◌, ◌↔◌, ◌⊎◌, refl, ap, true, false, some, List, [], ◌∷◌, ◌++◌, arith, ◌==◌,
  nat_eq, list_eq, elem, length, length-append, Bool-cases, inl, inr, list_beq_iff, ◌∙◌, sym,
}
use mathlib.Core.Bool.{false≢true}
use rust_mqtt_sn.Filter.{hash, slash, has_wildcards, find, ends_with, valid_filter}

ends_with_sound : (suffix f : List ℕ) → ends_with suffix f ≡ true → (p : List ℕ) × (f ≡ p ++ suffix)
unfolding ends_with
ends_with_sound suffix [] h = ([], ground (arith, list_beq_iff suffix []))
ends_with_sound suffix (x ∷ xs) h = elim (Bool-cases (suffix == x ∷ xs)) [
  | inl same ↦ ([], ground (arith, list_beq_iff suffix (x ∷ xs)))
  | inr other ↦ let (p, e) = ends_with_sound suffix xs (ground arith) in (x ∷ p, ap (◌∷◌ x) e)
]

ends_with_refl : (suffix : List ℕ) → ends_with suffix suffix ≡ true
unfolding ends_with
ends_with_refl [] = refl
ends_with_refl (x ∷ xs) = ground (arith, list_beq_iff (x ∷ xs) (x ∷ xs))

ends_with_complete : (suffix p : List ℕ) → ends_with suffix (p ++ suffix) ≡ true
unfolding ends_with
ends_with_complete suffix [] = ends_with_refl suffix
ends_with_complete suffix (x ∷ p) = ground (arith, ends_with_complete suffix p)

find_first :
    (c : ℕ) (p q : List ℕ) → elem c p ≡ true → (i : ℕ) × (find c (p ++ q) ≡ some i) × (i < length p)
unfolding find
find_first c [] q h = absurd (ground arith)
find_first c (x ∷ p) q h = elim (Bool-cases (x == c)) [
  | inl same ↦ (0, ground arith, ground arith)
  | inr other ↦
      let (i, e, l) = find_first c p q (ground arith) in (i + 1, ground arith, ground arith)
]

find_past :
    (c : ℕ) (p : List ℕ)
    → elem c p ≡ false
    → (slash == c) ≡ false
    → find c (p ++ slash ∷ c ∷ []) ≡ some (length p + 1)
unfolding find
find_past c [] h n = ground arith
find_past c (x ∷ p) h n = ground (arith, find_past c p)

elem-append_right : (c : ℕ) (p q : List ℕ) → elem c q ≡ true → elem c (p ++ q) ≡ true
elem-append_right c [] q h = h
elem-append_right c (x ∷ p) q h = ground (arith, elem-append_right c p q h)

-- What the filters are that are accepted: those without wildcards but the empty one, and those
-- that end in `/#` and have no other `#`; a `+` before that is let through.
abbrev pub Accepted : List ℕ → Type 0
Accepted f =
    ((f ≢ []) × (has_wildcards f ≡ false))
    ⊎ ((p : List ℕ) × (f ≡ p ++ slash ∷ hash ∷ []) × (elem hash p ≡ false))

hash_suffix_valid :
    (p : List ℕ) → elem hash p ≡ false → valid_filter (p ++ slash ∷ hash ∷ []) ≡ true
unfolding valid_filter has_wildcards
hash_suffix_valid [] h = refl
hash_suffix_valid (x ∷ p) h = ground (
  arith,
  elem-append_right hash (x ∷ p) (slash ∷ hash ∷ []) refl,
  find_past hash (x ∷ p) h refl,
  ends_with_complete (slash ∷ hash ∷ []) (x ∷ p),
  length-append (x ∷ p) (slash ∷ hash ∷ []),
)

-- A `#` before the last one is found first, at the wrong place.
inner_hash_invalid :
    (p : List ℕ) → elem hash p ≡ true → valid_filter (p ++ slash ∷ hash ∷ []) ≡ false
unfolding valid_filter has_wildcards
inner_hash_invalid [] h = cc
inner_hash_invalid (x ∷ p) h =
    let (i, e, l) = find_first hash (x ∷ p) (slash ∷ hash ∷ []) h in
    ground (
      arith,
      elem-append_right hash (x ∷ p) (slash ∷ hash ∷ []) refl,
      length-append (x ∷ p) (slash ∷ hash ∷ []),
    )

wildcards_suffix :
    (x : ℕ) (f : List ℕ)
    → valid_filter (x ∷ f) ≡ true
    → has_wildcards (x ∷ f) ≡ true
    → ends_with (slash ∷ hash ∷ []) (x ∷ f) ≡ true
unfolding valid_filter
wildcards_suffix x f v w = ground arith

valid_hash_suffix :
    (x : ℕ) (f : List ℕ)
    → valid_filter (x ∷ f) ≡ true
    → has_wildcards (x ∷ f) ≡ true
    → (p : List ℕ) × (x ∷ f ≡ p ++ slash ∷ hash ∷ []) × (elem hash p ≡ false)
valid_hash_suffix x f v w =
    let (p, e) = ends_with_sound (slash ∷ hash ∷ []) (x ∷ f) (wildcards_suffix x f v w) in
    elim (Bool-cases (elem hash p)) [
      | inl inside ↦ absurd (false≢true (sym (inner_hash_invalid p inside) ∙ rw (← e) v))
      | inr outside ↦ (p, e, outside)
    ]

valid_of_Accepted : (f : List ℕ) → Accepted f → valid_filter f ≡ true
valid_of_Accepted [] (inl (n, w)) = absurd (n refl)
valid_of_Accepted (x ∷ f) (inl (n, w)) = unfold valid_filter in ground arith
valid_of_Accepted f (inr (p, e, h)) = ap valid_filter e ∙ hash_suffix_valid p h

Accepted-of_valid : (f : List ℕ) → valid_filter f ≡ true → Accepted f
Accepted-of_valid [] v = absurd (unfold valid_filter in ground arith)
Accepted-of_valid (x ∷ f) v = elim (Bool-cases (has_wildcards (x ∷ f))) [
  | inl w ↦ inr (valid_hash_suffix x f v w)
  | inr n ↦ inl ((λ e. cc), n)
]

-- `valid_filter` accepts exactly the nonempty texts without wildcards, and the texts that end in
-- `/#` and have no other `#`.
pub valid_filter-Accepted : (f : List ℕ) → (valid_filter f ≡ true) ↔ Accepted f
valid_filter-Accepted f = (Accepted-of_valid f, valid_of_Accepted f)
