-- ===== src/Filter/Sorted.antt =====
-- What sorting and dropping repeated elements make of a list: the end of `match_topics` of
-- lib/broker-lib/src/filter.rs.
use rust_mqtt_sn.Prelude.{
  ℕ, ◌<◌, ◌≤◌, ◌≡◌, inl, inr, refl, true, List, [], ◌∷◌, ◌++◌, arith, leb, ◌==◌, nat_eq, list_eq,
  elem, if◌then◌else◌, Bool-cases, ◌∙◌, sym, subst, eq_of_true,
}
use rust_mqtt_sn.Filter.Maps.{sort_in, sort, dedup_after, dedup}

elem-sort_in :
    (a x : ℕ) (ys : List ℕ) → elem a (sort_in x ys) ≡ (if a == x then true else elem a ys)
elem-sort_in a x [] = ground arith
elem-sort_in a x (y ∷ ys) = ground (arith, elem-sort_in a x ys)

pub elem-sort : (a : ℕ) (xs : List ℕ) → elem a (sort xs) ≡ elem a xs
unfolding sort
elem-sort a [] = refl
elem-sort a (x ∷ xs) = elem-sort_in a x (sort xs) ∙ ground (arith, elem-sort a xs)

elem-dedup_after :
    (a x : ℕ) (ys : List ℕ)
    → (if a == x then true else elem a (dedup_after x ys)) ≡ (if a == x then true else elem a ys)
elem-dedup_after a x [] = refl
elem-dedup_after a x (y ∷ ys) = ground (arith, elem-dedup_after a y ys)

pub elem-dedup : (a : ℕ) (xs : List ℕ) → elem a (dedup xs) ≡ elem a xs
unfolding dedup
elem-dedup a [] = refl
elem-dedup a (x ∷ xs) = elem-dedup_after a x xs

pub elem-append :
    (a : ℕ) (xs ys : List ℕ) → elem a (xs ++ ys) ≡ (if elem a xs then true else elem a ys)
elem-append a [] ys = refl
elem-append a (x ∷ xs) ys = ground (arith, elem-append a xs ys)

-- No element is less than a bound, and the elements do not fall, or rise.
abbrev pub IsSortedFrom : ℕ → List ℕ → Type 0
IsSortedFrom low [] = Unit {0}
IsSortedFrom low (x ∷ xs) = (low ≤ x) × IsSortedFrom x xs

abbrev pub IsRisingFrom : ℕ → List ℕ → Type 0
IsRisingFrom low [] = Unit {0}
IsRisingFrom low (x ∷ xs) = (low < x) × IsRisingFrom x xs

abbrev pub IsRising : List ℕ → Type 0
IsRising [] = Unit {0}
IsRising (x ∷ xs) = IsRisingFrom x xs

sort_in-IsSorted :
    (low x : ℕ) (ys : List ℕ) → low ≤ x → IsSortedFrom low ys → IsSortedFrom low (sort_in x ys)
sort_in-IsSorted low x [] l s = (l, tt)
sort_in-IsSorted low x (y ∷ ys) l s = elim (Bool-cases (leb x y)) [
  | inl before ↦ rw before (l, (ground (arith, before), s.1))
  | inr after ↦ rw after (s.0, sort_in-IsSorted y x ys (ground (arith, after)) s.1)
]

pub sort-IsSorted : (xs : List ℕ) → IsSortedFrom 0 (sort xs)
unfolding sort
sort-IsSorted [] = tt
sort-IsSorted (x ∷ xs) = sort_in-IsSorted 0 x (sort xs) (omega arith) (sort-IsSorted xs)

dedup_after-IsRising : (x : ℕ) (ys : List ℕ) → IsSortedFrom x ys → IsRisingFrom x (dedup_after x ys)
dedup_after-IsRising x [] s = tt
dedup_after-IsRising x (y ∷ ys) s = elim (Bool-cases (x == y)) [
  | inl same ↦ rw same (
      subst (λ z. IsRisingFrom z (dedup_after y ys)) (sym (eq_of_true x y same))
        (dedup_after-IsRising y ys s.1))
  | inr apart ↦ rw apart (ground (arith, apart, s.0), dedup_after-IsRising y ys s.1)
]

pub dedup-IsRising : (low : ℕ) (xs : List ℕ) → IsSortedFrom low xs → IsRising (dedup xs)
unfolding dedup
dedup-IsRising low [] s = tt
dedup-IsRising low (x ∷ xs) s = dedup_after-IsRising x xs s.1
