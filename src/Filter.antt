-- ===== src/Filter.antt =====
-- Topic names and topic filters: the text functions of lib/broker-lib/src/filter.rs. A text is the
-- list of its octets.
pub mod Levels
pub mod Matching
pub mod Validity
pub mod Sets
pub mod Sharing
pub mod Subscribing
pub mod Matches
pub mod Maps
pub mod Sorted
pub mod MapMatches
use rust_mqtt_sn.Prelude.{
  ℕ, ◌-◌, ◌+◌, Bool, true, false, not, ◌&&◌, ◌||◌, Option, none, some, List, [], ◌∷◌, leb, ◌==◌,
  nat_eq, list_eq, elem, length, if◌then◌else◌,
}
use rust_mqtt_sn.Outcome.{Outcome, ok, panic}

abbrev pub plus : ℕ
plus = b'+'

abbrev pub hash : ℕ
hash = b'#'

abbrev pub slash : ℕ
slash = b'/'

abbrev pub dollar : ℕ
dollar = b'$'

unfoldable pub has_wildcards : List ℕ → Bool
has_wildcards filter = elem plus filter || elem hash filter

-- `str::find` of one ASCII character, as an offset.
pub find : ℕ → List ℕ → Option ℕ
find c [] = none
find c (x ∷ xs) =
    if x == c then some 0 else elim (find c xs) [ none ↦ none | some i ↦ some (i + 1) ]

pub ends_with : List ℕ → List ℕ → Bool
ends_with suffix [] = suffix == []
ends_with suffix (x ∷ xs) = suffix == x ∷ xs || ends_with suffix xs

abbrev is_at : Option ℕ → ℕ → Bool
is_at none n = false
is_at (some i) n = i == n

abbrev pub is_empty {ℓ} : {A : Type ℓ} → List A → Bool
is_empty [] = true
is_empty (x ∷ xs) = false

unfoldable pub valid_filter : List ℕ → Bool
unfolding has_wildcards find ends_with
valid_filter filter =
    if not (is_empty filter)
    then (if has_wildcards filter
        then is_at (find hash filter) (length filter - 1) && ends_with (slash ∷ hash ∷ []) filter
        else true)
    else false

-- `str::split('/')`, which yields one level at least.
abbrev pub cons_head : ℕ → List (List ℕ) → List (List ℕ)
cons_head c [] = (c ∷ []) ∷ []
cons_head c (l ∷ ls) = (c ∷ l) ∷ ls

unfoldable pub split : List ℕ → List (List ℕ)
split [] = [] ∷ []
split (c ∷ cs) = let rest = split cs in if c == slash then [] ∷ rest else cons_head c rest

-- The loop over the levels of the filter.
unfoldable pub match_levels : List (List ℕ) → List (List ℕ) → Bool
match_levels [] [] = true
match_levels (t ∷ ts) [] = false
match_levels [] (f ∷ fs) = f == hash ∷ []
match_levels (t ∷ ts) (f ∷ fs) =
    let rest = match_levels ts fs in
    if f == hash ∷ []
    then true
    else if t == hash ∷ []
    then false
    else if f == plus ∷ []
    then rest
    else if not (f == t)
    then false
    else rest

-- `topic[..1]` panics where the first octet is not a whole character.
unfoldable pub match_topic : List ℕ → List ℕ → Outcome Bool
unfolding split match_levels
match_topic [] filter = ok (match_levels (split []) (split filter))
match_topic (c ∷ cs) filter =
    if leb 0x80 c
    then panic
    else if c == dollar
    then ok false
    else ok (match_levels (split (c ∷ cs)) (split filter))
