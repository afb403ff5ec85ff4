-- ===== src/Filter/Levels.antt =====
-- The levels of a topic: `split('/')` of lib/broker-lib/src/filter.rs and its inverse.
use rust_mqtt_sn.Prelude.{
  ℕ, ◌≡◌, refl, ap, false, List, [], ◌∷◌, ◌++◌, arith, ◌==◌, nat_eq, list_eq, elem, ◌≢◌, Bool-cases,
  inl, inr, ◌∙◌, sym,
}
use mathlib.Core.List.{append_assoc}
use rust_mqtt_sn.Filter.{slash, split, cons_head}

abbrev pub join : List (List ℕ) → List ℕ
join [] = []
join (l ∷ []) = l
join (l ∷ m ∷ ms) = l ++ slash ∷ join (m ∷ ms)

cons_head-append :
    (c : ℕ) (ls ms : List (List ℕ)) → ls ≢ [] → cons_head c (ls ++ ms) ≡ cons_head c ls ++ ms
cons_head-append c [] ms h = absurd (h refl)
cons_head-append c (l ∷ ls) ms h = refl

pub split-ne-nil : (t : List ℕ) → split t ≢ []
unfolding split
split-ne-nil [] e = cc
split-ne-nil (c ∷ cs) e = ground arith

-- A slash ends a level.
pub split-append : (p q : List ℕ) → split (p ++ slash ∷ q) ≡ split p ++ split q
unfolding split
split-append [] q = refl
split-append (c ∷ cs) q = elim (Bool-cases (c == slash)) [
  | inl s ↦ rw (s, split-append cs q) refl
  | inr o ↦ rw (o, split-append cs q) (cons_head-append c (split cs) (split q) (split-ne-nil cs))
]

join-cons_head : (c : ℕ) (ls : List (List ℕ)) → ls ≢ [] → join (cons_head c ls) ≡ c ∷ join ls
join-cons_head c [] h = absurd (h refl)
join-cons_head c (l ∷ []) h = refl
join-cons_head c (l ∷ m ∷ ms) h = refl

join-cons : (l : List ℕ) (ls : List (List ℕ)) → ls ≢ [] → join (l ∷ ls) ≡ l ++ slash ∷ join ls
join-cons l [] h = absurd (h refl)
join-cons l (m ∷ ms) h = refl

-- Joining the levels again gives the topic.
pub join-split : (t : List ℕ) → join (split t) ≡ t
unfolding split
join-split [] = refl
join-split (c ∷ cs) = elim (Bool-cases (c == slash)) [
  | inl s ↦ rw s (join-cons [] (split cs) (split-ne-nil cs) ∙ ground (arith, join-split cs))
  | inr o ↦ rw o (join-cons_head c (split cs) (split-ne-nil cs) ∙ ap (◌∷◌ c) (join-split cs))
]

pub join-append :
    (ls ms : List (List ℕ)) → ls ≢ [] → ms ≢ [] → join (ls ++ ms) ≡ join ls ++ slash ∷ join ms
join-append [] ms h k = absurd (h refl)
join-append (l ∷ []) ms h k = join-cons l ms k
join-append (l ∷ m ∷ ls) ms h k =
    rw (join-append (m ∷ ls) ms (λ e. cc) k) (sym (append_assoc l _ _))

elem-cons_head :
    (c x : ℕ) (ls : List (List ℕ))
    → (c == x) ≡ false
    → elem (c ∷ []) ls ≡ false
    → elem (c ∷ []) (cons_head x ls) ≡ false
elem-cons_head c x [] h e = ground arith
elem-cons_head c x (l ∷ ls) h e = ground arith

-- A level that is one character stands only where the topic has that character.
pub elem-split : (c : ℕ) (t : List ℕ) → elem c t ≡ false → elem (c ∷ []) (split t) ≡ false
unfolding split
elem-split c [] e = refl
elem-split c (x ∷ xs) e = elim (Bool-cases (x == slash)) [
  | inl s ↦ rw s (elem-split c xs (ground arith))
  | inr o ↦ rw o (elem-cons_head c x (split xs) (ground arith) (elem-split c xs (ground arith)))
]
