-- ===== src/Filter/Matching.antt =====
-- Which topics a filter matches: `match_topic` of lib/broker-lib/src/filter.rs.
use rust_mqtt_sn.Prelude.{
  ℕ, ◌≤◌, ◌≡◌, ◌↔◌, ◌⊎◌, refl, ap, sym, ◌∙◌, true, false, List, [], ◌∷◌, ◌++◌, arith, leb, ◌==◌,
  nat_eq, list_eq, elem, inl, inr, list_beq_iff,
}
use mathlib.Core.Path.{ap₂}
use mathlib.Core.List.{append-nil}
use rust_mqtt_sn.Outcome.{ok, panic}
use rust_mqtt_sn.Filter.{plus, hash, slash, dollar, split, has_wildcards, match_levels, match_topic}
use rust_mqtt_sn.Filter.Levels.{
  join, split-append, split-ne-nil, join-split, join-append, elem-split,
}

abbrev NoWildcards : List (List ℕ) → Type 0
NoWildcards fs = (elem (hash ∷ []) fs ≡ false) × (elem (plus ∷ []) fs ≡ false)

levels_exact :
    (ts fs : List (List ℕ))
    → elem (hash ∷ []) ts ≡ false
    → NoWildcards fs
    → (match_levels ts fs ≡ true) ↔ (ts ≡ fs)
unfolding match_levels
levels_exact [] [] h n = (λ e. refl, λ e. refl)
levels_exact (t ∷ ts) [] h n = (λ e. cc, λ e. cc)
levels_exact [] (f ∷ fs) h n = (λ e. ground arith, λ e. cc)
levels_exact (t ∷ ts) (f ∷ fs) h n =
    let (to, from) = levels_exact ts fs (ground arith) (ground arith, ground arith) in
    (λ e. ground (arith, list_beq_iff f t, to), λ e. ground (arith, list_beq_iff f t, from))

first :
    (t f : List ℕ) (ts fs : List (List ℕ))
    → NoWildcards (f ∷ fs)
    → match_levels (t ∷ ts) (f ∷ fs ++ (hash ∷ []) ∷ []) ≡ true
    → (t ≡ f) × (match_levels ts (fs ++ (hash ∷ []) ∷ []) ≡ true)
unfolding match_levels
first t f ts fs n e = ground (arith, list_beq_iff f t)

levels_prefix :
    (ts fs : List (List ℕ))
    → NoWildcards fs
    → match_levels ts (fs ++ (hash ∷ []) ∷ []) ≡ true
    → (below : List (List ℕ)) × (ts ≡ fs ++ below)
levels_prefix ts [] n e = (ts, refl)
levels_prefix [] (f ∷ fs) n e = absurd (unfold match_levels in ground arith)
levels_prefix (t ∷ ts) (f ∷ fs) n e =
    let (same, more) = first t f ts fs n e in
    let (below, rest) = levels_prefix ts fs (ground arith, ground arith) more in
    (below, ap₂ ◌∷◌ same rest)

prefix_levels :
    (fs below : List (List ℕ))
    → elem (hash ∷ []) (fs ++ below) ≡ false
    → NoWildcards fs
    → match_levels (fs ++ below) (fs ++ (hash ∷ []) ∷ []) ≡ true
unfolding match_levels
prefix_levels [] [] h n = refl
prefix_levels [] (b ∷ bs) h n = refl
prefix_levels (f ∷ fs) below h n =
    ground
      (arith, list_beq_iff f f, prefix_levels fs below (ground arith) (ground arith, ground arith))

-- A topic that the slice of its first octet does not make panic, and that is no system topic.
abbrev IsPlain : List ℕ → Type 0
IsPlain [] = Unit
IsPlain (c ∷ cs) = (leb 0x80 c ≡ false) × ((c == dollar) ≡ false)

plain-match_topic :
    (topic filter : List ℕ)
    → IsPlain topic
    → match_topic topic filter ≡ ok (match_levels (split topic) (split filter))
unfolding match_topic
plain-match_topic [] filter p = refl
plain-match_topic (c ∷ cs) filter p = ground arith

wildcards_split : (filter : List ℕ) → has_wildcards filter ≡ false → NoWildcards (split filter)
unfolding has_wildcards
wildcards_split filter h =
    (elem-split hash filter (ground arith), elem-split plus filter (ground arith))

-- A filter without wildcards matches the topic that it names and no other topic, among the topics
-- without wildcards that do not begin with `$` or with an octet outside ASCII.
pub match_topic-concrete :
    (topic filter : List ℕ)
    → IsPlain topic
    → has_wildcards topic ≡ false
    → has_wildcards filter ≡ false
    → (match_topic topic filter ≡ ok true) ↔ (topic ≡ filter)
match_topic-concrete topic filter p t f =
    let (to, from) =
      levels_exact (split topic) (split filter) (wildcards_split topic t).0
        (wildcards_split filter f) in
    (
      λ e.
          sym (join-split topic)
          ∙ ap join (to (ground (arith, plain-match_topic topic filter p)))
          ∙ join-split filter,
      λ e. plain-match_topic topic filter p ∙ ap ok (from (ap split e)),
    )

hash_filter : (p : List ℕ) → split (p ++ slash ∷ hash ∷ []) ≡ split p ++ (hash ∷ []) ∷ []
hash_filter p = split-append p (hash ∷ []) ∙ (unfold split in refl)

below_of_levels :
    (topic p : List ℕ) (below : List (List ℕ))
    → split topic ≡ split p ++ below
    → (topic ≡ p) ⊎ ((q : List ℕ) × (topic ≡ p ++ slash ∷ q))
below_of_levels topic p [] e =
    inl (sym (join-split topic) ∙ ap join (e ∙ append-nil (split p)) ∙ join-split p)
below_of_levels topic p (b ∷ bs) e = inr (
  join (b ∷ bs),
  sym (join-split topic)
      ∙ ap join e
      ∙ join-append (split p) (b ∷ bs) (split-ne-nil p) (λ k. cc)
      ∙ ap (λ (l : List ℕ). l ++ slash ∷ join (b ∷ bs)) (join-split p),
)

levels_of_below :
    (topic p : List ℕ)
    → (topic ≡ p) ⊎ ((q : List ℕ) × (topic ≡ p ++ slash ∷ q))
    → (below : List (List ℕ)) × (split topic ≡ split p ++ below)
levels_of_below topic p (inl e) = ([], ap split e ∙ sym (append-nil (split p)))
levels_of_below topic p (inr (q, e)) = (split q, ap split e ∙ split-append p q)

-- A filter `p/#`, where `p` has no wildcards, matches `p` itself and every topic below `p/` and
-- nothing else, among the topics without wildcards that do not begin with `$` or with an octet
-- outside ASCII.
pub match_topic-below :
    (topic p : List ℕ)
    → IsPlain topic
    → has_wildcards topic ≡ false
    → has_wildcards p ≡ false
    → (match_topic topic (p ++ slash ∷ hash ∷ []) ≡ ok true)
      ↔ ((topic ≡ p) ⊎ ((q : List ℕ) × (topic ≡ p ++ slash ∷ q)))
match_topic-below topic p pl t f = (to, from)
  where
    computed :
        match_topic topic (p ++ slash ∷ hash ∷ [])
        ≡ ok (match_levels (split topic) (split p ++ (hash ∷ []) ∷ []))
    computed =
        plain-match_topic topic (p ++ slash ∷ hash ∷ []) pl
        ∙ ap (λ fs. ok (match_levels (split topic) fs)) (hash_filter p)

    to :
        match_topic topic (p ++ slash ∷ hash ∷ []) ≡ ok true
        → (topic ≡ p) ⊎ ((q : List ℕ) × (topic ≡ p ++ slash ∷ q))
    to e =
        let (below, same) =
          levels_prefix (split topic) (split p) (wildcards_split p f) (ground (arith, computed)) in
        below_of_levels topic p below same

    from :
        (topic ≡ p) ⊎ ((q : List ℕ) × (topic ≡ p ++ slash ∷ q))
        → match_topic topic (p ++ slash ∷ hash ∷ []) ≡ ok true
    from h =
        let (below, same) = levels_of_below topic p h in
        computed
        ∙ ap ok (
            ap (λ ts. match_levels ts (split p ++ (hash ∷ []) ∷ [])) same
            ∙ prefix_levels (split p) below (rw (← same) (wildcards_split topic t).0)
                (wildcards_split p f))

-- Of the topics that are not empty, `match_topic` panics exactly on those that begin with an octet
-- outside ASCII.
pub match_topic-panic :
    (c : ℕ) (cs filter : List ℕ) → (match_topic (c ∷ cs) filter ≡ panic) ↔ (0x80 ≤ c)
unfolding match_topic
match_topic-panic c cs filter = ground arith
