-- ===== src/Filter/MapMatches.antt =====
-- Whom `match_topics` of lib/broker-lib/src/filter.rs finds.
use rust_mqtt_sn.Prelude.{
  ℕ, ◌<◌, ◌≡◌, ◌⊎◌, ◌↔◌, inl, inr, refl, Bool, true, false, ◌&&◌, ◌||◌, List, [], ◌∷◌, ◌++◌, arith,
  ◌==◌, nat_eq, list_eq, elem, if◌then◌else◌, Bool-cases, ap, ◌∙◌, sym, eq_refl, eq_of_true,
}
use rust_mqtt_sn.Outcome.{Outcome, ok, err, panic}
use rust_mqtt_sn.Bisetmap.{BisetMaps, holds}
use rust_mqtt_sn.Filter.{match_topic}
use rust_mqtt_sn.Filter.Matches.{IsComparable, comparable}
use rust_mqtt_sn.Filter.Maps.{Maps, sort, dedup, insert_each, insert_matching, match_topics}
use rust_mqtt_sn.Filter.Sorted.{
  elem-sort, elem-dedup, elem-append, sort-IsSorted, dedup-IsRising, IsRising,
}

-- Whether a filter that matches the topic has the address.
abbrev is_true : Outcome Bool → Bool
is_true (ok m) = m
is_true (err e) = false
is_true panic = false

matched : List ℕ → ℕ → List (List ℕ × List ℕ) → Bool
matched topic a [] = false
matched topic a ((filter, addrs) ∷ filters) =
    (is_true (match_topic topic filter) && elem a addrs) || matched topic a filters

-- A filter that has the address and matches the topic.
abbrev pub Finds : List ℕ → (List ℕ → Bool) → Type 0
Finds topic has = (filter : List ℕ) × (has filter ≡ true) × (match_topic topic filter ≡ ok true)

true_of_is_true : (r : Outcome Bool) → is_true r ≡ true → r ≡ ok true
true_of_is_true (ok m) h = ap ok h
true_of_is_true (err e) h = absurd cc
true_of_is_true panic h = absurd cc

matched-Finds :
    (topic : List ℕ) (a : ℕ) (groups : List (List ℕ × List ℕ))
    → matched topic a groups ≡ true
    → Finds topic (λ f. holds f a groups)
unfolding matched
matched-Finds topic a [] h = absurd cc
matched-Finds topic a ((f, ys) ∷ groups) h =
    elim (Bool-cases (is_true (match_topic topic f) && elem a ys)) [
      | inl here ↦ (
        f,
        ground (arith, here, eq_refl f),
        true_of_is_true (match_topic topic f) (ground (arith, here)),
      )
      | inr there ↦
          let (g, has, m) = matched-Finds topic a groups (ground (arith, there, h)) in
          (g, ground (arith, has), m)
    ]

Finds-matched :
    (topic : List ℕ) (a : ℕ) (groups : List (List ℕ × List ℕ))
    → Finds topic (λ f. holds f a groups)
    → matched topic a groups ≡ true
unfolding matched
Finds-matched topic a [] (g, has, m) = absurd cc
Finds-matched topic a ((f, ys) ∷ groups) (g, has, m) = elim (Bool-cases ((f == g) && elem a ys)) [
  | inl here ↦
      let same : f ≡ g = eq_of_true f g (ground (arith, here)) in
      let m' : match_topic topic f ≡ ok true = ap (match_topic topic) same ∙ m in
      ground (arith, here, m')
  | inr there ↦ ground (arith, Finds-matched topic a groups (g, ground (arith, has, there), m))
]

module _ ⦃B : BisetMaps⦄ where
  insert_each-contains :
      (topic addrs : List ℕ) (s : Maps) (a : ℕ)
      → (B.contains (insert_each topic addrs s).wildcard_topics topic a
          ≡ (if elem a addrs then true else B.contains s.wildcard_topics topic a))
        × ((insert_each topic addrs s).concrete_topics ≡ s.concrete_topics)
  unfolding insert_each
  insert_each-contains topic [] s a = (refl, refl)
  insert_each-contains topic (x ∷ xs) s a =
      let s1 : Maps = record s { wildcard_topics = B.insert s.wildcard_topics topic x } in
      let (later, same) = insert_each-contains topic xs s1 a in
      (
        later ∙ ground (arith, B.contains-insert s.wildcard_topics topic x topic a, eq_refl topic),
        same,
      )

  insert_matching-contains :
      (topic : List ℕ) (groups : List (List ℕ × List ℕ)) (s : Maps) (a : ℕ)
      → IsComparable topic
      → ((insert_matching topic groups s).0 ≡ ok tt)
        × (B.contains (insert_matching topic groups s).1.wildcard_topics topic a
            ≡ (if matched topic a groups then true else B.contains s.wildcard_topics topic a))
        × ((insert_matching topic groups s).1.concrete_topics ≡ s.concrete_topics)
  unfolding insert_matching matched
  insert_matching-contains topic [] s a c = (refl, refl, refl)
  insert_matching-contains topic ((f, ys) ∷ groups) s a c =
      let (m, e) = c f in
      elim (Bool-cases m) [
        | inl hit ↦
            let (one, same) = insert_each-contains topic ys s a in
            let (fine, more, same') =
              insert_matching-contains topic groups (insert_each topic ys s) a c in
            rw (e, hit) (fine, more ∙ ground (arith, one), same' ∙ same)
        | inr miss ↦ rw (e, miss) (insert_matching-contains topic groups s a c)
      ]

  elem-found :
      (topic : List ℕ) (s : Maps) (a : ℕ)
      → elem a (dedup (sort (B.get s.concrete_topics topic ++ B.get s.wildcard_topics topic))) ≡ (
          if B.contains s.concrete_topics topic a
          then true
          else B.contains s.wildcard_topics topic a)
  elem-found topic s a =
      let xs = B.get s.concrete_topics topic in
      let ys = B.get s.wildcard_topics topic in
      elem-dedup a (sort (xs ++ ys))
      ∙ elem-sort a (xs ++ ys)
      ∙ elem-append a xs ys
      ∙ rw (B.elem-get s.concrete_topics topic a, B.elem-get s.wildcard_topics topic a) refl

  -- What the loop finds, as it is written: matched in the collected map.
  collected :
      (topic : List ℕ) (s : Maps) (a : ℕ)
      → (matched topic a (B.collect s.wildcard_filters) ≡ true)
        ↔ Finds topic (λ f. B.contains s.wildcard_filters f a)
  collected topic s a = (
    λ h.
        let (f, has, m) = matched-Finds topic a (B.collect s.wildcard_filters) h in
        (f, sym (B.holds-collect s.wildcard_filters f a) ∙ has, m),
    λ (f, has, m).
        Finds-matched topic a (B.collect s.wildcard_filters)
          (f, B.holds-collect s.wildcard_filters f a ∙ has, m),
  )

  -- For a topic that begins with an ASCII character and for which nothing is kept yet, `match_topics`
  -- returns the addresses that have subscribed to the topic itself or to a filter that matches it, and
  -- no others, each once and in increasing order.
  pub match_topics-Finds :
      (c : ℕ) (cs : List ℕ) (s : Maps) (a : ℕ)
      → c < 128
      → B.get s.wildcard_topics (c ∷ cs) ≡ []
      → (addrs : List ℕ) × ((match_topics (c ∷ cs) s).0 ≡ ok addrs)
        × IsRising addrs
        × ((elem a addrs ≡ true) ↔ (
            (B.contains s.concrete_topics (c ∷ cs) a ≡ true)
            ⊎ Finds (c ∷ cs) (λ f. B.contains s.wildcard_filters f a)))
  unfolding match_topics
  match_topics-Finds c cs s a l unknown =
      let topic = c ∷ cs in
      let groups = B.collect s.wildcard_filters in
      let (fine, kept, same) = insert_matching-contains topic groups s a (comparable c cs l) in
      let s' = (insert_matching topic groups s).1 in
      let nothing : B.contains s.wildcard_topics topic a ≡ false =
        sym (B.elem-get s.wildcard_topics topic a) ∙ ap (elem a) unknown in
      let all = B.get s'.concrete_topics topic ++ B.get s'.wildcard_topics topic in
      let found : elem a (dedup (sort all))
          ≡ (if B.contains s.concrete_topics topic a then true else matched topic a groups) =
        elem-found topic s' a
        ∙ ground (arith, kept, nothing, ap (λ m. B.contains m topic a) same) in
      (
        dedup (sort all),
        rw (unknown, fine) refl,
        dedup-IsRising 0 (sort all) (sort-IsSorted all),
        (
          λ h. elim (Bool-cases (B.contains s.concrete_topics topic a)) [
            | inl own ↦ inl own
            | inr other ↦ inr ((collected topic s a).0 (ground (arith, h, found, other)))
          ],
          λ h. elim h [
            | inl own ↦ found ∙ rw own refl
            | inr finds ↦ found ∙ ground (arith, (collected topic s a).1 finds)
          ],
        ),
      )
