-- ===== src/Filter/Matches.antt =====
-- What `match_topic_wildcard` and `match_topic` of the struct `Filter` of
-- lib/broker-lib/src/filter.rs find.
use rust_mqtt_sn.Prelude.{
  ℕ, ◌<◌, ◌≡◌, ◌≢◌, refl, Bool, true, false, Option, none, some, List, [], ◌∷◌, elem, ◌==◌, nat_eq,
  list_eq, if◌then◌else◌, Bool-cases, inl, inr, arith, subst, sym, ap, ◌∙◌, Option-cases, eq_refl,
  eq_of_true, ne_of_false, ◌&&◌,
}
use rust_mqtt_sn.Outcome.{ok, err, panic}
use rust_mqtt_sn.Exec.{lift, modify}
use rust_mqtt_sn.Exec.Keeps.{Keeps, Keeps-pure, Keeps-lift, Keeps-bind, Keeps-then, Keeps-gets}
use rust_mqtt_sn.Filter.{has_wildcards, valid_filter, match_topic, match_levels, split, dollar}
use rust_mqtt_sn.Filter.Sets.{
  Filter, members, found, share_if, share_matching, match_topic_wildcard, insert,
}
use rust_mqtt_sn.Filter.Sharing.{Name, concrete, wildcard, by_id, ref, subscribers, IsSeparate}
use rust_mqtt_sn.Filter.Subscribing.{IsSubscribed, name_of, insert-IsSubscribed}

-- The last filter in the order of the map that matches a topic, if it was `old` before.
abbrev pub last_match : List ℕ → List (List ℕ × ℕ) → Option ℕ → Option ℕ
last_match topic [] old = old
last_match topic ((filter, r) ∷ filters) old =
    last_match topic filters (elim (match_topic topic filter) [
      | ok m ↦ if m then some r else old
      | err e ↦ old
      | panic ↦ old
    ])

-- The topic begins with a whole character, so that it can be compared with any filter.
abbrev pub IsComparable : List ℕ → Type 0
IsComparable topic = (filter : List ℕ) → (m : Bool) × (match_topic topic filter ≡ ok m)

share_matching-last :
    (topic : List ℕ) (filters : List (List ℕ × ℕ)) (s : Filter)
    → IsComparable topic
    → ((share_matching topic filters s).0 ≡ ok tt)
      × ((share_matching topic filters s).1.wildcard_topics topic
          ≡ last_match topic filters (s.wildcard_topics topic))
      × ((share_matching topic filters s).1.sets ≡ s.sets)
      × ((share_matching topic filters s).1.concrete_topics ≡ s.concrete_topics)
unfolding share_matching
share_matching-last topic [] s c = (refl, refl, refl, refl)
share_matching-last topic ((filter, r) ∷ filters) s c =
    let (m, e) = c filter in
    elim (Bool-cases m) [
      | inl hit ↦
          let s1 : Filter = share_if true topic r s in
          let (fine, last, sets, same) = share_matching-last topic filters s1 c in
          let own : s1.wildcard_topics topic ≡ some r = rw (eq_refl topic) refl in
          rw (e, hit) (fine, last ∙ ap (last_match topic filters) own, sets, same)
      | inr miss ↦ rw (e, miss) (share_matching-last topic filters s c)
    ]

pub comparable : (c : ℕ) (cs : List ℕ) → c < 128 → IsComparable (c ∷ cs)
unfolding match_topic
comparable c cs l filter = elim (Bool-cases (c == dollar)) [
  | inl hidden ↦ (false, ground (arith, hidden))
  | inr seen ↦ (match_levels (split (c ∷ cs)) (split filter), ground (arith, seen))
]

-- The first lookup of a topic without wildcards that begins with an ASCII character finds the
-- subscribers of one filter that matches it, the last one in the order of the map, and nothing if none
-- matches; later lookups share that filter's set.
pub match_topic_wildcard-last :
    (c : ℕ) (cs : List ℕ) (s : Filter)
    → c < 128
    → has_wildcards (c ∷ cs) ≡ false
    → s.wildcard_topics (c ∷ cs) ≡ none
    → ((match_topic_wildcard (c ∷ cs) s).0
        ≡ ok (members (last_match (c ∷ cs) s.wildcard_filters none) s.sets))
      × ((match_topic_wildcard (c ∷ cs) s).1.wildcard_topics (c ∷ cs)
          ≡ last_match (c ∷ cs) s.wildcard_filters none)
unfolding match_topic_wildcard
match_topic_wildcard-last c cs s l plain absent =
    let topic = c ∷ cs in
    let (fine, last, sets, same) =
      share_matching-last topic s.wildcard_filters s (comparable c cs l) in
    let s1 = (share_matching topic s.wildcard_filters s).1 in
    let last' = last ∙ ap (last_match topic s.wildcard_filters) absent in
    rw (match_topic_wildcard, absent, plain, fine)
      (
        ap (λ o. ok (members o s1.sets)) last'
            ∙ ap (λ x. ok (members (last_match topic s.wildcard_filters none) x)) sets,
        last',
      )

ref-share_if :
    (matches : Bool) (topic : List ℕ) (r : ℕ) (s : Filter) (name : Name)
    → ref (share_if matches topic r s) name ≡ ref s name
ref-share_if true topic r s (concrete t) = refl
ref-share_if true topic r s (wildcard f) = refl
ref-share_if true topic r s (by_id i) = refl
ref-share_if false topic r s name = refl

share_if-fresh :
    (matches : Bool) (topic : List ℕ) (r : ℕ) (s : Filter)
    → (share_if matches topic r s).fresh ≡ s.fresh
share_if-fresh true topic r s = refl
share_if-fresh false topic r s = refl

share_if-IsSeparate :
    (matches : Bool) (topic : List ℕ) (r : ℕ) → Keeps IsSeparate (modify (share_if matches topic r))
share_if-IsSeparate matches topic r = record {
  at = λ s i.
      let back = λ (m : Name) (q : ℕ) (held : ref (share_if matches topic r s) m ≡ some q).
        sym (ref-share_if matches topic r s m) ∙ held in
      record {
        below = λ m q held.
            subst (λ n. q < n) (sym (share_if-fresh matches topic r s))
              (i.below m q (back m q held));
        apart = λ m n q h k. i.apart m n q (back m q h) (back n q k);
      };
}

share_matching-IsSeparate :
    (topic : List ℕ) (filters : List (List ℕ × ℕ)) → Keeps IsSeparate (share_matching topic filters)
unfolding share_matching
share_matching-IsSeparate topic [] = Keeps-pure tt
share_matching-IsSeparate topic ((filter, r) ∷ filters) =
    Keeps-bind (lift (match_topic topic filter)) _ (Keeps-lift (match_topic topic filter))
      (λ matches.
        Keeps-then (modify (share_if matches topic r)) (share_matching topic filters)
          (share_if-IsSeparate matches topic r) (share_matching-IsSeparate topic filters))

-- A lookup, whatever it finds and even if it panics, leaves each name a set of its own.
pub match_topic_wildcard-IsSeparate :
    (topic : List ℕ) (s : Filter) → IsSeparate s → IsSeparate ((match_topic_wildcard topic s).1)
unfolding match_topic_wildcard
match_topic_wildcard-IsSeparate topic s i = elim (Option-cases (s.wildcard_topics topic)) [
  | inr (r, e) ↦ rw (match_topic_wildcard, e) i
  | inl e ↦ elim (Bool-cases (has_wildcards topic)) [
    | inl wild ↦ rw (match_topic_wildcard, e, wild) i
    | inr plain ↦
        rw (match_topic_wildcard, e, plain)
          ((Keeps-then _ _ (share_matching-IsSeparate topic s.wildcard_filters) (Keeps-gets _)).at s
            i)
  ]
]

-- A lookup of a topic that shares the set of the filter `f`.
match_topic_wildcard-shared :
    (topic f : List ℕ) (r : ℕ) (s : Filter)
    → s.wildcard_topics topic ≡ some r
    → ref s (wildcard f) ≡ some r
    → (match_topic_wildcard topic s).0 ≡ ok (some (subscribers s (wildcard f)))
unfolding match_topic_wildcard
match_topic_wildcard-shared topic f r s e k =
    rw (match_topic_wildcard, e) (ap (λ o. ok (some (found (members o s.sets)))) (sym k))

-- What a subscription to `g` makes of the subscribers of the filter `f`.
subscribed-wildcard :
    (f g : List ℕ) (addr a : ℕ) (s s' : Filter)
    → IsSubscribed (name_of g) addr s s'
    → elem a (subscribers s' (wildcard f)) ≡ (
        if (has_wildcards g && (g == f)) && (a == addr)
        then true
        else elem a (subscribers s (wildcard f)))
subscribed-wildcard f g addr a s s' d = elim (Bool-cases (has_wildcards g)) [
  | inl wild ↦ elim (Bool-cases (g == f)) [
    | inl same ↦
        let n : name_of g ≡ wildcard f = rw wild (ap wildcard (eq_of_true g f same)) in
        subst
          (λ m. elem a (subscribers s' m) ≡ (if a == addr then true else elem a (subscribers s m)))
          n (d.here a)
        ∙ rw (wild, same) refl
    | inr apart ↦
        let n : wildcard f ≢ name_of g = rw wild (λ p. ne_of_false g f apart cc) in
        ap (elem a) (d.there (wildcard f) n) ∙ rw (wild, apart) refl
  ]
  | inr plain ↦
      let n : wildcard f ≢ name_of g = rw plain (λ p. cc) in
      ap (elem a) (d.there (wildcard f) n) ∙ rw plain refl
]

-- If each name has a set of its own, a topic that shares the set of the filter `f` finds, after any
-- `insert`, the subscribers of `f` and nobody else: the address that was inserted exactly if it was
-- inserted for `f`, whether the topic matches the other filter or not.
pub insert-shared :
    (topic f g : List ℕ) (addr a r : ℕ) (s : Filter)
    → IsSeparate s
    → s.wildcard_topics topic ≡ some r
    → ref s (wildcard f) ≡ some r
    → ((match_topic_wildcard topic (insert g addr s).1).0
        ≡ ok (some (subscribers (insert g addr s).1 (wildcard f))))
      × (elem a (subscribers (insert g addr s).1 (wildcard f)) ≡ (
          if valid_filter g && ((has_wildcards g && (g == f)) && (a == addr))
          then true
          else elem a (subscribers s (wildcard f))))
insert-shared topic f g addr a r s i shares of_f =
    let (result, changed) = insert-IsSubscribed g addr s i in
    let s' = (insert g addr s).1 in
    elim (Bool-cases (valid_filter g)) [
      | inr invalid ↦
          let same : s' ≡ s = rw invalid at changed in
          (
            subst (λ x. (match_topic_wildcard topic x).0 ≡ ok (some (subscribers x (wildcard f))))
                (sym same) (match_topic_wildcard-shared topic f r s shares of_f),
            ap (λ x. elem a (subscribers x (wildcard f))) same ∙ rw invalid refl,
          )
      | inl valid ↦
          let d : IsSubscribed (name_of g) addr s s' = rw valid at changed in
          let shares' = ap (λ t. t topic) d.topics ∙ shares in
          (
            match_topic_wildcard-shared topic f r s' shares' (d.kept (wildcard f) r of_f),
            subscribed-wildcard f g addr a s s' d ∙ rw valid refl,
          )
    ]
