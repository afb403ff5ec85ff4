-- ===== src/Tests/Filters.antt =====
-- The properties of the struct `Filter` at one with a subscription to `a/#`.
use rust_mqtt_sn.Prelude.{
  ℕ, ◌≡◌, refl, false, none, some, List, [], ◌∷◌, elem, arith, nat_eq, list_eq,
}
use rust_mqtt_sn.Outcome.{ok}
use rust_mqtt_sn.Filter.{has_wildcards, valid_filter, match_topic}
use rust_mqtt_sn.Filter.Sets.{Filter, new, insert, wildcard_entry, add_member, match_topic_wildcard}
use rust_mqtt_sn.Filter.Sharing.{wildcard, ref, subscribers, IsSeparate, new-IsSeparate}
use rust_mqtt_sn.Filter.Subscribing.{IsSubscribed, insert-IsSubscribed}
use rust_mqtt_sn.Prelude.{◌↔◌, ◌⊎◌, true}
use rust_mqtt_sn.Bisetmap.Pairs.{pairs}
use rust_mqtt_sn.Filter.Maps.{Maps, match_topics}
use rust_mqtt_sn.Filter.MapMatches.{Finds, match_topics-Finds}
use rust_mqtt_sn.Filter.Sorted.{IsRising}
use rust_mqtt_sn.Filter.Matches.{
  match_topic_wildcard-last, match_topic_wildcard-IsSeparate, insert-shared,
}

-- `a/#`, `a/b/#` and `a/b`
abbrev a_hash : List ℕ
a_hash = 97 ∷ 47 ∷ 35 ∷ []

abbrev a_b_hash : List ℕ
a_b_hash = 97 ∷ 47 ∷ 98 ∷ 47 ∷ 35 ∷ []

abbrev a_b : List ℕ
a_b = 97 ∷ 47 ∷ 98 ∷ []

abbrev one : Filter
one = (insert a_hash 7 new).1

abbrev looked_up : Filter
looked_up = (match_topic_wildcard a_b one).1

insert-IsSubscribed_example :
    ((insert a_hash 7 new).0 ≡ ok tt) × IsSubscribed (wildcard a_hash) 7 new one
unfolding valid_filter has_wildcards new
insert-IsSubscribed_example = insert-IsSubscribed a_hash 7 new new-IsSeparate

one-uncached : one.wildcard_topics a_b ≡ none
unfolding insert wildcard_entry add_member new valid_filter has_wildcards
one-uncached = refl

match_topic_wildcard-last_example :
    ((match_topic_wildcard a_b one).0 ≡ ok (some (7 ∷ [])))
    × (looked_up.wildcard_topics a_b ≡ some 0)
unfolding insert wildcard_entry add_member new valid_filter has_wildcards match_topic
match_topic_wildcard-last_example =
    match_topic_wildcard-last 97 (47 ∷ 98 ∷ []) one (omega arith) refl one-uncached

one-IsSeparate : IsSeparate one
unfolding valid_filter has_wildcards
one-IsSeparate = (insert-IsSubscribed a_hash 7 new new-IsSeparate).1.separate

looked_up-IsSeparate : IsSeparate looked_up
looked_up-IsSeparate = match_topic_wildcard-IsSeparate a_b one one-IsSeparate

looked_up-shares :
    (looked_up.wildcard_topics a_b ≡ some 0) × (ref looked_up (wildcard a_hash) ≡ some 0)
unfolding insert wildcard_entry add_member new valid_filter has_wildcards match_topic_wildcard
    match_topic
looked_up-shares = (refl, refl)

-- `a/b/#` matches the topic too.
insert-shared_example :
    ((match_topic_wildcard a_b (insert a_b_hash 8 looked_up).1).0
      ≡ ok (some (subscribers (insert a_b_hash 8 looked_up).1 (wildcard a_hash))))
    × (elem 8 (subscribers (insert a_b_hash 8 looked_up).1 (wildcard a_hash)) ≡ false)
unfolding insert wildcard_entry add_member new valid_filter has_wildcards match_topic_wildcard
    match_topic
insert-shared_example =
    insert-shared a_b a_hash a_b_hash 8 8 0 looked_up looked_up-IsSeparate looked_up-shares.0
      looked_up-shares.1

-- The address 8 has subscribed to `a/b`, and 7 to `a/#`.
abbrev maps : Maps
maps = record {
  concrete_topics = (a_b, 8) ∷ [];
  wildcard_topics = [];
  wildcard_filters = (a_hash, 7) ∷ [];
}

match_topics-Finds_example :
    (addrs : List ℕ) × ((match_topics a_b maps).0 ≡ ok addrs)
    × IsRising addrs
    × ((elem 7 addrs ≡ true) ↔ (
        (pairs.contains maps.concrete_topics a_b 7 ≡ true)
        ⊎ Finds a_b (λ f. pairs.contains maps.wildcard_filters f 7)))
match_topics-Finds_example = match_topics-Finds 97 (47 ∷ 98 ∷ []) maps 7 (omega arith) refl
