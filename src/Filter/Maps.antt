-- ===== src/Filter/Maps.antt =====
-- The maps CONCRETE_TOPICS, WILDCARD_TOPICS and WILDCARD_FILTERS of lib/broker-lib/src/filter.rs and
-- the functions on them.
use rust_mqtt_sn.Prelude.{
  ℕ, ◌≡◌, ◌&&◌, Bool, true, false, List, [], ◌∷◌, ◌++◌, leb, ◌==◌, nat_eq, list_eq, if◌then◌else◌,
}
use rust_mqtt_sn.Outcome.{invalid_filter}
use rust_mqtt_sn.Exec.{Exec, pure, raise, lift, gets, modify, ◌>>=◌, ◌>>◌}
use rust_mqtt_sn.Bisetmap.{BisetMaps}
use rust_mqtt_sn.Filter.{has_wildcards, valid_filter, match_topic, is_empty}

-- `Vec::sort` of addresses, and `Vec::dedup`, which drops an element that equals the one before it.
abbrev pub sort_in : ℕ → List ℕ → List ℕ
sort_in x [] = x ∷ []
sort_in x (y ∷ ys) = let rest = sort_in x ys in if leb x y then x ∷ y ∷ ys else y ∷ rest

unfoldable pub sort : List ℕ → List ℕ
sort [] = []
sort (x ∷ xs) = sort_in x (sort xs)

abbrev pub dedup_after : ℕ → List ℕ → List ℕ
dedup_after x [] = []
dedup_after x (y ∷ ys) = let rest = dedup_after y ys in if x == y then rest else y ∷ rest

unfoldable pub dedup : List ℕ → List ℕ
dedup [] = []
dedup (x ∷ xs) = x ∷ dedup_after x xs

module _ ⦃B : BisetMaps⦄ where
  pub record Maps : Type 0 where
    pub concrete_topics : B.Map (List ℕ) ℕ
    pub wildcard_topics : B.Map (List ℕ) ℕ
    pub wildcard_filters : B.Map (List ℕ) ℕ

  unfoldable pub insert_filter : List ℕ → ℕ → Exec Maps (Unit {0})
  insert_filter filter addr =
      if valid_filter filter
      then (if has_wildcards filter
          then modify (λ s. record s { wildcard_filters = B.insert s.wildcard_filters filter addr })
          else modify (λ s. record s { concrete_topics = B.insert s.concrete_topics filter addr }))
      else raise invalid_filter

  unfoldable pub delete_filter : ℕ → Maps → Maps
  delete_filter addr s = record {
    concrete_topics = B.rev_delete s.concrete_topics addr;
    wildcard_topics = B.rev_delete s.wildcard_topics addr;
    wildcard_filters = B.rev_delete s.wildcard_filters addr;
  }

  unfoldable pub match_concrete_topics : List ℕ → Maps → List ℕ
  match_concrete_topics topic s = B.get s.concrete_topics topic

  -- The addresses of a filter that matches.
  unfoldable pub insert_each : List ℕ → List ℕ → Maps → Maps
  insert_each topic [] s = s
  insert_each topic (addr ∷ addrs) s =
      insert_each topic addrs (record s { wildcard_topics = B.insert s.wildcard_topics topic addr })

  abbrev pub insert_if : Bool → List ℕ → List ℕ → Maps → Maps
  insert_if true topic addrs s = insert_each topic addrs s
  insert_if false topic addrs s = s

  -- The loop over the filters.
  unfoldable pub insert_matching : List ℕ → List (List ℕ × List ℕ) → Exec Maps (Unit {0})
  insert_matching topic [] = pure tt
  insert_matching topic ((filter, addrs) ∷ filters) = do
    matches ← lift (match_topic topic filter)
    modify (insert_if matches topic addrs)
    insert_matching topic filters

  unfoldable pub match_topics : List ℕ → Exec Maps (List ℕ)
  unfolding insert_matching
  match_topics topic s =
      let look : Exec Maps (Unit {0}) =
        if is_empty (B.get s.wildcard_topics topic)
        then insert_matching topic (B.collect s.wildcard_filters)
        else pure tt in
      (look
          >> gets (λ s'.
            dedup (sort (B.get s'.concrete_topics topic ++ B.get s'.wildcard_topics topic))))
        s

  -- The struct `Filter2` has the concrete topics alone.
  pub record Filter2 : Type 0 where
    pub concrete_topics : B.Map (List ℕ) ℕ

  unfoldable pub new_filter2 : Filter2
  new_filter2 = record { concrete_topics = B.new }

  unfoldable pub insert_topic : List ℕ → ℕ → Filter2 → Filter2
  insert_topic topic addr f = record { concrete_topics = B.insert f.concrete_topics topic addr }

  -- What an address has subscribed to in it.
  insert_topic-contains :
      (topic u : List ℕ) (addr a : ℕ) (f : Filter2)
      → B.contains (insert_topic topic addr f).concrete_topics u a
        ≡ (if (topic == u) && (addr == a) then true else B.contains f.concrete_topics u a)
  unfolding insert_topic
  insert_topic-contains topic u addr a f = B.contains-insert f.concrete_topics topic addr u a
