-- ===== src/Filter/Sets.antt =====
-- The struct `Filter` of lib/broker-lib/src/filter.rs. Its maps hold shared sets, `Arc<Mutex<HashSet>>`,
-- and a topic can share the set of a filter: the maps hold references, and a store the sets. A set is
-- the list of its members. The list of the filters is in the order in which the map is run through,
-- which the documentation of HashMap leaves open.
use rust_mqtt_sn.Prelude.{
  ℕ, ◌+◌, Bool, true, false, Option, none, some, List, [], ◌∷◌, ◌++◌, elem, ◌==◌, nat_eq, list_eq,
  put, empty_map, if◌then◌else◌,
}
use rust_mqtt_sn.Outcome.{ok, err, duplicate, invalid_filter}
use rust_mqtt_sn.Exec.{Exec, pure, raise, lift, gets, modify, ◌>>=◌, ◌>>◌}
use rust_mqtt_sn.Filter.{has_wildcards, valid_filter, match_topic, is_empty}

pub record Filter : Type 0 where
  pub wildcard_topics : List ℕ → Option ℕ
  pub wildcard_filters : List (List ℕ × ℕ)
  pub concrete_topics : List ℕ → Option ℕ
  pub id_topics : ℕ → Option ℕ
  pub sets : ℕ → List ℕ
  -- The next reference that is not in use.
  pub fresh : ℕ

unfoldable pub new : Filter
new = record {
  wildcard_topics = empty_map;
  wildcard_filters = [];
  concrete_topics = empty_map;
  id_topics = empty_map;
  sets = λ r. [];
  fresh = 0;
}

abbrev pub store : (ℕ → List ℕ) → ℕ → List ℕ → ℕ → List ℕ
store sets r members q = if r == q then members else sets q

abbrev pub find_filter : List ℕ → List (List ℕ × ℕ) → Option ℕ
find_filter filter [] = none
find_filter filter ((f, r) ∷ filters) = if f == filter then some r else find_filter filter filters

-- `Arc::new(Mutex::new(HashSet::new()))`
abbrev pub fresh_set : Filter → Filter
fresh_set s = record s { sets = store s.sets s.fresh []; fresh = s.fresh + 1 }

-- `entry(..).or_insert(..)`, which returns the set, for an entry that is there or not.
abbrev pub or_insert : Option ℕ → (ℕ → Filter → Filter) → Exec Filter ℕ
or_insert (some r) put_in s = (ok r, s)
or_insert none put_in s = (ok s.fresh, put_in s.fresh (fresh_set s))

abbrev pub put_concrete : List ℕ → ℕ → Filter → Filter
put_concrete topic r s = record s { concrete_topics = put s.concrete_topics topic r }

abbrev pub put_id : ℕ → ℕ → Filter → Filter
put_id id r s = record s { id_topics = put s.id_topics id r }

abbrev pub put_wildcard : List ℕ → ℕ → Filter → Filter
put_wildcard filter r s = record s { wildcard_filters = s.wildcard_filters ++ ((filter, r) ∷ []) }

unfoldable pub concrete_entry : List ℕ → Exec Filter ℕ
concrete_entry topic s = or_insert (s.concrete_topics topic) (put_concrete topic) s

unfoldable pub id_entry : ℕ → Exec Filter ℕ
id_entry id s = or_insert (s.id_topics id) (put_id id) s

unfoldable pub wildcard_entry : List ℕ → Exec Filter ℕ
wildcard_entry filter s = or_insert (find_filter filter s.wildcard_filters) (put_wildcard filter) s

-- `HashSet::insert`, which is an error for a member here.
unfoldable pub add_member : ℕ → ℕ → Exec Filter (Unit {0})
add_member addr r s =
    if elem addr (s.sets r)
    then (err duplicate, s)
    else (ok tt, record s { sets = store s.sets r (addr ∷ s.sets r) })

unfoldable pub insert_id_topic : ℕ → ℕ → Exec Filter (Unit {0})
insert_id_topic id addr = id_entry id >>= add_member addr

unfoldable pub insert : List ℕ → ℕ → Exec Filter (Unit {0})
insert filter addr =
    if valid_filter filter
    then (if has_wildcards filter
        then wildcard_entry filter >>= add_member addr
        else concrete_entry filter >>= add_member addr)
    else raise invalid_filter

-- What a reference stands for.
abbrev pub members : Option ℕ → (ℕ → List ℕ) → Option (List ℕ)
members none sets = none
members (some r) sets = some (sets r)

unfoldable pub match_topic_id : ℕ → Exec Filter (Option (List ℕ))
match_topic_id id s = (ok (members (s.id_topics id) s.sets), s)

unfoldable pub match_topic_concrete : List ℕ → Exec Filter (Option (List ℕ))
match_topic_concrete topic s = (ok (members (s.concrete_topics topic) s.sets), s)

abbrev pub share_if : Bool → List ℕ → ℕ → Filter → Filter
share_if true topic r s = record s { wildcard_topics = put s.wildcard_topics topic r }
share_if false topic r s = s

-- The loop over the filters: the topic shares the set of each that matches it, so the last one's stays.
unfoldable pub share_matching : List ℕ → List (List ℕ × ℕ) → Exec Filter (Unit {0})
share_matching topic [] = pure tt
share_matching topic ((filter, r) ∷ filters) = do
  matches ← lift (match_topic topic filter)
  modify (share_if matches topic r)
  share_matching topic filters

unfoldable pub match_topic_wildcard : List ℕ → Exec Filter (Option (List ℕ))
unfolding share_matching
match_topic_wildcard topic s = elim (s.wildcard_topics topic) [
  | some r ↦ (ok (some (s.sets r)), s)
  | none ↦
      if has_wildcards topic
      then (ok none, s)
      else (share_matching topic s.wildcard_filters
            >> gets (λ s. members (s.wildcard_topics topic) s.sets))
          s
]

-- `HashSet::extend`
abbrev pub extend : List ℕ → List ℕ → List ℕ
extend set [] = set
extend set (addr ∷ addrs) = extend (if elem addr set then set else addr ∷ set) addrs

abbrev pub found : Option (List ℕ) → List ℕ
found none = []
found (some set) = set

-- The method `match_topic`. The sets that the loop shares are not in its own result.
unfoldable pub match_both : List ℕ → Exec Filter (Option (List ℕ))
unfolding share_matching
match_both topic s =
    if has_wildcards topic
    then (ok none, s)
    else (do
      let wildcard_set : List ℕ = found (members (s.wildcard_topics topic) s.sets)
      elim (s.wildcard_topics topic) [
        | some r ↦ pure tt
        | none ↦ share_matching topic s.wildcard_filters
      ]
      concrete ← gets (λ s'. members (s'.concrete_topics topic) s'.sets)
      let all : List ℕ = extend (extend [] wildcard_set) (found concrete)
      pure (if is_empty all then none else some all))
        s

-- FILTERS is a global `Filter`.
unfoldable pub global_filter_insert : List ℕ → ℕ → Exec Filter (Unit {0})
global_filter_insert filter addr = insert filter addr
