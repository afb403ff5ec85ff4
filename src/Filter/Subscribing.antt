-- ===== src/Filter/Subscribing.antt =====
-- What `insert` and `insert_id_topic` of the struct `Filter` of lib/broker-lib/src/filter.rs do to the
-- subscriptions, and what a topic that shares the set of a filter finds afterwards.
use rust_mqtt_sn.Prelude.{
  ℕ, ◌≡◌, ◌≢◌, refl, true, false, Option, none, some, List, ◌∷◌, elem, ◌==◌, nat_eq, list_eq,
  if◌then◌else◌, Bool-cases, inl, inr, arith, subst, sym, ap, ◌∙◌, eq_refl, eq_of_true,
}
use rust_mqtt_sn.Outcome.{ok, err, duplicate, invalid_filter}
use rust_mqtt_sn.Exec.{◌>>=◌}
use rust_mqtt_sn.Filter.{has_wildcards, valid_filter}
use rust_mqtt_sn.Filter.Sets.{
  Filter, store, add_member, insert, insert_id_topic, members, found, or_insert,
}
use rust_mqtt_sn.Filter.Sharing.{
  Name, concrete, wildcard, by_id, ref, subscribers, IsSeparate, IsEntered, entry, put_name,
  entry_lem, or_insert-IsEntered, entered-IsSeparate, entered_apart, entered-kept,
}

with_sets : (ℕ → List ℕ) → Filter → Filter
with_sets sets s = record s { sets = sets }

ref-with_sets :
    (sets : ℕ → List ℕ) (s : Filter) (name : Name) → ref (with_sets sets s) name ≡ ref s name
unfolding with_sets
ref-with_sets sets s (concrete t) = refl
ref-with_sets sets s (wildcard f) = refl
ref-with_sets sets s (by_id i) = refl

with_sets-IsSeparate :
    (sets : ℕ → List ℕ) (s : Filter) → IsSeparate s → IsSeparate (with_sets sets s)
unfolding with_sets
with_sets-IsSeparate sets s i = record {
  below = λ name r held. i.below name r (sym (ref-with_sets sets s name) ∙ held);
  apart = λ m n r h k.
      i.apart m n r (sym (ref-with_sets sets s m) ∙ h) (sym (ref-with_sets sets s n) ∙ k);
}

subscribers-with_sets :
    (sets : ℕ → List ℕ) (s : Filter) (name : Name)
    → subscribers (with_sets sets s) name ≡ found (members (ref s name) sets)
unfolding with_sets
subscribers-with_sets sets s (concrete t) = refl
subscribers-with_sets sets s (wildcard f) = refl
subscribers-with_sets sets s (by_id i) = refl

with_sets-topics :
    (sets : ℕ → List ℕ) (s : Filter) → (with_sets sets s).wildcard_topics ≡ s.wildcard_topics
unfolding with_sets
with_sets-topics sets s = refl

elem_again :
    (a addr : ℕ) (l : List ℕ)
    → elem addr l ≡ true
    → elem a l ≡ (if a == addr then true else elem a l)
elem_again a addr l member = elim (Bool-cases (a == addr)) [
  | inl same ↦ rw same (subst (λ x. elem x l ≡ true) (sym (eq_of_true a addr same)) member)
  | inr apart ↦ rw apart refl
]

-- The subscribers after one more address was added to the set that was entered.
add_member_lem :
    (addr r : ℕ) (s : Filter)
    → add_member addr r s ≡ (
        if elem addr (s.sets r)
        then (err duplicate, s)
        else (ok tt, with_sets (store s.sets r (addr ∷ s.sets r)) s))
unfolding add_member with_sets
add_member_lem addr r s = refl

-- What a subscription makes of the subscribers of each name.
pub record IsSubscribed (name : Name) (addr : ℕ) (s s' : Filter) : Type 0 where
  pub separate : IsSeparate s'
  pub here :
      (a : ℕ)
      → elem a (subscribers s' name) ≡ (if a == addr then true else elem a (subscribers s name))
  pub there : (m : Name) → m ≢ name → subscribers s' m ≡ subscribers s m
  pub topics : s'.wildcard_topics ≡ s.wildcard_topics
  pub kept : (m : Name) (r : ℕ) → ref s m ≡ some r → ref s' m ≡ some r

other_subscribers :
    (name m : Name) (addr r : ℕ) (s s' : Filter) (o : Option ℕ)
    → IsSeparate s
    → IsEntered name r s s'
    → m ≢ name
    → ref s m ≡ o
    → (found (members o s'.sets) ≡ found (members o s.sets))
      × (found (members o (store s'.sets r (addr ∷ s'.sets r))) ≡ found (members o s.sets))
other_subscribers name m addr r s s' none i e other held = (refl, refl)
other_subscribers name m addr r s s' (some q) i e other held =
    let kept = e.same_sets q (i.below m q held) in
    let apart : r ≢ q = λ p. entered_apart name m r s s' i e other (held ∙ ap some (sym p)) in
    (kept, ground (arith, kept, apart))

added-IsSubscribed :
    (name : Name) (addr r : ℕ) (s s' : Filter)
    → IsSeparate s
    → IsEntered name r s s'
    → ((add_member addr r s').0 ≡ (if elem addr (subscribers s name) then err duplicate else ok tt))
      × IsSubscribed name addr s (add_member addr r s').1
added-IsSubscribed name addr r s s' i e =
    let was : s'.sets r ≡ subscribers s name = e.own_set in
    let separate' = entered-IsSeparate name r s s' i e in
    let same_name = λ (sets : ℕ → List ℕ). ap (λ o. found (members o sets)) e.here in
    let same_other = λ (sets : ℕ → List ℕ) (m : Name) (other : m ≢ name).
      ap (λ o. found (members o sets)) (e.there m other) in
    elim (Bool-cases (elem addr (s'.sets r))) [
      | inl member ↦
          let known : elem addr (subscribers s name) ≡ true = ap (elem addr) (sym was) ∙ member in
          rw (add_member_lem addr r s', member)
            (
              rw known refl,
              record {
                separate = separate';
                here = λ a.
                    ap (elem a) (same_name s'.sets ∙ was)
                    ∙ elem_again a addr (subscribers s name) known;
                there = λ m other.
                    same_other s'.sets m other
                    ∙ (other_subscribers name m addr r s s' (ref s m) i e other refl).0;
                topics = e.topics;
                kept = λ m q held. entered-kept name m r q s s' e held;
              },
            )
      | inr new_ ↦
          let known : elem addr (subscribers s name) ≡ false = ap (elem addr) (sym was) ∙ new_ in
          let sets' = store s'.sets r (addr ∷ s'.sets r) in
          let own : sets' r ≡ addr ∷ subscribers s name = rw (eq_refl r) (ap (λ l. addr ∷ l) was) in
          rw (add_member_lem addr r s', new_)
            (
              rw known refl,
              record {
                separate = with_sets-IsSeparate sets' s' separate';
                here =
                    λ a. ap (elem a) (subscribers-with_sets sets' s' name ∙ same_name sets' ∙ own);
                there = λ m other.
                    subscribers-with_sets sets' s' m
                    ∙ same_other sets' m other
                    ∙ (other_subscribers name m addr r s s' (ref s m) i e other refl).1;
                topics = with_sets-topics sets' s' ∙ e.topics;
                kept = λ m q held. ref-with_sets sets' s' m ∙ entered-kept name m r q s s' e held;
              },
            )
    ]

-- `entry` and `insert` of a name's set.
subscribe-IsSubscribed :
    (name : Name) (addr : ℕ) (s : Filter)
    → IsSeparate s
    → (((entry name >>= add_member addr) s).0
        ≡ (if elem addr (subscribers s name) then err duplicate else ok tt))
      × IsSubscribed name addr s ((entry name >>= add_member addr) s).1
subscribe-IsSubscribed name addr s i =
    let (r, fine, e) = or_insert-IsEntered name s (ref s name) i refl in
    rw (entry_lem name s, fine)
      (added-IsSubscribed name addr r s (or_insert (ref s name) (put_name name) s).1 i e)

-- What a text subscribes to.
abbrev pub name_of : List ℕ → Name
name_of filter = if has_wildcards filter then wildcard filter else concrete filter

-- If each name has a set of its own, `insert` of a valid filter adds the address to the subscribers of
-- that filter and to no others, and is an error if it was one of them already; each name then still has
-- a set of its own. An invalid filter is refused and changes nothing.
pub insert-IsSubscribed :
    (filter : List ℕ) (addr : ℕ) (s : Filter)
    → IsSeparate s
    → ((insert filter addr s).0 ≡ (
        if valid_filter filter
        then (if elem addr (subscribers s (name_of filter)) then err duplicate else ok tt)
        else err invalid_filter))
      × (if valid_filter filter
          then IsSubscribed (name_of filter) addr s (insert filter addr s).1
          else (insert filter addr s).1 ≡ s)
unfolding insert
insert-IsSubscribed filter addr s i = elim (Bool-cases (valid_filter filter)) [
  | inl valid ↦ elim (Bool-cases (has_wildcards filter)) [
    | inl wild ↦ rw (valid, wild) (subscribe-IsSubscribed (wildcard filter) addr s i)
    | inr plain ↦ rw (valid, plain) (subscribe-IsSubscribed (concrete filter) addr s i)
  ]
  | inr invalid ↦ rw invalid (refl, refl)
]

pub insert_id_topic-IsSubscribed :
    (id addr : ℕ) (s : Filter)
    → IsSeparate s
    → ((insert_id_topic id addr s).0
        ≡ (if elem addr (subscribers s (by_id id)) then err duplicate else ok tt))
      × IsSubscribed (by_id id) addr s (insert_id_topic id addr s).1
unfolding insert_id_topic
insert_id_topic-IsSubscribed id addr s i = subscribe-IsSubscribed (by_id id) addr s i
