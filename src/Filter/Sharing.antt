-- ===== src/Filter/Sharing.antt =====
-- Who has subscribed to what in the struct `Filter` of lib/broker-lib/src/filter.rs.
use rust_mqtt_sn.Prelude.{
  ℕ, ◌<◌, ◌≤◌, ◌≡◌, ◌≢◌, ◌⊎◌, refl, Option, none, some, List, [], ◌∷◌, ◌++◌, ◌==◌, nat_eq, list_eq,
  if◌then◌else◌, Bool-cases, inl, inr, arith, subst, sym, ap, ◌∙◌, Option-cases, eq_refl,
  eq_of_true, ne_of_false,
}
use rust_mqtt_sn.Outcome.{ok}
use rust_mqtt_sn.Exec.{Exec}
use rust_mqtt_sn.Filter.Sets.{
  Filter, new, find_filter, fresh_set, or_insert, put_concrete, put_id, put_wildcard,
  concrete_entry, id_entry, wildcard_entry, members, found,
}

-- What can be subscribed to.
pub data Name : Type 0 where
  concrete : List ℕ → Name
  wildcard : List ℕ → Name
  by_id : ℕ → Name

abbrev pub ref : Filter → Name → Option ℕ
ref s (concrete topic) = s.concrete_topics topic
ref s (wildcard filter) = find_filter filter s.wildcard_filters
ref s (by_id id) = s.id_topics id

abbrev pub subscribers : Filter → Name → List ℕ
subscribers s name = found (members (ref s name) s.sets)

-- Each name has a set of its own.
pub record IsSeparate (s : Filter) : Type 0 where
  pub below : (name : Name) (r : ℕ) → ref s name ≡ some r → r < s.fresh
  pub apart : (m n : Name) (r : ℕ) → ref s m ≡ some r → ref s n ≡ some r → m ≡ n

abbrev pub entry : Name → Exec Filter ℕ
entry (concrete topic) = concrete_entry topic
entry (wildcard filter) = wildcard_entry filter
entry (by_id id) = id_entry id

-- After `entry` of a name: the set `r` is the name's, and everything else is as it was.
pub record IsEntered (name : Name) (r : ℕ) (s s' : Filter) : Type 0 where
  pub here : ref s' name ≡ some r
  pub there : (m : Name) → m ≢ name → ref s' m ≡ ref s m
  pub topics : s'.wildcard_topics ≡ s.wildcard_topics
  pub same_sets : (q : ℕ) → q < s.fresh → s'.sets q ≡ s.sets q
  pub own_set : s'.sets r ≡ found (members (ref s name) s.sets)
  pub later : s.fresh ≤ s'.fresh
  pub used : r < s'.fresh
  pub new_or_old : (ref s name ≡ some r) ⊎ ((ref s name ≡ none) × (s.fresh ≡ r))

find_filter-append :
    (f g : List ℕ) (r : ℕ) (fs : List (List ℕ × ℕ))
    → find_filter f (fs ++ ((g, r) ∷ []))
      ≡ (elim (find_filter f fs) [ some q ↦ some q | none ↦ if g == f then some r else none ])
find_filter-append f g r [] = ground arith
find_filter-append f g r ((h, q) ∷ fs) = ground (arith, find_filter-append f g r fs)

abbrev pub put_name : Name → ℕ → Filter → Filter
put_name (concrete topic) = put_concrete topic
put_name (wildcard filter) = put_wildcard filter
put_name (by_id id) = put_id id

pub entry_lem : (name : Name) (s : Filter) → entry name s ≡ or_insert (ref s name) (put_name name) s
unfolding concrete_entry wildcard_entry id_entry
entry_lem (concrete topic) s = refl
entry_lem (wildcard filter) s = refl
entry_lem (by_id id) s = refl

ref-put_name :
    (name : Name) (r : ℕ) (s : Filter) → ref s name ≡ none → ref (put_name name r s) name ≡ some r
ref-put_name (concrete topic) r s e = ground (arith, eq_refl topic)
ref-put_name (wildcard filter) r s e =
    find_filter-append filter filter r s.wildcard_filters ∙ ground (arith, e, eq_refl filter)
ref-put_name (by_id id) r s e = ground arith

ref-put_other :
    (name m : Name) (r : ℕ) (s : Filter) → m ≢ name → ref (put_name name r s) m ≡ ref s m
ref-put_other (concrete t) (concrete u) r s other = elim (Bool-cases (t == u)) [
  | inl same ↦ absurd (other (ap concrete (sym (eq_of_true t u same))))
  | inr apart ↦ ground (arith, apart)
]
ref-put_other (wildcard f) (wildcard g) r s other = elim (Bool-cases (f == g)) [
  | inl same ↦ absurd (other (ap wildcard (sym (eq_of_true f g same))))
  | inr apart ↦
      find_filter-append g f r s.wildcard_filters
      ∙ elim (Option-cases (find_filter g s.wildcard_filters)) [
        | inl e ↦ ground (arith, e, apart)
        | inr (q, e) ↦ ground (arith, e)
      ]
]
ref-put_other (by_id i) (by_id j) r s other = elim (Bool-cases (i == j)) [
  | inl same ↦ absurd (other (ap by_id (sym (eq_of_true i j same))))
  | inr apart ↦ ground (arith, apart)
]
ref-put_other (concrete t) (wildcard g) r s other = refl
ref-put_other (concrete t) (by_id j) r s other = refl
ref-put_other (wildcard f) (concrete u) r s other = refl
ref-put_other (wildcard f) (by_id j) r s other = refl
ref-put_other (by_id i) (concrete u) r s other = refl
ref-put_other (by_id i) (wildcard g) r s other = refl

ref-fresh_set : (name : Name) (s : Filter) → ref (fresh_set s) name ≡ ref s name
ref-fresh_set (concrete t) s = refl
ref-fresh_set (wildcard f) s = refl
ref-fresh_set (by_id i) s = refl

put_name-keeps :
    (name : Name) (r : ℕ) (s : Filter)
    → ((put_name name r s).fresh ≡ s.fresh)
      × ((put_name name r s).sets ≡ s.sets)
      × ((put_name name r s).wildcard_topics ≡ s.wildcard_topics)
put_name-keeps (concrete t) r s = (refl, refl, refl)
put_name-keeps (wildcard f) r s = (refl, refl, refl)
put_name-keeps (by_id i) r s = (refl, refl, refl)

pub or_insert-IsEntered :
    (name : Name) (s : Filter) (o : Option ℕ)
    → IsSeparate s
    → ref s name ≡ o
    → (r : ℕ) × ((or_insert o (put_name name) s).0 ≡ ok r)
      × IsEntered name r s (or_insert o (put_name name) s).1
or_insert-IsEntered name s (some r) i e = (
  r,
  refl,
  record {
    here = e;
    there = λ m other. refl;
    topics = refl;
    same_sets = λ q l. refl;
    own_set = rw e refl;
    later = omega arith;
    used = i.below name r e;
    new_or_old = inl e;
  },
)
or_insert-IsEntered name s none i e =
    let (f, st, t) = put_name-keeps name s.fresh (fresh_set s) in
    (
      s.fresh,
      refl,
      record {
        here = ref-put_name name s.fresh (fresh_set s) (ref-fresh_set name s ∙ e);
        there = λ m other. ref-put_other name m s.fresh (fresh_set s) other ∙ ref-fresh_set m s;
        topics = t;
        same_sets = λ q l. ap (λ f. f q) st ∙ ground arith;
        own_set = ap (λ f. f s.fresh) st ∙ ground (arith, e);
        later = omega (arith, f);
        used = omega (arith, f);
        new_or_old = inr (e, refl);
      },
    )

Name-cases : (m n : Name) → (m ≡ n) ⊎ (m ≢ n)
Name-cases (concrete t) (concrete u) = elim (Bool-cases (t == u)) [
  | inl same ↦ inl (ap concrete (eq_of_true t u same))
  | inr apart ↦ inr (λ p. ne_of_false t u apart cc)
]
Name-cases (wildcard t) (wildcard u) = elim (Bool-cases (t == u)) [
  | inl same ↦ inl (ap wildcard (eq_of_true t u same))
  | inr apart ↦ inr (λ p. ne_of_false t u apart cc)
]
Name-cases (by_id t) (by_id u) = elim (Bool-cases (t == u)) [
  | inl same ↦ inl (ap by_id (eq_of_true t u same))
  | inr apart ↦ inr (λ p. ne_of_false t u apart cc)
]
Name-cases (concrete t) (wildcard u) = inr (λ p. cc)
Name-cases (concrete t) (by_id u) = inr (λ p. cc)
Name-cases (wildcard t) (concrete u) = inr (λ p. cc)
Name-cases (wildcard t) (by_id u) = inr (λ p. cc)
Name-cases (by_id t) (concrete u) = inr (λ p. cc)
Name-cases (by_id t) (wildcard u) = inr (λ p. cc)

some-injective : (q r : ℕ) → some q ≡ some r → q ≡ r
some-injective q r e = cc

-- The set of another name is not the one that was entered.
pub entered_apart :
    (name m : Name) (r : ℕ) (s s' : Filter)
    → IsSeparate s
    → IsEntered name r s s'
    → m ≢ name
    → ref s m ≢ some r
entered_apart name m r s s' i e other held = elim e.new_or_old [
  | inl old ↦ other (i.apart m name r held old)
  | inr (absent, new_) ↦ absurd (omega (arith, i.below m r held, new_))
]

-- The set that the name has is the one that was entered.
entered_own :
    (name m : Name) (r q : ℕ) (s s' : Filter)
    → IsEntered name r s s'
    → m ≡ name
    → ref s' m ≡ some q
    → r ≡ q
entered_own name m r q s s' e same held =
    some-injective r q (sym e.here ∙ ap (ref s') (sym same) ∙ held)

pub entered-kept :
    (name m : Name) (r q : ℕ) (s s' : Filter)
    → IsEntered name r s s'
    → ref s m ≡ some q
    → ref s' m ≡ some q
entered-kept name m r q s s' e held = elim (Name-cases m name) [
  | inl same ↦ elim e.new_or_old [
    | inl old ↦
        let own : r ≡ q = some-injective r q (sym old ∙ ap (ref s) (sym same) ∙ held) in
        ap (ref s') same ∙ e.here ∙ ap some own
    | inr (absent, new_) ↦
        let nothing : none ≡ some q = sym absent ∙ ap (ref s) (sym same) ∙ held in absurd cc
  ]
  | inr other ↦ e.there m other ∙ held
]

pub entered-IsSeparate :
    (name : Name) (r : ℕ) (s s' : Filter) → IsSeparate s → IsEntered name r s s' → IsSeparate s'
entered-IsSeparate name r s s' i e = record {
  below = λ m q held. elim (Name-cases m name) [
    | inl same ↦ subst (λ x. x < s'.fresh) (entered_own name m r q s s' e same held) e.used
    | inr other ↦ omega (arith, i.below m q (sym (e.there m other) ∙ held), e.later)
  ];
  apart = λ m n q h k. elim (Name-cases m name) [
    | inl same ↦ elim (Name-cases n name) [
      | inl same' ↦ same ∙ sym same'
      | inr other ↦ absurd (
          entered_apart name n r s s' i e other
            (sym (e.there n other) ∙ k ∙ ap some (sym (entered_own name m r q s s' e same h))))
    ]
    | inr other ↦ elim (Name-cases n name) [
      | inl same ↦ absurd (
          entered_apart name m r s s' i e other
            (sym (e.there m other) ∙ h ∙ ap some (sym (entered_own name n r q s s' e same k))))
      | inr other' ↦ i.apart m n q (sym (e.there m other) ∙ h) (sym (e.there n other') ∙ k)
    ]
  ];
}

new-empty : (m : Name) (r : ℕ) → ref new m ≢ some r
unfolding new
new-empty (concrete t) r = λ p. cc
new-empty (wildcard f) r = λ p. cc
new-empty (by_id i) r = λ p. cc

-- The empty filter.
pub new-IsSeparate : IsSeparate new
unfolding new
new-IsSeparate = record {
  below = λ m r held. absurd (new-empty m r held);
  apart = λ m n r h k. absurd (new-empty m r h);
}
