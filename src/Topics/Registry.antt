-- ===== src/Topics/Registry.antt =====
-- The registry of topic names of lib/broker-lib/src/filter.rs: `try_insert_topic_name` gives out
-- the ids 0, 1, 2, … until its 16-bit counter wraps.
use rust_mqtt_sn.Prelude.{
  ℕ, ◌+◌, ◌<◌, ◌≡◌, refl, sym, subst, ◌∙◌, ap, true, false, none, some, List, [], ◌∷◌, arith, ◌==◌,
  nat_eq, list_eq, elem, if◌then◌else◌, Option-cases, Bool-cases, inl, inr,
}
use rust_mqtt_sn.Prelude.Bytes.{u16}
use rust_mqtt_sn.Bisetmap.{BisetMaps}
use rust_mqtt_sn.Topics.{Topics, first, get_topic_id_with_topic_name, try_insert_topic_name}

-- The first of a list is in it, and a list without a first has nothing in it.
first-elem : (ids : List ℕ) (id : ℕ) → first ids ≡ some id → elem id ids ≡ true
first-elem [] id h = ground arith
first-elem (x ∷ ids) id h = ground arith

first-none : (ids : List ℕ) (id : ℕ) → first ids ≡ none → elem id ids ≡ false
first-none [] id h = refl
first-none (x ∷ ids) id h = ground arith

first_only :
    (ids : List ℕ) (id : ℕ)
    → elem id ids ≡ true
    → ((j : ℕ) → elem j ids ≡ true → j ≡ id)
    → first ids ≡ some id
first_only [] id h only = ground arith
first_only (x ∷ ids) id h only = ap some (only x (ground arith))

first_absent : (ids : List ℕ) → ((j : ℕ) → elem j ids ≡ false) → first ids ≡ none
first_absent [] h = refl
first_absent (x ∷ ids) h = ground (arith, h x, nat_eq.test_iff x x)

module _ ⦃B : BisetMaps⦄ where
  -- Every name has one id at most, every id one name at most, and all ids are below the counter,
  -- which is a 16-bit number.
  pub record IsRegistry (t : Topics) : Type 0 where
    pub one_id :
        (name : List ℕ) (i j : ℕ)
        → B.contains t.topic_name_to_ids name i ≡ true
        → B.contains t.topic_name_to_ids name j ≡ true
        → i ≡ j
    pub one_name :
        (a b : List ℕ) (i : ℕ)
        → B.contains t.topic_name_to_ids a i ≡ true
        → B.contains t.topic_name_to_ids b i ≡ true
        → a ≡ b
    pub below :
        (name : List ℕ) (i : ℕ)
        → B.contains t.topic_name_to_ids name i ≡ true
        → i < t.topic_id_counter

  -- The id that is looked up is one that the map holds.
  contains-get :
      (name : List ℕ) (i : ℕ) (t : Topics)
      → get_topic_id_with_topic_name name t ≡ some i
      → B.contains t.topic_name_to_ids name i ≡ true
  unfolding get_topic_id_with_topic_name
  contains-get name i t h =
      sym (B.elem-get t.topic_name_to_ids name i) ∙ first-elem (B.get t.topic_name_to_ids name) i h

  not_contains-get :
      (name : List ℕ) (i : ℕ) (t : Topics)
      → get_topic_id_with_topic_name name t ≡ none
      → B.contains t.topic_name_to_ids name i ≡ false
  unfolding get_topic_id_with_topic_name
  not_contains-get name i t h =
      sym (B.elem-get t.topic_name_to_ids name i) ∙ first-none (B.get t.topic_name_to_ids name) i h

  get_of_contains :
      (name : List ℕ) (i : ℕ) (t : Topics)
      → IsRegistry t
      → B.contains t.topic_name_to_ids name i ≡ true
      → get_topic_id_with_topic_name name t ≡ some i
  unfolding get_topic_id_with_topic_name
  get_of_contains name i t reg h =
      first_only (B.get t.topic_name_to_ids name) i (B.elem-get t.topic_name_to_ids name i ∙ h)
        (λ j g. reg.one_id name j i (sym (B.elem-get t.topic_name_to_ids name j) ∙ g) h)

  -- The two branches of `try_insert_topic_name`, as what it leaves in the maps.
  try_insert_known :
      (name : List ℕ) (i : ℕ) (t : Topics)
      → get_topic_id_with_topic_name name t ≡ some i
      → try_insert_topic_name name t ≡ (i, t)
  unfolding try_insert_topic_name get_topic_id_with_topic_name
  try_insert_known name i t h = ground arith

  try_insert_new :
      (name : List ℕ) (t : Topics)
      → get_topic_id_with_topic_name name t ≡ none
      → try_insert_topic_name name t ≡ (
        t.topic_id_counter,
        record t {
          topic_name_to_ids = B.insert t.topic_name_to_ids name t.topic_id_counter;
          topic_id_counter = u16 (t.topic_id_counter + 1);
        },
      )
  unfolding try_insert_topic_name get_topic_id_with_topic_name
  try_insert_new name t h = ground arith

  -- A new name keeps the registry, as long as the counter does not wrap.
  insert_new-IsRegistry :
      (name : List ℕ) (t : Topics)
      → IsRegistry t
      → t.topic_id_counter + 1 < 65536
      → get_topic_id_with_topic_name name t ≡ none
      → IsRegistry ((try_insert_topic_name name t).1)
  insert_new-IsRegistry name t reg room h =
      subst (λ p. IsRegistry (p.1)) (sym (try_insert_new name t h))
        (record {
          one_id = λ n i j hi hj. ground (
            arith,
            B.contains-insert t.topic_name_to_ids name t.topic_id_counter n i,
            B.contains-insert t.topic_name_to_ids name t.topic_id_counter n j,
            reg.one_id n i j,
            not_contains-get name i t h,
            not_contains-get name j t h,
            list_eq.test_iff name n,
          );
          one_name = λ a b i ha hb. ground (
            arith,
            B.contains-insert t.topic_name_to_ids name t.topic_id_counter a i,
            B.contains-insert t.topic_name_to_ids name t.topic_id_counter b i,
            reg.one_name a b i,
            reg.below a i,
            reg.below b i,
            list_eq.test_iff name a,
            list_eq.test_iff name b,
          );
          below = λ n i hi. ground (
            arith,
            B.contains-insert t.topic_name_to_ids name t.topic_id_counter n i,
            reg.below n i,
          );
        })

  -- `try_insert_topic_name` keeps a registry a registry, as long as its counter does not wrap.
  pub try_insert-IsRegistry :
      (name : List ℕ) (t : Topics)
      → IsRegistry t
      → t.topic_id_counter + 1 < 65536
      → IsRegistry ((try_insert_topic_name name t).1)
  try_insert-IsRegistry name t reg room =
      elim (Option-cases (get_topic_id_with_topic_name name t)) [
        | inl h ↦ insert_new-IsRegistry name t reg room h
        | inr (i, h) ↦ rw (try_insert_known name i t h) reg
      ]

  get_of_absent :
      (name : List ℕ) (t : Topics)
      → ((j : ℕ) → B.contains t.topic_name_to_ids name j ≡ false)
      → get_topic_id_with_topic_name name t ≡ none
  unfolding get_topic_id_with_topic_name
  get_of_absent name t h =
      first_absent (B.get t.topic_name_to_ids name)
        (λ j. B.elem-get t.topic_name_to_ids name j ∙ h j)

  get-insert_new :
      (name n : List ℕ) (t : Topics)
      → IsRegistry t
      → t.topic_id_counter + 1 < 65536
      → get_topic_id_with_topic_name name t ≡ none
      → get_topic_id_with_topic_name n ((try_insert_topic_name name t).1) ≡ (
          if name == n
          then some ((try_insert_topic_name name t).0)
          else get_topic_id_with_topic_name n t)
  get-insert_new name n t reg room h =
      let t' = (try_insert_topic_name name t).1 in
      let reg' = insert_new-IsRegistry name t reg room h in
      let inserted = B.contains-insert t.topic_name_to_ids name t.topic_id_counter in
      elim (Option-cases (get_topic_id_with_topic_name n t)) [
        | inr (i, g) ↦
            let held = contains-get n i t g in
            let found = get_of_contains n i t' reg' in
            ground (arith, try_insert_new name t h, inserted n i, list_eq.test_iff name n)
        | inl g ↦ elim (Bool-cases (name == n)) [
          | inl e ↦
              let found = get_of_contains n t.topic_id_counter t' reg' in
              ground (
                arith,
                try_insert_new name t h,
                inserted n t.topic_id_counter,
                nat_eq.test_iff t.topic_id_counter t.topic_id_counter,
              )
          | inr e ↦
              let absent = get_of_absent n t' (λ j.
                ground (arith, try_insert_new name t h, inserted n j, not_contains-get n j t g)) in
              ground (arith, try_insert_new name t h)
        ]
      ]

  -- In a registry whose counter does not wrap, `try_insert_topic_name` gives the name the id that
  -- it returns, and every other name has the id it had, or none as before.
  pub get-try_insert :
      (name n : List ℕ) (t : Topics)
      → IsRegistry t
      → t.topic_id_counter + 1 < 65536
      → get_topic_id_with_topic_name n ((try_insert_topic_name name t).1) ≡ (
          if name == n
          then some ((try_insert_topic_name name t).0)
          else get_topic_id_with_topic_name n t)
  get-try_insert name n t reg room = elim (Option-cases (get_topic_id_with_topic_name name t)) [
    | inl h ↦ get-insert_new name n t reg room h
    | inr (i, h) ↦ rw (try_insert_known name i t h) (ground (arith, list_eq.test_iff name n))
  ]

  -- Two names never share an id in a registry.
  pub get-injective :
      (a b : List ℕ) (i : ℕ) (t : Topics)
      → IsRegistry t
      → get_topic_id_with_topic_name a t ≡ some i
      → get_topic_id_with_topic_name b t ≡ some i
      → a ≡ b
  get-injective a b i t reg ha hb =
      reg.one_name a b i (contains-get a i t ha) (contains-get b i t hb)

  -- When the counter is at its last value and the id 0 is in use, the second of two new names gets
  -- the id 0 as well: the counter wraps.
  pub try_insert_wraps :
      (z a b : List ℕ) (t : Topics)
      → t.topic_id_counter ≡ 65535
      → B.contains t.topic_name_to_ids z 0 ≡ true
      → get_topic_id_with_topic_name a t ≡ none
      → get_topic_id_with_topic_name b ((try_insert_topic_name a t).1) ≡ none
      → ((try_insert_topic_name b ((try_insert_topic_name a t).1)).0 ≡ 0)
        × (B.contains
              ((try_insert_topic_name b ((try_insert_topic_name a t).1)).1).topic_name_to_ids
              z
              0
            ≡ true)
  try_insert_wraps z a b t full used ha hb =
      let t' = (try_insert_topic_name a t).1 in
      ground (
        arith,
        try_insert_new a t ha,
        try_insert_new b t' hb,
        B.contains-insert t.topic_name_to_ids a t.topic_id_counter z 0,
        B.contains-insert t'.topic_name_to_ids b t'.topic_id_counter z 0,
      )
