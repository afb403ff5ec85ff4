-- ===== src/Client/TimingWheel/Emptied.antt =====
-- What emptying a slot does to the entries of one key: `expire` of lib/client-lib/src/TimingWheel2.rs.
use rust_mqtt_sn.Prelude.{
  ℕ, ◌+◌, ◌*◌, ◌%◌, ◌≡◌, refl, true, false, none, some, List, [], ◌∷◌, arith, ltb, Eq, ◌==◌, nat_eq,
  if◌then◌else◌, Bool-cases, inl, inr, ap, ◌∙◌, eq_of_true,
}
use rust_mqtt_sn.Client.TimingWheel.{Wheel}
use rust_mqtt_sn.Client.TimingWheel.Entries.{durations, values, values-append, visited, drained}

module _ {K V : Type 0} ⦃e : Eq K⦄ where
  module _ (k : K) where
    -- What a wheel holds of a key is the same.
    pub record Same (w w' : Wheel K V) : Type 0 where
      pub slots : (i : ℕ) → durations k (w'.slot_vec i) ≡ durations k (w.slot_vec i)
      pub stored : w'.hash k ≡ w.hash k
      pub size : w'.max_slot ≡ w.max_slot

    Same-trans : (u v w : Wheel K V) → Same u v → Same v w → Same u w
    Same-trans u v w a b = record {
      slots = λ i. b.slots i ∙ a.slots i;
      stored = b.stored ∙ a.stored;
      size = b.size ∙ a.size;
    }

    visited-other :
        (cur d : ℕ) (key : K) (w : Wheel K V)
        → (key == k) ≡ false
        → Same w (visited cur (key, d) w).0 × (values k (visited cur (key, d) w).1 ≡ [])
    visited-other cur d key w other = (
      record {
        slots = λ i. ground (arith, other);
        stored = ground (arith, other);
        size = ground arith;
      },
      ground (arith, other),
    )

    pub drained-other :
        (cur : ℕ) (entries : List (K × ℕ)) (w : Wheel K V)
        → durations k entries ≡ []
        → Same w (drained cur entries w).0 × (values k (drained cur entries w).1 ≡ [])
    unfolding drained
    drained-other cur [] w none_ = (record { slots = λ i. refl; stored = refl; size = refl }, refl)
    drained-other cur ((key, d) ∷ entries) w none_ =
        let w1 = (visited cur (key, d) w).0 in
        let sent = (visited cur (key, d) w).1 in
        let (s, v) = visited-other cur d key w (ground arith) in
        let (s', v') = drained-other cur entries w1 (ground arith) in
        (
          Same-trans w w1 (drained cur entries w1).0 s s',
          values-append k sent (drained cur entries w1).1 ∙ ground (arith, v, v'),
        )

    -- The key has one entry more, and what the map holds for it is the same.
    pub record Moved (cur d : ℕ) (w w' : Wheel K V) : Type 0 where
      pub slots :
          (i : ℕ)
          → durations k (w'.slot_vec i) ≡ (
              if (cur + d * 2) % w.max_slot == i
              then d * 2 ∷ durations k (w.slot_vec i)
              else durations k (w.slot_vec i))
      pub stored : w'.hash k ≡ w.hash k
      pub size : w'.max_slot ≡ w.max_slot

    -- The map has forgotten the key.
    pub record Dropped (w w' : Wheel K V) : Type 0 where
      pub slots : (i : ℕ) → durations k (w'.slot_vec i) ≡ durations k (w.slot_vec i)
      pub stored : w'.hash k ≡ none
      pub size : w'.max_slot ≡ w.max_slot

    visited-own :
        (cur d : ℕ) (key : K) (v : V) (w : Wheel K V)
        → (key == k) ≡ true
        → w.hash k ≡ some v
        → ltb (d * 2) w.max_slot ≡ true
        → Moved cur d w (visited cur (key, d) w).0 × (values k (visited cur (key, d) w).1 ≡ v ∷ [])
    visited-own cur d key v w own stored more =
        let same : w.hash key ≡ some v = ap w.hash (eq_of_true key k own) ∙ stored in
        (
          record {
            slots = λ i. ground (arith, own, same, more);
            stored = ground (arith, same, more);
            size = ground (arith, same, more);
          },
          ground (arith, own, same, more),
        )

    visited-last :
        (cur d : ℕ) (key : K) (w : Wheel K V)
        → (key == k) ≡ true
        → ltb (d * 2) w.max_slot ≡ false
        → Dropped w (visited cur (key, d) w).0 × (values k (visited cur (key, d) w).1 ≡ [])
    visited-last cur d key w own over = (
      record {
        slots = λ i. ground (arith, over);
        stored = ground (arith, own, over);
        size = ground (arith, over);
      },
      ground (arith, over),
    )

    pub drained-own :
        (cur d : ℕ) (v : V) (entries : List (K × ℕ)) (w : Wheel K V)
        → durations k entries ≡ d ∷ []
        → w.hash k ≡ some v
        → ltb (d * 2) w.max_slot ≡ true
        → Moved cur d w (drained cur entries w).0 × (values k (drained cur entries w).1 ≡ v ∷ [])
    unfolding drained
    drained-own cur d v [] w one stored more = cc
    drained-own cur d v ((key, d') ∷ entries) w one stored more =
        let w1 = (visited cur (key, d') w).0 in
        let sent = (visited cur (key, d') w).1 in
        let split = values-append k sent (drained cur entries w1).1 in
        elim (Bool-cases (key == k)) [
          | inl own ↦
              let same : d' ≡ d = ground (arith, own) in
              let (m, x) =
                visited-own cur d' key v w own stored
                  (ap (λ n. ltb (n * 2) w.max_slot) same ∙ more) in
              let (s, y) = drained-other cur entries w1 (ground (arith, own)) in
              (
                record {
                  slots = λ i.
                      s.slots i
                      ∙ m.slots i
                      ∙ ap
                          (λ n.
                            if (cur + n * 2) % w.max_slot == i
                            then n * 2 ∷ durations k (w.slot_vec i)
                            else durations k (w.slot_vec i))
                          same;
                  stored = s.stored ∙ m.stored;
                  size = s.size ∙ m.size;
                },
                split ∙ ground (arith, x, y),
              )
          | inr other ↦
              let (s, x) = visited-other cur d' key w other in
              let (m, y) =
                drained-own cur d v entries w1 (ground (arith, other)) (s.stored ∙ stored)
                  (ap (λ n. ltb (d * 2) n) s.size ∙ more) in
              (
                record {
                  slots = λ i. ground (arith, m.slots i, s.slots i, s.size);
                  stored = m.stored ∙ s.stored;
                  size = m.size ∙ s.size;
                },
                split ∙ ground (arith, x, y),
              )
        ]

    pub drained-last :
        (cur d : ℕ) (entries : List (K × ℕ)) (w : Wheel K V)
        → durations k entries ≡ d ∷ []
        → ltb (d * 2) w.max_slot ≡ false
        → Dropped w (drained cur entries w).0 × (values k (drained cur entries w).1 ≡ [])
    unfolding drained
    drained-last cur d [] w one over = cc
    drained-last cur d ((key, d') ∷ entries) w one over =
        let w1 = (visited cur (key, d') w).0 in
        let sent = (visited cur (key, d') w).1 in
        let split = values-append k sent (drained cur entries w1).1 in
        elim (Bool-cases (key == k)) [
          | inl own ↦
              let same : d' ≡ d = ground (arith, own) in
              let (m, x) =
                visited-last cur d' key w own (ap (λ n. ltb (n * 2) w.max_slot) same ∙ over) in
              let (s, y) = drained-other cur entries w1 (ground (arith, own)) in
              (
                record {
                  slots = λ i. s.slots i ∙ m.slots i;
                  stored = s.stored ∙ m.stored;
                  size = s.size ∙ m.size;
                },
                split ∙ ground (arith, x, y),
              )
          | inr other ↦
              let (s, x) = visited-other cur d' key w other in
              let (m, y) =
                drained-last cur d entries w1 (ground (arith, other))
                  (ap (λ n. ltb (d * 2) n) s.size ∙ over) in
              (
                record {
                  slots = λ i. m.slots i ∙ s.slots i;
                  stored = m.stored;
                  size = m.size ∙ s.size;
                },
                split ∙ ground (arith, x, y),
              )
        ]
