-- ===== src/Broker/Moves.antt =====
-- The loop of `Connection::try_insert` (lib/broker-lib/src/connection.rs) that moves subscriptions.
use rust_mqtt_sn.Prelude.{
  ℕ, ◌≡◌, ◌≢◌, refl, true, false, ◌&&◌, some, List, [], ◌∷◌, arith, ◌==◌, nat_eq, list_eq, pair_eq,
  elem, if◌then◌else◌, Bool-cases, inl, inr, ap, ◌∙◌, sym, eq_refl,
}
use rust_mqtt_sn.Outcome.{ok}
use rust_mqtt_sn.Bisetmap.{BisetMaps}
use rust_mqtt_sn.Topics.{Topics, remove_qos, subscribe_with_topic_id}
use rust_mqtt_sn.Topics.Subscriptions.{subscription, subscription_lem, subscription-subscribe}
use rust_mqtt_sn.Broker.{Broker}
use rust_mqtt_sn.Broker.Clients.{move_each}

-- No number stands in the list twice.
abbrev pub IsOnce : List ℕ → Type 0
IsOnce [] = Unit {0}
IsOnce (id ∷ ids) = (elem id ids ≡ false) × IsOnce ids

true_not_false : true ≢ false
true_not_false p = cc

module _ ⦃B : BisetMaps⦄ where
  -- The QoS of an address is taken out of the map.
  subscription-remove_qos :
      (id old j a : ℕ) (t : Topics)
      → old ≢ a
      → subscription j a (remove_qos id old t).1 ≡ subscription j a t
  unfolding remove_qos
  subscription-remove_qos id old j a t other =
      ground (arith, subscription_lem j a (remove_qos id old t).1, subscription_lem j a t)

  remove_qos_lem : (id old : ℕ) (t : Topics) → (remove_qos id old t).0 ≡ t.topic_ids_qos (id, old)
  unfolding remove_qos
  remove_qos_lem id old t = refl

  -- One round of the loop that moves subscriptions.
  abbrev move_one : ℕ → ℕ → ℕ → ℕ → Topics → Topics
  move_one old addr id q t = subscribe_with_topic_id addr id q (remove_qos id old t).1

  move_one-qos :
      (old addr id q i : ℕ) (t : Topics)
      → old ≢ addr
      → i ≢ id
      → (move_one old addr id q t).topic_ids_qos (i, old) ≡ t.topic_ids_qos (i, old)
  unfolding subscribe_with_topic_id remove_qos
  move_one-qos old addr id q i t apart other = ground arith

  move_one-old :
      (old addr id q j : ℕ) (t : Topics)
      → old ≢ addr
      → B.contains (move_one old addr id q t).topic_ids j old ≡ B.contains t.topic_ids j old
  unfolding subscribe_with_topic_id remove_qos
  move_one-old old addr id q j t apart = ground (arith, B.contains-insert t.topic_ids id addr j old)

  move_one-subscription :
      (old addr id q j a : ℕ) (t : Topics)
      → old ≢ a
      → subscription j a (move_one old addr id q t)
        ≡ (if (id == j) && (addr == a) then some q else subscription j a t)
  move_one-subscription old addr id q j a t other =
      subscription-subscribe addr id q a j (remove_qos id old t).1
      ∙ ap (λ o. if (id == j) && (addr == a) then some q else o)
          (subscription-remove_qos id old j a t other)

  -- The loop that moves subscriptions does what it should, and touches nothing but them.
  pub record IsMoved (old addr : ℕ) (ids : List ℕ) (b b' : Broker) : Type 0 where
    pub frame : b' ≡ record b { topics = b'.topics }
    pub moved :
        (j a : ℕ)
        → old ≢ a
        → subscription j a b'.topics ≡ (
            if (addr == a) && elem j ids
            then b.topics.topic_ids_qos (j, old)
            else subscription j a b.topics)
    pub same_old :
        (j : ℕ) → B.contains b'.topics.topic_ids j old ≡ B.contains b.topics.topic_ids j old

  pub move_each-IsMoved :
      (old addr : ℕ) (ids : List ℕ) (b : Broker)
      → old ≢ addr
      → IsOnce ids
      → ((i : ℕ) → elem i ids ≡ true → (q : ℕ) × (b.topics.topic_ids_qos (i, old) ≡ some q))
      → ((move_each old addr ids b).0 ≡ ok tt) × IsMoved old addr ids b (move_each old addr ids b).1
  unfolding move_each
  move_each-IsMoved old addr [] b apart once stored =
      (refl, record { frame = refl; moved = λ j a other. ground arith; same_old = λ j. refl })
  move_each-IsMoved old addr (id ∷ ids) b apart once stored =
      let (q, held) = stored id (rw (eq_refl id) refl) in
      let b2 : Broker = record b { topics = move_one old addr id q b.topics } in
      let later = λ (i : ℕ) (member : elem i ids ≡ true) (p : i ≡ id).
        true_not_false (sym member ∙ ap (λ x. elem x ids) p ∙ once.0) in
      let (fine, m) = move_each-IsMoved old addr ids b2 apart once.1 (λ i member.
        let (q', h) = stored i (ground (arith, member)) in
        (q', move_one-qos old addr id q i b.topics apart (later i member) ∙ h)) in
      rw (remove_qos_lem id old b.topics ∙ held) (
        fine,
        record {
          frame = m.frame;
          moved = λ j a other. m.moved j a other ∙ elim (Bool-cases (elem j ids)) [
            | inl member ↦ ground (
              arith,
              member,
              move_one-qos old addr id q j b.topics apart (later j member),
              move_one-subscription old addr id q j a b.topics other,
              later j member,
            )
            | inr absent ↦
                ground (arith, absent, held, move_one-subscription old addr id q j a b.topics other)
          ];
          same_old = λ j. m.same_old j ∙ move_one-old old addr id q j b.topics apart;
        },
      )
