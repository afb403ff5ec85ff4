-- ===== src/Topics/Subscriptions.antt =====
-- Who gets a publication: the subscriptions of lib/broker-lib/src/filter.rs as one map from a topic
-- id and an address to a QoS.
use rust_mqtt_sn.Prelude.{
  ℕ, ◌≡◌, refl, ◌&&◌, Option, none, some, List, [], ◌∷◌, arith, ◌==◌, nat_eq, pair_eq, elem, erase,
  if◌then◌else◌,
}
use rust_mqtt_sn.Bisetmap.{BisetMaps}
use rust_mqtt_sn.Topics.{
  Subscriber, Topics, collect, get_subscribers_with_topic_id, subscribe_with_topic_id,
  unsubscribe_with_topic_id, delete_topic_ids_with_socket_addr, delete_topic_id, remove_each,
}

-- The QoS that a list of subscribers gives an address.
abbrev pub qos_in : ℕ → List Subscriber → Option ℕ
qos_in a [] = none
qos_in a (s ∷ ss) = if s.socket_addr == a then some s.qos else qos_in a ss

module _ ⦃B : BisetMaps⦄ where
  qos_in-collect :
      (id a : ℕ) (m : ℕ × ℕ → Option ℕ) (addrs : List ℕ)
      → qos_in a (collect id m addrs) ≡ (if elem a addrs then m (id, a) else none)
  unfolding collect
  qos_in-collect id a m [] = refl
  qos_in-collect id a m (b ∷ addrs) = ground (arith, qos_in-collect id a m addrs)

  -- The subscription of an address to a topic id, as a publication sees it.
  abbrev pub subscription : ℕ → ℕ → Topics → Option ℕ
  subscription id a t = qos_in a (get_subscribers_with_topic_id id t)

  -- It is the QoS that is stored, where the address is stored too.
  pub subscription_lem :
      (id a : ℕ) (t : Topics)
      → subscription id a t
        ≡ (if B.contains t.topic_ids id a then t.topic_ids_qos (id, a) else none)
  unfolding get_subscribers_with_topic_id
  subscription_lem id a t = ground (
    arith,
    qos_in-collect id a t.topic_ids_qos (B.get t.topic_ids id),
    B.elem-get t.topic_ids id a,
  )

  -- Subscribing sets the QoS of one address for one topic id and no other.
  pub subscription-subscribe :
      (a i q b j : ℕ) (t : Topics)
      → subscription j b (subscribe_with_topic_id a i q t)
        ≡ (if (i == j) && (a == b) then some q else subscription j b t)
  unfolding subscribe_with_topic_id
  subscription-subscribe a i q b j t = ground (
    arith,
    subscription_lem j b (subscribe_with_topic_id a i q t),
    subscription_lem j b t,
    B.contains-insert t.topic_ids i a j b,
  )

  -- Unsubscribing ends one subscription and no other.
  pub subscription-unsubscribe :
      (a i b j : ℕ) (t : Topics)
      → subscription j b (unsubscribe_with_topic_id a i t)
        ≡ (if (i == j) && (a == b) then none else subscription j b t)
  unfolding unsubscribe_with_topic_id
  subscription-unsubscribe a i b j t = ground (
    arith,
    subscription_lem j b (unsubscribe_with_topic_id a i t),
    subscription_lem j b t,
    B.contains-remove t.topic_ids i a j b,
  )

  -- Deleting a client's address ends its subscriptions, whatever the topic, and no other's.
  pub subscription-delete_socket_addr :
      (a b j : ℕ) (t : Topics)
      → subscription j b ((delete_topic_ids_with_socket_addr a t).1)
        ≡ (if a == b then none else subscription j b t)
  unfolding delete_topic_ids_with_socket_addr
  subscription-delete_socket_addr a b j t = ground (
    arith,
    subscription_lem j b ((delete_topic_ids_with_socket_addr a t).1),
    subscription_lem j b t,
    B.contains-rev_delete t.topic_ids a j b,
  )

  remove_each_lem :
      (i j b : ℕ) (subs : List ℕ) (m : ℕ × ℕ → Option ℕ)
      → remove_each i subs m (j, b) ≡ (if (i == j) && elem b subs then none else m (j, b))
  unfolding remove_each
  remove_each_lem i j b [] m = ground arith
  remove_each_lem i j b (s ∷ subs) m = ground (arith, remove_each_lem i j b subs (erase m (i, s)))

  -- Deleting a topic id ends the subscriptions to it, and no others.
  pub subscription-delete_topic_id :
      (i b j : ℕ) (t : Topics)
      → subscription j b (delete_topic_id i t) ≡ (if i == j then none else subscription j b t)
  unfolding delete_topic_id
  subscription-delete_topic_id i b j t = ground (
    arith,
    subscription_lem j b (delete_topic_id i t),
    subscription_lem j b t,
    B.contains-delete t.topic_ids i j b,
    remove_each_lem i j b (B.get t.topic_ids i) t.topic_ids_qos,
  )
