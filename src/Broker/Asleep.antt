-- ===== src/Broker/Asleep.antt =====
-- What is kept for a sleeping subscriber: `send_msg_to_subscribers` of lib/broker-lib/src/publish.rs
-- and the cache of asleep_msg_cache.rs.
use rust_mqtt_sn.Prelude.{
  ℕ, ◌≡◌, ◌∙◌, ap, Bool, true, false, Option, none, some, List, [], ◌∷◌, arith, ◌==◌, nat_eq,
  eq_refl, Bool-cases, inl, inr, if◌then◌else◌,
}
use rust_mqtt_sn.Outcome.{Outcome}
use rust_mqtt_sn.Exec.Keeps.{Keeps, keeps_rules, Keeps-then}
use rust_mqtt_sn.Bisetmap.{BisetMaps}
use rust_mqtt_sn.Connection.{Connection, StateEnum2, active, asleep, awake, disconnected, lost}
use rust_mqtt_sn.Topics.{Subscriber}
use rust_mqtt_sn.Wire.Messages.Publish.{Publish}
use rust_mqtt_sn.Broker.{Broker, publish_eq, on_retransmit, try_send, cache_asleep}
use rust_mqtt_sn.Retransmit
use rust_mqtt_sn.Broker.Sending.{send, send_in, send_known, send_to, send_msg_to_subscribers}
use rust_mqtt_sn.Broker.Delivery.{IsReady, send_known-Sends}

-- A subscriber has an address.
abbrev pub subscribes : ℕ → List Subscriber → Bool
subscribes a [] = false
subscribes a (s ∷ ss) = if s.socket_addr == a then true else subscribes a ss

module _ ⦃B : BisetMaps⦄ (a : ℕ) (p : Publish) where
  -- The publication is kept for the address.
  abbrev Stored : Broker → Type 0
  Stored b = B.contains b.asleep_msg_cache a p ≡ true

  try_send-Stored : (to : ℕ) (bytes : List ℕ) → Keeps Stored (try_send to bytes)
  unfolding try_send
  try_send-Stored to bytes = record { at = λ b h. ground arith }

  on_retransmit-Stored :
      (f : Retransmit.Wheel → Outcome (Unit {0}) × Retransmit.Wheel)
      → Keeps Stored (on_retransmit f)
  on_retransmit-Stored f = record { at = λ b h. h }

  cache_asleep-Stored : (to : ℕ) (q : Publish) → Keeps Stored (cache_asleep to q)
  unfolding cache_asleep
  cache_asleep-Stored to q = record {
    at = λ b h. ground (arith, B.contains-insert b.asleep_msg_cache to q a p);
  }

  ruleset stored_rules = (keeps_rules, try_send-Stored, on_retransmit-Stored, cache_asleep-Stored)

  send-Stored :
      (topic_id msg_id qos retain : ℕ) (payload : List ℕ) (to : ℕ)
      → Keeps Stored (send topic_id msg_id qos retain payload to)
  unfolding send
  send-Stored topic_id msg_id qos retain payload to = search stored_rules

  send_in-Stored :
      (state : StateEnum2) (s : Subscriber) (q : Publish) → Keeps Stored (send_in state s q)
  unfolding send_in
  send_in-Stored active s q = search (stored_rules, send-Stored)
  send_in-Stored asleep s q = search stored_rules
  send_in-Stored awake s q = search stored_rules
  send_in-Stored disconnected s q = search stored_rules
  send_in-Stored lost s q = search stored_rules

  send_known-Stored :
      (o : Option Connection) (s : Subscriber) (q : Publish) → Keeps Stored (send_known o s q)
  unfolding send_known
  send_known-Stored none s q = search stored_rules
  send_known-Stored (some c) s q = send_in-Stored c.state s q

  send_to-Stored : (s : Subscriber) (q : Publish) → Keeps Stored (send_to s q)
  unfolding send_to
  send_to-Stored s q = record {
    at = λ b h. (send_known-Stored (b.conn_hashmap s.socket_addr) s q).at b h;
  }

  send_msg_to_subscribers-Stored :
      (ss : List Subscriber) (q : Publish) → Keeps Stored (send_msg_to_subscribers ss q)
  unfolding send_msg_to_subscribers
  send_msg_to_subscribers-Stored [] q = search stored_rules
  send_msg_to_subscribers-Stored (s ∷ ss) q =
      Keeps-then (send_to s q) (send_msg_to_subscribers ss q) (send_to-Stored s q)
        (send_msg_to_subscribers-Stored ss q)

  send_in-stores :
      (state : StateEnum2) (s : Subscriber) (b : Broker)
      → s.socket_addr ≡ a
      → state ≡ asleep
      → Stored ((send_in state s p b).1)
  unfolding send_in cache_asleep
  send_in-stores state s b here slept = rw slept (
      ground (
        arith,
        here,
        B.contains-insert b.asleep_msg_cache s.socket_addr p a p,
        eq_refl a,
        eq_refl p,
      ))

  send_to-stores :
      (s : Subscriber) (c : Connection) (b : Broker)
      → s.socket_addr ≡ a
      → b.conn_hashmap a ≡ some c
      → c.state ≡ asleep
      → Stored ((send_to s p b).1)
  unfolding send_to send_known
  send_to-stores s c b here known slept =
      rw (ap b.conn_hashmap here ∙ known) (send_in-stores c.state s b here slept)

  -- In a ready broker, after a publication was sent to the subscribers, the cache contains it for
  -- each subscriber whose connection is asleep.
  pub contains-send_msg_to_subscribers :
      (ss : List Subscriber) (c : Connection) (b : Broker)
      → IsReady b
      → subscribes a ss ≡ true
      → b.conn_hashmap a ≡ some c
      → c.state ≡ asleep
      → B.contains ((send_msg_to_subscribers ss p b).1.asleep_msg_cache) a p ≡ true
  unfolding send_msg_to_subscribers send_to
  contains-send_msg_to_subscribers [] c b r h known slept = absurd (ground arith)
  contains-send_msg_to_subscribers (s ∷ ss) c b r h known slept =
      let (e, s1) = send_known-Sends (b.conn_hashmap s.socket_addr) s p b r in
      let b1 = (send_to s p b).1 in
      rw e (elim (Bool-cases (s.socket_addr == a)) [
        | inl here ↦
            (send_msg_to_subscribers-Stored ss p).at b1
              (send_to-stores s c b (ground (arith, here)) known slept)
        | inr there ↦
            contains-send_msg_to_subscribers ss c b1 s1.ready (ground (arith, h, there))
              (ap (λ m. m a) s1.same_conns ∙ known) slept
      ])
