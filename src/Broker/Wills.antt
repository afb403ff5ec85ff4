-- ===== src/Broker/Wills.antt =====
-- Who gets a will: `publish_will` of lib/broker-lib/src/connection.rs, the end of
-- `Disconnect::recv` in disconnect.rs, and the timeout of keep_alive.rs, when the channel is open
-- and the locks of the retransmission wheel are free.
use rust_mqtt_sn.Prelude.{
  ℕ, ◌+◌, ◌≡◌, refl, ap, Option, none, some, List, [], ◌∷◌, ◌++◌, length, ltb, arith, nat_eq, put,
  eq_refl, if◌then◌else◌, Bool-cases, inl, inr,
}
use rust_mqtt_sn.Outcome.{ok}
use rust_mqtt_sn.Exec.{attempt}
use rust_mqtt_sn.Bisetmap.{BisetMaps}
use rust_mqtt_sn.Connection.{Connection, lost}
use rust_mqtt_sn.Topics.{Topics, Subscriber, get_subscribers_with_topic_id}
use rust_mqtt_sn.Broker.{Broker}
use rust_mqtt_sn.Broker.Sending.{send, send_will}
use rust_mqtt_sn.Broker.Clients.{publish_to, publish_will_of, publish_will, update_state}
use rust_mqtt_sn.Broker.Delivery.{
  IsReady, Sends, Sends-trans, unchanged-Sends, keep-IsReady, publish_octets, send_ready,
  after_send-Sends,
}
use rust_mqtt_sn.Timers.{expire}

-- A will goes to every subscriber of its topic, whatever the state of the subscriber's connection.
pub will_messages : ℕ → List ℕ → List Subscriber → List (ℕ × List ℕ)
will_messages topic_id msg [] = []
will_messages topic_id msg (s ∷ ss) =
    let rest = will_messages topic_id msg ss in
    (if ltb (length msg + 7) 1400
      then (s.socket_addr, publish_octets topic_id 0 s.qos 0 msg) ∷ []
      else [])
    ++ rest

module _ ⦃B : BisetMaps⦄ where
  -- The messages of a connection's will.
  abbrev pub wills : Option ℕ → List ℕ → Topics → List (ℕ × List ℕ)
  wills none msg t = []
  wills (some topic_id) msg t =
      will_messages topic_id msg (get_subscribers_with_topic_id topic_id t)

  send_one-Sends :
      (topic_id : ℕ) (msg : List ℕ) (s : Subscriber) (b : Broker)
      → IsReady b
      → ((attempt (send topic_id 0 s.qos 0 msg s.socket_addr) b).0 ≡ ok tt)
        × Sends b ((attempt (send topic_id 0 s.qos 0 msg s.socket_addr) b).1) (
            if ltb (length msg + 7) 1400
            then (s.socket_addr, publish_octets topic_id 0 s.qos 0 msg) ∷ []
            else [])
  send_one-Sends topic_id msg s b r = elim (Bool-cases (ltb (length msg + 7) 1400)) [
    | inl fits ↦
        rw (send_ready topic_id 0 s.qos 0 msg s.socket_addr b r, fits)
          (refl, after_send-Sends topic_id 0 s.qos 0 msg s.socket_addr b r)
    | inr fits ↦
        rw (send_ready topic_id 0 s.qos 0 msg s.socket_addr b r, fits) (refl, unchanged-Sends b r)
  ]

  send_will-Sends :
      (topic_id : ℕ) (msg : List ℕ) (ss : List Subscriber) (b : Broker)
      → IsReady b
      → ((send_will topic_id msg ss b).0 ≡ ok tt)
        × Sends b ((send_will topic_id msg ss b).1) (will_messages topic_id msg ss)
  unfolding send_will will_messages
  send_will-Sends topic_id msg [] b r = (refl, unchanged-Sends b r)
  send_will-Sends topic_id msg (s ∷ ss) b r =
      let (e, s1) = send_one-Sends topic_id msg s b r in
      let b1 = (attempt (send topic_id 0 s.qos 0 msg s.socket_addr) b).1 in
      let (e', s2) = send_will-Sends topic_id msg ss b1 s1.ready in rw e (e', Sends-trans s1 s2)

  publish_to-Sends :
      (o : Option ℕ) (msg : List ℕ) (b : Broker)
      → IsReady b
      → ((publish_to o msg b).0 ≡ ok tt) × Sends b ((publish_to o msg b).1) (wills o msg b.topics)
  unfolding publish_to
  publish_to-Sends none msg b r = (refl, unchanged-Sends b r)
  publish_to-Sends (some id) msg b r =
      send_will-Sends id msg (get_subscribers_with_topic_id id b.topics) b r

  pub publish_will_of-Sends :
      (c : Connection) (b : Broker)
      → IsReady b
      → ((publish_will_of c b).0 ≡ ok tt)
        × Sends b ((publish_will_of c b).1) (wills c.will_topic_id c.will_message b.topics)
  unfolding publish_will_of
  publish_will_of-Sends c b r = publish_to-Sends c.will_topic_id c.will_message b r

  -- In a ready broker, a connection that times out is lost from then on, and its will is published.
  pub expire_known :
      (addr : ℕ) (c : Connection) (b : Broker)
      → IsReady b
      → b.conn_hashmap addr ≡ some c
      → ((expire addr b).0 ≡ ok tt)
        × ((expire addr b).1.conn_hashmap addr ≡ some (record c { state = lost }))
        × ((expire addr b).1.egress ≡ b.egress ++ wills c.will_topic_id c.will_message b.topics)
  unfolding expire update_state publish_will
  expire_known addr c b r e =
      let c' : Connection = record c { state = lost } in
      let b' : Broker = record b { conn_hashmap = put b.conn_hashmap addr c' } in
      let (o, s) = publish_will_of-Sends c' b' (keep-IsReady b b' r refl refl) in
      let same = ap (λ m. m addr) s.same_conns in
      let sent = s.egress_after in ground (arith, eq_refl addr)
