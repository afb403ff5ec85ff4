-- ===== src/Broker/Delivery.antt =====
-- What a publication sends: `Publish::send` and `send_msg_to_subscribers` of
-- lib/broker-lib/src/publish.rs, when the channel is open and no lock is held by another thread.
use rust_mqtt_sn.Prelude.{
  ℕ, ◌+◌, ◌≡◌, refl, sym, subst, ◌∙◌, ap, true, Option, none, some, List, [], ◌∷◌, ◌++◌, length,
  arith, ltb, nat_eq, Bool-cases, append_nil, append_assoc, inl, inr, if◌then◌else◌,
}
use rust_mqtt_sn.Prelude.Bytes.{high, low, u8}
use rust_mqtt_sn.Outcome.{ok, err, too_long}
use rust_mqtt_sn.Bisetmap.{BisetMaps}
use rust_mqtt_sn.Connection.{Connection, StateEnum2, active, asleep, awake, disconnected, lost}
use rust_mqtt_sn.Retransmit
use rust_mqtt_sn.Topics.{Subscriber}
use rust_mqtt_sn.Wire.Consts.{msg_type_publish}
use rust_mqtt_sn.Wire.Flags.{flags_set}
use rust_mqtt_sn.Wire.Messages.Publish.{Publish}
use rust_mqtt_sn.Broker.{Broker, try_send, cache_asleep}
use rust_mqtt_sn.Broker.Sending.{
  publish_header, await_ack, send, send_in, send_known, send_to, send_msg_to_subscribers,
}

-- The octets of a PUBLISH that is not too long.
abbrev pub publish_octets : ℕ → ℕ → ℕ → ℕ → List ℕ → List ℕ
publish_octets topic_id msg_id qos retain payload =
    let flags = flags_set 0 qos retain 0 0 0 in
    let len = length payload + 7 in
    let rest =
      msg_type_publish
      ∷ flags
      ∷ high msg_id
      ∷ low msg_id
      ∷ high topic_id
      ∷ low topic_id
      ∷ payload in
    if ltb len 256 then u8 len ∷ rest else 1 ∷ high len ∷ low len ∷ rest

module _ ⦃B : BisetMaps⦄ where
  -- The channel is open, and the locks of the retransmission wheel are free.
  pub record IsReady (b : Broker) : Type 0 where
    pub opened : b.egress_open ≡ true
    pub map_free : b.retransmit.locks.map_free ≡ true
    pub slots_free : b.retransmit.locks.slots_free ≡ true
    pub slot_free : b.retransmit.locks.slot_free ≡ true

  -- The wheel with the timer of a message that was sent.
  abbrev pub awaited : ℕ → ℕ → ℕ → List ℕ → Broker → Retransmit.Wheel
  awaited qos addr msg_id bytes b = ((await_ack qos addr msg_id bytes b).1).retransmit

  await_ack_ready :
      (qos addr msg_id : ℕ) (bytes : List ℕ) (b : Broker)
      → IsReady b
      → await_ack qos addr msg_id bytes b
        ≡ (ok tt, record b { retransmit = awaited qos addr msg_id bytes b })
  unfolding Retransmit.schedule_timer
  await_ack_ready qos addr msg_id bytes b r = ground (arith, r.map_free, r.slots_free, r.slot_free)

  awaited-locks :
      (qos addr msg_id : ℕ) (bytes : List ℕ) (b : Broker)
      → IsReady b
      → (awaited qos addr msg_id bytes b).locks ≡ b.retransmit.locks
  unfolding Retransmit.schedule_timer
  awaited-locks qos addr msg_id bytes b r = ground (arith, r.map_free, r.slots_free, r.slot_free)

  -- The state after a PUBLISH: the message is the last one sent, its timer runs, and nothing else
  -- changed.
  abbrev pub after_send : ℕ → ℕ → ℕ → ℕ → List ℕ → ℕ → Broker → Broker
  after_send topic_id msg_id qos retain payload addr b =
      let bytes = publish_octets topic_id msg_id qos retain payload in
      record b {
        retransmit = awaited qos addr msg_id bytes b;
        egress = b.egress ++ ((addr, bytes) ∷ []);
      }

  -- `Publish::send` of a payload that fits sends one message, and refuses any other and changes
  -- nothing.
  pub send_ready :
      (topic_id msg_id qos retain : ℕ) (payload : List ℕ) (addr : ℕ) (b : Broker)
      → IsReady b
      → send topic_id msg_id qos retain payload addr b ≡ (
          if ltb (length payload + 7) 1400
          then (ok tt, after_send topic_id msg_id qos retain payload addr b)
          else (err too_long, b))
  unfolding send try_send publish_header
  send_ready topic_id msg_id qos retain payload addr b r = ground (
    arith,
    r.opened,
    await_ack_ready qos addr msg_id (publish_octets topic_id msg_id qos retain payload) b r,
  )

  -- A step that sends some messages and leaves the connections and the subscriptions alone.
  pub record Sends (b b' : Broker) (sent : List (ℕ × List ℕ)) : Type 0 where
    pub ready : IsReady b'
    pub same_conns : b'.conn_hashmap ≡ b.conn_hashmap
    pub same_topics : b'.topics ≡ b.topics
    pub egress_after : b'.egress ≡ b.egress ++ sent

  -- What a subscriber whose connection is in a state is sent of a publication.
  abbrev pub delivery_in : StateEnum2 → Subscriber → Publish → List (ℕ × List ℕ)
  delivery_in active s p =
      if ltb (length p.payload + 7) 1400
      then (s.socket_addr, publish_octets p.topic_id p.msg_id s.qos 0 p.payload) ∷ []
      else []
  delivery_in asleep s p = []
  delivery_in awake s p = []
  delivery_in disconnected s p = []
  delivery_in lost s p = []

  -- The messages that one subscriber is sent.
  abbrev pub delivery : Option Connection → Subscriber → Publish → List (ℕ × List ℕ)
  delivery none s p = []
  delivery (some c) s p = delivery_in c.state s p

  -- The messages that a publication sends, given the table of connections: one to each active
  -- subscriber, in the order of the subscribers.
  pub deliveries : (ℕ → Option Connection) → List Subscriber → Publish → List (ℕ × List ℕ)
  deliveries conns [] p = []
  deliveries conns (s ∷ ss) p = delivery (conns s.socket_addr) s p ++ deliveries conns ss p

  pub keep-IsReady :
      (b b' : Broker)
      → IsReady b
      → b'.egress_open ≡ b.egress_open
      → b'.retransmit.locks ≡ b.retransmit.locks
      → IsReady b'
  keep-IsReady b b' r e l = record {
    opened = e ∙ r.opened;
    map_free = ap (λ x. x.map_free) l ∙ r.map_free;
    slots_free = ap (λ x. x.slots_free) l ∙ r.slots_free;
    slot_free = ap (λ x. x.slot_free) l ∙ r.slot_free;
  }

  -- A step that sends nothing.
  pub quiet-Sends :
      (b b' : Broker)
      → IsReady b
      → b'.egress_open ≡ b.egress_open
      → b'.retransmit.locks ≡ b.retransmit.locks
      → b'.conn_hashmap ≡ b.conn_hashmap
      → b'.topics ≡ b.topics
      → b'.egress ≡ b.egress
      → Sends b b' []
  quiet-Sends b b' r o l c t e = record {
    ready = keep-IsReady b b' r o l;
    same_conns = c;
    same_topics = t;
    egress_after = e ∙ sym (append_nil b.egress);
  }

  pub after_send-Sends :
      (topic_id msg_id qos retain : ℕ) (payload : List ℕ) (addr : ℕ) (b : Broker)
      → IsReady b
      → Sends b
          (after_send topic_id msg_id qos retain payload addr b)
          ((addr, publish_octets topic_id msg_id qos retain payload) ∷ [])
  after_send-Sends topic_id msg_id qos retain payload addr b r = record {
    ready =
        keep-IsReady b (after_send topic_id msg_id qos retain payload addr b) r refl
          (awaited-locks qos addr msg_id (publish_octets topic_id msg_id qos retain payload) b r);
    same_conns = refl;
    same_topics = refl;
    egress_after = refl;
  }

  pub unchanged-Sends : (b : Broker) → IsReady b → Sends b b []
  unchanged-Sends b r = quiet-Sends b b r refl refl refl refl refl

  send_in-Sends :
      (state : StateEnum2) (s : Subscriber) (p : Publish) (b : Broker)
      → IsReady b
      → ((send_in state s p b).0 ≡ ok tt)
        × Sends b ((send_in state s p b).1) (delivery_in state s p)
  unfolding send_in cache_asleep
  send_in-Sends active s p b r = elim (Bool-cases (ltb (length p.payload + 7) 1400)) [
    | inl fits ↦
        rw (send_ready p.topic_id p.msg_id s.qos 0 p.payload s.socket_addr b r, fits)
          (refl, after_send-Sends p.topic_id p.msg_id s.qos 0 p.payload s.socket_addr b r)
    | inr fits ↦
        rw (send_ready p.topic_id p.msg_id s.qos 0 p.payload s.socket_addr b r, fits)
          (refl, unchanged-Sends b r)
  ]
  send_in-Sends asleep s p b r =
      (refl, quiet-Sends b ((cache_asleep s.socket_addr p b).1) r refl refl refl refl refl)
  send_in-Sends awake s p b r = (refl, unchanged-Sends b r)
  send_in-Sends disconnected s p b r = (refl, unchanged-Sends b r)
  send_in-Sends lost s p b r = (refl, unchanged-Sends b r)

  pub Sends-trans :
      {b b1 b2 : Broker} {sent more : List (ℕ × List ℕ)}
      → Sends b b1 sent
      → Sends b1 b2 more
      → Sends b b2 (sent ++ more)
  Sends-trans {b} {b1} {b2} {sent} {more} s t = record {
    ready = t.ready;
    same_conns = t.same_conns ∙ s.same_conns;
    same_topics = t.same_topics ∙ s.same_topics;
    egress_after =
        t.egress_after ∙ ap (λ e. e ++ more) s.egress_after ∙ append_assoc b.egress sent more;
  }

  pub send_known-Sends :
      (o : Option Connection) (s : Subscriber) (p : Publish) (b : Broker)
      → IsReady b
      → ((send_known o s p b).0 ≡ ok tt) × Sends b ((send_known o s p b).1) (delivery o s p)
  unfolding send_known
  send_known-Sends none s p b r = (refl, unchanged-Sends b r)
  send_known-Sends (some c) s p b r = send_in-Sends c.state s p b r

  -- In a ready broker, publishing to a list of subscribers returns `Ok`, sends exactly the
  -- deliveries in their order, and leaves the broker ready and its connections and topics alone.
  pub send_msg_to_subscribers-Sends :
      (ss : List Subscriber) (p : Publish) (b : Broker)
      → IsReady b
      → ((send_msg_to_subscribers ss p b).0 ≡ ok tt)
        × Sends b ((send_msg_to_subscribers ss p b).1) (deliveries b.conn_hashmap ss p)
  unfolding send_msg_to_subscribers send_to deliveries
  send_msg_to_subscribers-Sends [] p b r = (refl, unchanged-Sends b r)
  send_msg_to_subscribers-Sends (s ∷ ss) p b r =
      let (e, s1) = send_known-Sends (b.conn_hashmap s.socket_addr) s p b r in
      let b1 = (send_to s p b).1 in
      let b2 = (send_msg_to_subscribers ss p b1).1 in
      let (e', s2) = send_msg_to_subscribers-Sends ss p b1 s1.ready in
      rw e (e', Sends-trans s1 (subst (λ c. Sends b1 b2 (deliveries c ss p)) s1.same_conns s2))
