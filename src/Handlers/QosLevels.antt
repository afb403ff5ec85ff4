-- ===== src/Handlers/QosLevels.antt =====
-- What the three QoS levels mean for a publication: `Publish::recv` and `PubRel::recv` of
-- lib/broker-lib/src/publish.rs and pub_rel.rs, when the channel is open and the locks are free.
use rust_mqtt_sn.Prelude.{
  ℕ, ◌≡◌, refl, subst, ◌∙◌, Option, none, some, List, [], ◌∷◌, ◌++◌, arith, nat_eq, pair_eq,
  Bool-cases, inl, inr,
}
use rust_mqtt_sn.Prelude.Bytes.{high, low}
use rust_mqtt_sn.Outcome.{Outcome-cases, ok, err, already_exists}
use rust_mqtt_sn.Exec.{Exec, ◌>>◌}
use rust_mqtt_sn.Bisetmap.{BisetMaps}
use rust_mqtt_sn.Connection.{Connection, StateEnum2, active, asleep, awake, disconnected, lost}
use rust_mqtt_sn.Retransmit
use rust_mqtt_sn.Topics.{Subscriber}
use rust_mqtt_sn.Wire.Flags.{flag_is_retain, flag_qos_level, qos_level_0, qos_level_1, qos_level_2}
use rust_mqtt_sn.Wire.Header.{MsgHeader}
use rust_mqtt_sn.Wire.Messages.Publish.{Publish}
use rust_mqtt_sn.Broker.{Broker, PubMsgCache, try_send, cache_publish, cache_asleep, retain, Retain}
use rust_mqtt_sn.Broker.Sending.{
  send, send_in, send_known, send_to, send_msg_to_subscribers, publish_header, await_ack,
}
use rust_mqtt_sn.Broker.Delivery.{
  IsReady, Sends, Sends-trans, deliveries, send_msg_to_subscribers-Sends,
}
use rust_mqtt_sn.Broker.Steps.{try_send-Sends, retain-Sends}
use rust_mqtt_sn.Handlers.PubAck
use rust_mqtt_sn.Handlers.PubRec
use rust_mqtt_sn.Handlers.Publish.{hold, deliver, receive}

-- The octets of PUBACK, PUBREC and PUBCOMP.
abbrev pub puback : ℕ → ℕ → List ℕ
puback topic_id msg_id = 7 ∷ 13 ∷ high topic_id ∷ low topic_id ∷ high msg_id ∷ low msg_id ∷ 0 ∷ []

abbrev pub pubrec : ℕ → List ℕ
pubrec msg_id = 4 ∷ 15 ∷ high msg_id ∷ low msg_id ∷ []

abbrev pub pubcomp : ℕ → List ℕ
pubcomp msg_id = 4 ∷ 14 ∷ high msg_id ∷ low msg_id ∷ []

module _ ⦃B : BisetMaps⦄ where
  -- The messages that the release of a cached publication sends.
  abbrev pub released : (ℕ → Option Connection) → Option PubMsgCache → List (ℕ × List ℕ)
  released conns none = []
  released conns (some c) = deliveries conns c.subscriber_vec c.publish

  deliver-Sends :
      (p : Publish) (ss : List Subscriber) (b : Broker)
      → IsReady b
      → ((deliver p ss b).0 ≡ ok tt) × Sends b ((deliver p ss b).1) (deliveries b.conn_hashmap ss p)
  unfolding deliver retain
  deliver-Sends p ss b r =
      let m : Retain = record {
        qos = flag_qos_level p.flags;
        topic_id = p.topic_id;
        msg_id = p.msg_id;
        payload = p.payload;
      } in
      let s = retain-Sends m b r in
      let (e, s') = send_msg_to_subscribers-Sends ss p ((retain m b).1) s.ready in
      elim (Bool-cases (flag_is_retain p.flags)) [
        | inl f ↦ rw f (e, Sends-trans s s')
        | inr f ↦ rw f (send_msg_to_subscribers-Sends ss p b r)
      ]

  receive_0 :
      (p : Publish) (ss : List Subscriber) (h : MsgHeader) (b : Broker)
      → flag_qos_level p.flags ≡ qos_level_0
      → receive p ss h b ≡ deliver p ss b
  unfolding receive
  receive_0 p ss h b q = ground arith

  receive_1 :
      (p : Publish) (ss : List Subscriber) (h : MsgHeader) (b : Broker)
      → flag_qos_level p.flags ≡ qos_level_1
      → receive p ss h b
        ≡ (try_send h.remote_socket_addr (puback p.topic_id p.msg_id) >> deliver p ss) b
  unfolding receive PubAck.send
  receive_1 p ss h b q = ground arith

  -- In a ready broker, a publication of QoS 0 is sent to its active subscribers, and nobody else is sent anything.
  pub receive-qos_0 :
      (p : Publish) (ss : List Subscriber) (h : MsgHeader) (b : Broker)
      → IsReady b
      → flag_qos_level p.flags ≡ qos_level_0
      → ((receive p ss h b).0 ≡ ok tt)
        × Sends b ((receive p ss h b).1) (deliveries b.conn_hashmap ss p)
  receive-qos_0 p ss h b r q = rw (receive_0 p ss h b q) (deliver-Sends p ss b r)

  -- In a ready broker, a publication of QoS 1 is acknowledged to its sender first, and then sent like one of QoS 0.
  pub receive-qos_1 :
      (p : Publish) (ss : List Subscriber) (h : MsgHeader) (b : Broker)
      → IsReady b
      → flag_qos_level p.flags ≡ qos_level_1
      → ((receive p ss h b).0 ≡ ok tt)
        × Sends b
            ((receive p ss h b).1)
            ((h.remote_socket_addr, puback p.topic_id p.msg_id) ∷ deliveries b.conn_hashmap ss p)
  receive-qos_1 p ss h b r q =
      let (e, s, _) = try_send-Sends h.remote_socket_addr (puback p.topic_id p.msg_id) b r in
      let b1 = (try_send h.remote_socket_addr (puback p.topic_id p.msg_id) b).1 in
      let (e', s') = deliver-Sends p ss b1 s.ready in
      let b2 = (deliver p ss b1).1 in
      rw (receive_1 p ss h b q, e)
        (e', Sends-trans s (subst (λ c. Sends b1 b2 (deliveries c ss p)) s.same_conns s'))

  -- In a ready broker, a publication of QoS 2 whose message id is not in use is answered by PUBREC, kept with its
  -- subscribers, and sent to nobody yet. One whose message id is in use is answered in the same way,
  -- refused, and what was kept stays.
  pub receive-qos_2 :
      (p : Publish) (ss : List Subscriber) (h : MsgHeader) (b : Broker)
      → IsReady b
      → flag_qos_level p.flags ≡ qos_level_2
      → (((receive p ss h b).0 ≡ elim (b.pub_msg_cache (h.remote_socket_addr, p.msg_id)) [
        | none ↦ ok tt
        | some c ↦ err already_exists
      ])
          × ((receive p ss h b).1.egress
              ≡ b.egress ++ ((h.remote_socket_addr, pubrec p.msg_id) ∷ []))
          × ((receive p ss h b).1.pub_msg_cache (h.remote_socket_addr, p.msg_id)
              ≡ elim (b.pub_msg_cache (h.remote_socket_addr, p.msg_id)) [
                | none ↦ some (record { publish = p; subscriber_vec = ss })
                | some c ↦ some c
              ]))
  unfolding receive hold PubRec.send try_send cache_publish Retransmit.schedule_timer
  receive-qos_2 p ss h b r q = ground (arith, r.opened, r.map_free, r.slots_free, r.slot_free)

  -- The cache of publications is not touched by sending.
  await_ack-cache :
      (qos addr msg_id : ℕ) (bytes : List ℕ) (b : Broker)
      → (await_ack qos addr msg_id bytes b).1.pub_msg_cache ≡ b.pub_msg_cache
  await_ack-cache qos addr msg_id bytes b = ground arith

  send-cache :
      (topic_id msg_id qos retain : ℕ) (payload : List ℕ) (addr : ℕ) (b : Broker)
      → (send topic_id msg_id qos retain payload addr b).1.pub_msg_cache ≡ b.pub_msg_cache
  unfolding send publish_header try_send
  send-cache topic_id msg_id qos retain payload addr b = ground arith

  send_in-cache :
      (state : StateEnum2) (s : Subscriber) (p : Publish) (b : Broker)
      → (send_in state s p b).1.pub_msg_cache ≡ b.pub_msg_cache
  unfolding send_in cache_asleep
  send_in-cache active s p b = send-cache p.topic_id p.msg_id s.qos 0 p.payload s.socket_addr b
  send_in-cache asleep s p b = refl
  send_in-cache awake s p b = refl
  send_in-cache disconnected s p b = refl
  send_in-cache lost s p b = refl

  send_known-cache :
      (o : Option Connection) (s : Subscriber) (p : Publish) (b : Broker)
      → (send_known o s p b).1.pub_msg_cache ≡ b.pub_msg_cache
  unfolding send_known
  send_known-cache none s p b = refl
  send_known-cache (some c) s p b = send_in-cache c.state s p b

  -- `a >> k` goes on only after `Ok`.
  then-cache :
      (m k : Exec Broker (Unit {0})) (b : Broker)
      → (m b).1.pub_msg_cache ≡ b.pub_msg_cache
      → ((b' : Broker) → (k b').1.pub_msg_cache ≡ b'.pub_msg_cache)
      → ((m >> k) b).1.pub_msg_cache ≡ b.pub_msg_cache
  then-cache m k b e f = elim (Outcome-cases ((m b).0)) [
    | inl (_, o) ↦ rw o (f ((m b).1) ∙ e)
    | inr (inl (_, o)) ↦ rw o e
    | inr (inr o) ↦ rw o e
  ]

  pub send_msg_to_subscribers-cache :
      (ss : List Subscriber) (p : Publish) (b : Broker)
      → (send_msg_to_subscribers ss p b).1.pub_msg_cache ≡ b.pub_msg_cache
  unfolding send_msg_to_subscribers send_to
  send_msg_to_subscribers-cache [] p b = refl
  send_msg_to_subscribers-cache (s ∷ ss) p b =
      then-cache (send_to s p) (send_msg_to_subscribers ss p) b
        (send_known-cache (b.conn_hashmap s.socket_addr) s p b)
        (λ b'. send_msg_to_subscribers-cache ss p b')
