-- ===== src/Client/TopicIds.antt =====
-- The topic ids that `subscribe_topic_id` of lib/client-lib/src/ClientLib.rs writes in decimal digits,
-- and what the broker of lib/broker-lib/src makes of them.
use rust_mqtt_sn.Prelude.{
  ℕ, zero, suc, Bool-cases, inl, inr, ◌∙◌, ◌^◌, ◌+◌, ◌*◌, ◌/◌, ◌%◌, ◌<◌, ◌≡◌, refl, Option, none,
  some, List, [], ◌∷◌, ◌++◌, length, arith, ltb, ◌&&◌, ◌==◌, nat_eq, if◌then◌else◌, All, true,
  eq_of_true, subst, ap,
}
use rust_mqtt_sn.Outcome.{ok, err, invalid_topic}
use rust_mqtt_sn.Prelude.Bytes.{all_below, all_below_sound}
use rust_mqtt_sn.Bisetmap.{BisetMaps}
use rust_mqtt_sn.Wire.Consts.{return_code_accepted}
use rust_mqtt_sn.Wire.Utf8.{is_utf8, is_utf8_ascii, IsAscii}
use rust_mqtt_sn.Wire.Flags.{
  flags_set, flag_topic_id_type, flag_qos_level, topic_id_type_pre_defined,
}
use rust_mqtt_sn.Wire.Header.{MsgHeader, short}
use rust_mqtt_sn.Wire.Messages.Subscribe as SubscribeForm
use rust_mqtt_sn.Topics.{subscribe_with_topic_id}
use rust_mqtt_sn.Topics.Subscriptions.{subscription, subscription-subscribe}
use rust_mqtt_sn.Broker.{Broker, Retain}
use rust_mqtt_sn.Broker.Delivery.{IsReady, send_ready, keep-IsReady}
use rust_mqtt_sn.Broker.Steps.{try_send-Sends}
use rust_mqtt_sn.Handlers.SubAck
use rust_mqtt_sn.Client.{Client, transmit, schedule}
use rust_mqtt_sn.Client.Loop.{subscribe_topic_id}
use rust_mqtt_sn.Client.Handlers.Subscribe as ClientSubscribe
use rust_mqtt_sn.Handlers.Subscribe as BrokerSubscribe
use rust_mqtt_sn.Handlers.Unsubscribe as BrokerUnsubscribe
use rust_mqtt_sn.Client.Decimal.{decimal, digits}

-- What the broker takes two digits for: the number whose octets are the digits' codes.
abbrev pub digit_codes : ℕ → ℕ
digit_codes n = (48 + n / 10) * 256 + (48 + n % 10)

pub pre_defined_id-decimal :
    (n : ℕ)
    → n < 65536
    → BrokerSubscribe.pre_defined_id (decimal n)
      ≡ (if ltb 9 n && ltb n 100 then ok (digit_codes n) else err invalid_topic)
unfolding decimal digits BrokerSubscribe.pre_defined_id
pre_defined_id-decimal n l = ground arith

-- The sign that `parse` looks for is no digit.
parse_u16-digits :
    (fuel n d : ℕ) (rest : List ℕ)
    → BrokerUnsubscribe.parse_u16 (digits fuel n ((48 + d) ∷ rest))
      ≡ BrokerUnsubscribe.digits 0 (digits fuel n ((48 + d) ∷ rest))
unfolding digits BrokerUnsubscribe.parse_u16 BrokerUnsubscribe.parse_digits
parse_u16-digits zero n d rest = ground arith
parse_u16-digits (suc fuel) n d rest =
    ground (arith, parse_u16-digits fuel (n / 10) (n % 10) ((48 + d) ∷ rest))

-- Reading the digits of `n` brings the reader to `n`.
digits-digits :
    (fuel n : ℕ) (rest : List ℕ)
    → n < 10 ^ fuel
    → n < 65536
    → BrokerUnsubscribe.digits 0 (digits fuel n rest) ≡ BrokerUnsubscribe.digits n rest
unfolding digits BrokerUnsubscribe.digits
digits-digits zero n rest l small = ground arith
digits-digits (suc fuel) n rest l small =
    ground (arith, digits-digits fuel (n / 10) ((48 + n % 10) ∷ rest) (omega arith) (omega arith))

-- The decimal digits of a topic id are read back, as UNSUBSCRIBE reads them.
pub parse_u16-decimal : (n : ℕ) → n < 65536 → BrokerUnsubscribe.parse_u16 (decimal n) ≡ some n
unfolding decimal digits BrokerUnsubscribe.digits
parse_u16-decimal n l = elim (Bool-cases (ltb n 10)) [
  | inl one ↦ rw one (parse_u16-digits 0 0 n [] ∙ ground (arith, one))
  | inr more ↦ rw more (
      parse_u16-digits 4 (n / 10) (n % 10) []
      ∙ digits-digits 4 (n / 10) ((48 + n % 10) ∷ []) (omega arith) (omega arith)
      ∙ ground arith)
]

digits-IsAscii : (fuel n : ℕ) (rest : List ℕ) → All IsAscii rest → All IsAscii (digits fuel n rest)
unfolding digits
digits-IsAscii zero n rest a = a
digits-IsAscii (suc fuel) n rest a = elim (Bool-cases (ltb n 10)) [
  | inl one ↦ ground (arith, a, one)
  | inr more ↦ rw more (digits-IsAscii fuel (n / 10) ((48 + n % 10) ∷ rest) (omega arith, a))
]

decimal-is_utf8 : (n : ℕ) → is_utf8 (decimal n) ≡ true
unfolding decimal
decimal-is_utf8 n = is_utf8_ascii (digits 5 n []) (digits-IsAscii 5 n [] tt)

-- The flags of `subscribe_topic_id` for the QoS `q` and a retain bit.
abbrev pre_defined_flags : ℕ → ℕ
pre_defined_flags i = flags_set 0 (i / 2 * 32) (i % 2 * 16) 0 0 topic_id_type_pre_defined

flags_table :
    all_below (λ i. flag_topic_id_type (pre_defined_flags i) == topic_id_type_pre_defined) 8 ≡ true
unfolding all_below flag_topic_id_type flags_set
flags_table = refl

pre_defined_flags-type :
    (q r : ℕ)
    → q < 4
    → r < 2
    → flag_topic_id_type (flags_set 0 (q * 32) (r * 16) 0 0 topic_id_type_pre_defined)
      ≡ topic_id_type_pre_defined
pre_defined_flags-type q r l k =
    let i = q * 2 + r in
    let high_ : i / 2 ≡ q = omega arith in
    let low_ : i % 2 ≡ r = omega arith in
    let e =
      all_below_sound (λ i. flag_topic_id_type (pre_defined_flags i) == topic_id_type_pre_defined) 8
        i (omega arith) flags_table in
    subst
      (λ q'.
        flag_topic_id_type (flags_set 0 (q' * 32) (r * 16) 0 0 topic_id_type_pre_defined)
        ≡ topic_id_type_pre_defined)
      high_
      (subst
        (λ r'.
          flag_topic_id_type (flags_set 0 (i / 2 * 32) (r' * 16) 0 0 topic_id_type_pre_defined)
          ≡ topic_id_type_pre_defined)
        low_ (eq_of_true _ _ e))

length-try_write :
    (m : SubscribeForm.Subscribe) → length (SubscribeForm.try_write m) ≡ 5 + length m.topic_name
unfolding SubscribeForm.try_write
length-try_write m = omega arith

module _ ⦃B : BisetMaps⦄ where
  send_retained-topics :
      (o : Option Retain) (addr : ℕ) (b : Broker)
      → IsReady b
      → (BrokerSubscribe.send_retained o addr b).1.topics ≡ b.topics
  unfolding BrokerSubscribe.send_retained
  send_retained-topics none addr b r = refl
  send_retained-topics (some m) addr b r =
      rw (send_ready m.topic_id m.msg_id m.qos 0 m.payload addr b r) (ground arith)

  suback-Sends :
      (h : MsgHeader) (flags id m : ℕ) (b : Broker)
      → IsReady b
      → ((SubAck.send h flags id m return_code_accepted b).0 ≡ ok tt)
        × IsReady ((SubAck.send h flags id m return_code_accepted b).1)
        × ((SubAck.send h flags id m return_code_accepted b).1.topics ≡ b.topics)
  unfolding SubAck.send
  suback-Sends h flags id m b r =
      let (fine, s, same) = try_send-Sends h.remote_socket_addr _ b r in
      (fine, s.ready, s.same_topics)

  -- A SUBSCRIBE to a predefined topic id.
  receive-pre_defined :
      (id : ℕ) (m : SubscribeForm.Subscribe) (h : MsgHeader) (b : Broker) (j a : ℕ)
      → IsReady b
      → flag_topic_id_type m.flags ≡ topic_id_type_pre_defined
      → BrokerSubscribe.pre_defined_id m.topic_name ≡ ok id
      → subscription j a ((BrokerSubscribe.receive m h b).1.topics) ≡ (
          if (id == j) && (h.remote_socket_addr == a)
          then some (flag_qos_level m.flags)
          else subscription j a b.topics)
  unfolding BrokerSubscribe.receive
  receive-pre_defined id m h b j a r kind e =
      let addr = h.remote_socket_addr in
      let b1 : Broker = record b {
        topics = subscribe_with_topic_id addr id (flag_qos_level m.flags) b.topics;
      } in
      let (fine, r2, same) =
        suback-Sends h m.flags id m.msg_id b1 (keep-IsReady b b1 r refl refl) in
      let b2 = (SubAck.send h m.flags id m.msg_id return_code_accepted b1).1 in
      let kept = send_retained-topics (b2.retain_map id) addr b2 r2 in
      rw (kind, e, fine)
        (ap (subscription j a) (kept ∙ same)
          ∙ subscription-subscribe addr id (flag_qos_level m.flags) a j b.topics)

  receive-refused :
      (m : SubscribeForm.Subscribe) (h : MsgHeader) (b : Broker)
      → flag_topic_id_type m.flags ≡ topic_id_type_pre_defined
      → BrokerSubscribe.pre_defined_id m.topic_name ≡ err invalid_topic
      → BrokerSubscribe.receive m h b ≡ (err invalid_topic, b)
  unfolding BrokerSubscribe.receive
  receive-refused m h b kind e = rw (kind, e) refl

  -- A client's SUBSCRIBE reaches the handler as it was written.
  recv-written :
      (m : SubscribeForm.Subscribe) (h : MsgHeader) (b : Broker)
      → h.header_len ≡ short
      → is_utf8 m.topic_name ≡ true
      → BrokerSubscribe.recv (SubscribeForm.try_write m) (length (SubscribeForm.try_write m)) h b
        ≡ BrokerSubscribe.receive m h b
  unfolding BrokerSubscribe.recv BrokerSubscribe.read_message
  recv-written m h b s u =
      let size : length (SubscribeForm.try_write m) ≡ 5 + length m.topic_name =
        length-try_write m in
      let here : (5 + length m.topic_name == length (SubscribeForm.try_write m)) ≡ true =
        ground arith in
      rw (s, SubscribeForm.try_read-try_write m u, here) refl

  -- The octets of a SUBSCRIBE to the topic id `n` with the QoS `q`.
  abbrev pub request : ℕ → ℕ → ℕ → ℕ → List ℕ
  request n m q r =
      SubscribeForm.try_write
        (ClientSubscribe.new (decimal n) m (q * 32) (r * 16) topic_id_type_pre_defined)

  -- The subscription of the address `a` to the topic `j` after it.
  abbrev pub misread : ℕ → ℕ → ℕ → ℕ → ℕ → MsgHeader → Broker → Option ℕ
  misread n q r j a h b =
      if ltb 9 n && ltb n 100
      then (if (digit_codes n == j) && (h.remote_socket_addr == a)
          then some (flag_qos_level (flags_set 0 (q * 32) (r * 16) 0 0 topic_id_type_pre_defined))
          else subscription j a b.topics)
      else subscription j a b.topics

  -- What the broker makes of the octets of a SUBSCRIBE to the id `n`.
  subscription-misread :
      (n m q r j a : ℕ) (h : MsgHeader) (b : Broker)
      → IsReady b
      → n < 65536
      → q < 4
      → r < 2
      → h.header_len ≡ short
      → subscription j a
          ((BrokerSubscribe.recv (request n m q r) (length (request n m q r)) h b).1.topics)
        ≡ misread n q r j a h b
  unfolding ClientSubscribe.new
  subscription-misread n m q r j a h b ready l lq lr s =
      let message = ClientSubscribe.new (decimal n) m (q * 32) (r * 16) topic_id_type_pre_defined in
      let kind = pre_defined_flags-type q r lq lr in
      let e = pre_defined_id-decimal n l in
      rw (recv-written message h b s (decimal-is_utf8 n))
        (elim (Bool-cases (ltb 9 n && ltb n 100)) [
          | inl two ↦
              rw two (receive-pre_defined (digit_codes n) message h b j a ready kind (rw two at e))
          | inr out ↦ rw (out, receive-refused message h b kind (rw out at e)) refl
        ])

  -- `subscribe_topic_id` with an id of two digits makes a ready broker subscribe the client to the
  -- topic whose id has the digits' character codes as its octets, and with any other id the broker
  -- changes no subscription; so it never subscribes the client to the id that was asked for.
  pub subscribe_topic_id-misread :
      (n m q r addr j a : ℕ) (c : Client) (h : MsgHeader) (b : Broker)
      → IsReady b
      → n < 65536
      → q < 4
      → r < 2
      → h.header_len ≡ short
      → (octets : List ℕ) × ((subscribe_topic_id n m (q * 32) (r * 16) addr c).1.transmit
          ≡ c.transmit ++ ((addr, octets) ∷ []))
        × (subscription j a ((BrokerSubscribe.recv octets (length octets) h b).1.topics)
            ≡ misread n q r j a h b)
        × (subscription n a ((BrokerSubscribe.recv octets (length octets) h b).1.topics)
            ≡ subscription n a b.topics)
  unfolding subscribe_topic_id ClientSubscribe.tx transmit schedule ClientSubscribe.new
  subscribe_topic_id-misread n m q r addr j a c h b ready l lq lr s = (
    request n m q r,
    ground arith,
    subscription-misread n m q r j a h b ready l lq lr s,
    subscription-misread n m q r n a h b ready l lq lr s ∙ ground arith,
  )
