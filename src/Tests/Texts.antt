-- ===== src/Tests/Texts.antt =====
-- The properties of topic filters and of the octets on the wire at concrete texts.
use rust_mqtt_sn.Prelude.{
  ℕ, zero, suc, ◌+◌, ◌≤◌, ◌<◌, ◌≡◌, ◌↔◌, ◌⊎◌, refl, true, some, List, [], ◌∷◌, ◌++◌, arith, length,
  get_elem?,
}
use rust_mqtt_sn.Outcome.{ok, err, panic, size_mismatch}
use rust_mqtt_sn.Filter.{has_wildcards, valid_filter, match_topic, slash, hash}
use rust_mqtt_sn.Filter.Matching.{match_topic-below}
use rust_mqtt_sn.Filter.Validity.{Accepted, valid_filter-Accepted}
use rust_mqtt_sn.Wire.Flags.{flags_set}
use rust_mqtt_sn.Wire.Framing.{try_read-panics}
use rust_mqtt_sn.Wire.Header
use rust_mqtt_sn.Wire.Header.{MsgHeader, short}
use rust_mqtt_sn.Wire.RoundTrips.{messages_read_back}
use rust_mqtt_sn.Wire.Utf8.{is_utf8}
use rust_mqtt_sn.Wire.Messages.Connect
use rust_mqtt_sn.Wire.Messages.Publish
use rust_mqtt_sn.Wire.Messages.Register
use rust_mqtt_sn.Wire.Messages.Subscribe
use rust_mqtt_sn.Wire.Messages.WillTopic
use rust_mqtt_sn.Bisetmap.Pairs.{pairs}
use rust_mqtt_sn.Broker.Sending.{send}
use rust_mqtt_sn.Broker.PublishForm.{send-swapped, send-refused}
use rust_mqtt_sn.Tests.Data.{broker, broker-IsReady}

-- `a/b` and `a`
abbrev a_b : List ℕ
a_b = 97 ∷ 47 ∷ 98 ∷ []

abbrev just_a : List ℕ
just_a = 97 ∷ []

match_topic-below_example :
    (match_topic a_b (just_a ++ slash ∷ hash ∷ []) ≡ ok true)
    ↔ ((a_b ≡ just_a) ⊎ ((q : List ℕ) × (a_b ≡ just_a ++ slash ∷ q)))
unfolding has_wildcards
match_topic-below_example = match_topic-below a_b just_a (refl, refl) refl refl

valid_filter-Accepted_example : (valid_filter a_b ≡ true) ↔ Accepted a_b
valid_filter-Accepted_example = valid_filter-Accepted a_b

abbrev ping : List ℕ
ping = 2 ∷ 22 ∷ []

abbrev ping_header : MsgHeader
ping_header = record { remote_socket_addr = 7; len = 2; msg_type = 22; header_len = short }

-- A long form without its type.
abbrev cut_short : List ℕ
cut_short = 1 ∷ 0 ∷ []

try_read-panics_example :
    (Header.try_read cut_short (length cut_short) 7 ≡ panic)
    ↔ ((get_elem? cut_short 0 ≡ some 1) × (2 ≤ length cut_short) × (length cut_short < 4))
try_read-panics_example = try_read-panics cut_short 7

abbrev connect : Connect.Connect
connect = record {
  len = 7;
  msg_type = 4;
  flags = 0;
  protocol_id = 1;
  duration = 60;
  client_id = just_a;
}

abbrev register : Register.Register
register = record { len = 7; msg_type = 10; topic_id = 0; msg_id = 1; topic_name = just_a }

abbrev publish : Publish.Publish
publish = record { len = 8; msg_type = 12; flags = 0; topic_id = 300; msg_id = 1; payload = just_a }

abbrev subscribe : Subscribe.Subscribe
subscribe = record { len = 6; msg_type = 18; flags = 0; msg_id = 1; topic_name = just_a }

abbrev will : WillTopic.WillTopic
will = record { len = 4; msg_type = 7; flags = 0; will_topic = just_a }

messages_read_back_example :
    (Connect.try_read (Connect.try_write connect) (length (Connect.try_write connect))
      ≡ ok (connect, 6))
    × (Register.try_read (Register.try_write register) (length (Register.try_write register))
        ≡ ok (register, 6))
    × (Publish.try_read (Publish.try_write publish) (length (Publish.try_write publish))
        ≡ ok (publish, 7))
    × (Subscribe.try_read (Subscribe.try_write subscribe) (length (Subscribe.try_write subscribe))
        ≡ ok (subscribe, 5))
    × (WillTopic.try_read (WillTopic.try_write will) (length (WillTopic.try_write will))
        ≡ ok (will, 3))
unfolding is_utf8
messages_read_back_example =
    messages_read_back connect register publish subscribe will refl refl refl

send-swapped_example :
    (bytes : List ℕ) × ((send 5 9 32 0 just_a 7 broker).0 ≡ ok tt)
    × ((send 5 9 32 0 just_a 7 broker).1.egress ≡ broker.egress ++ ((7, bytes) ∷ []))
    × (Publish.try_read bytes (length bytes)
        ≡ ok (
          record {
            len = length just_a + 7;
            msg_type = 12;
            flags = 32;
            topic_id = 9;
            msg_id = 5;
            payload = just_a;
          },
          7,
        ))
unfolding flags_set
send-swapped_example = send-swapped 5 9 32 0 just_a 7 broker broker-IsReady (omega arith)

-- A payload of 249 octets makes the short form one octet too long.
abbrev copies : ℕ → List ℕ
copies zero = []
copies (suc n) = 1 ∷ copies n

length-copies : (n : ℕ) → length (copies n) ≡ n
length-copies zero = refl
length-copies (suc n) = omega (arith, length-copies n)

send-refused_example :
    (bytes : List ℕ) × ((send 5 9 32 0 (copies 249) 7 broker).0 ≡ ok tt)
    × ((send 5 9 32 0 (copies 249) 7 broker).1.egress ≡ broker.egress ++ ((7, bytes) ∷ []))
    × (Header.try_read bytes (length bytes) 8 ≡ err size_mismatch)
send-refused_example =
    send-refused 5 9 32 0 8 (copies 249) 7 broker broker-IsReady (omega (arith, length-copies 249))
      (omega (arith, length-copies 249))
