-- ===== src/Broker/PublishForm.antt =====
-- The octets that `Publish::send` of lib/broker-lib/src/publish.rs writes, as the readers of the
-- same file and of msg_hdr.rs see them.
use rust_mqtt_sn.Prelude.{
  ℕ, ◌+◌, ◌≤◌, ◌<◌, ◌≡◌, refl, List, [], ◌∷◌, ◌++◌, arith, length, ltb, true,
}
use rust_mqtt_sn.Outcome.{ok, err, size_mismatch}
use rust_mqtt_sn.Wire.Consts.{msg_type_publish}
use rust_mqtt_sn.Wire.Flags.{flags_set}
use rust_mqtt_sn.Wire.Messages.Publish as Form
use rust_mqtt_sn.Wire.Messages.Publish.{Publish}
use rust_mqtt_sn.Wire.Header
use rust_mqtt_sn.Bisetmap.{BisetMaps}
use rust_mqtt_sn.Broker.{Broker}
use rust_mqtt_sn.Broker.Sending.{send}
use rust_mqtt_sn.Broker.Delivery.{publish_octets, IsReady, send_ready}

octets_short :
    (topic_id msg_id qos retain : ℕ) (payload : List ℕ)
    → length payload + 7 < 256
    → publish_octets topic_id msg_id qos retain payload
      ≡ Form.try_write (record {
        len = length payload + 7;
        msg_type = msg_type_publish;
        flags = flags_set 0 qos retain 0 0 0;
        topic_id = msg_id;
        msg_id = topic_id;
        payload = payload;
      })
unfolding Form.try_write
octets_short topic_id msg_id qos retain payload fits = ground arith

octets_refused :
    (topic_id msg_id qos retain remote : ℕ) (payload : List ℕ)
    → 256 ≤ length payload + 7
    → length payload + 7 < 1400
    → Header.try_read
        (publish_octets topic_id msg_id qos retain payload)
        (length (publish_octets topic_id msg_id qos retain payload))
        remote
      ≡ err size_mismatch
unfolding Header.try_read Header.check_size
octets_refused topic_id msg_id qos retain remote payload big fits = ground arith

module _ ⦃B : BisetMaps⦄ where
  -- What a ready broker hands to the channel for a payload that is not too long.
  send-egress :
      (topic_id msg_id qos retain : ℕ) (payload : List ℕ) (addr : ℕ) (b : Broker)
      → IsReady b
      → length payload + 7 < 1400
      → ((send topic_id msg_id qos retain payload addr b).0 ≡ ok tt)
        × ((send topic_id msg_id qos retain payload addr b).1.egress
            ≡ b.egress ++ ((addr, publish_octets topic_id msg_id qos retain payload) ∷ []))
  send-egress topic_id msg_id qos retain payload addr b r fits =
      let small : ltb (length payload + 7) 1400 ≡ true = ground arith in
      rw (send_ready topic_id msg_id qos retain payload addr b r, small) (refl, refl)

  -- On a ready broker `send` of a payload that fits the short form returns `Ok` and hands one
  -- datagram to the channel, which the reader of PUBLISH reads with the topic id and the message id
  -- exchanged: the writer puts the message id first, and the reader takes the topic id first.
  pub send-swapped :
      (topic_id msg_id qos retain : ℕ) (payload : List ℕ) (addr : ℕ) (b : Broker)
      → IsReady b
      → length payload + 7 < 256
      → (bytes : List ℕ) × ((send topic_id msg_id qos retain payload addr b).0 ≡ ok tt)
        × ((send topic_id msg_id qos retain payload addr b).1.egress
            ≡ b.egress ++ ((addr, bytes) ∷ []))
        × (Form.try_read bytes (length bytes)
            ≡ ok (
              record {
                len = length payload + 7;
                msg_type = msg_type_publish;
                flags = flags_set 0 qos retain 0 0 0;
                topic_id = msg_id;
                msg_id = topic_id;
                payload = payload;
              },
              7,
            ))
  send-swapped topic_id msg_id qos retain payload addr b r fits =
      let (returned, sent) =
        send-egress topic_id msg_id qos retain payload addr b r (omega arith) in
      let m : Publish = record {
        len = length payload + 7;
        msg_type = msg_type_publish;
        flags = flags_set 0 qos retain 0 0 0;
        topic_id = msg_id;
        msg_id = topic_id;
        payload = payload;
      } in
      let written : publish_octets topic_id msg_id qos retain payload ≡ Form.try_write m =
        octets_short topic_id msg_id qos retain payload fits in
      (
        publish_octets topic_id msg_id qos retain payload,
        returned,
        sent,
        rw written (Form.try_read-try_write m),
      )

  -- On a ready broker `send` of a payload that needs the long form and is not too long returns `Ok`
  -- and hands one datagram to the channel, which the broker's own header reader refuses, whoever it
  -- comes from: the length that it states leaves out the two octets that the long form has more.
  pub send-refused :
      (topic_id msg_id qos retain remote : ℕ) (payload : List ℕ) (addr : ℕ) (b : Broker)
      → IsReady b
      → 256 ≤ length payload + 7
      → length payload + 7 < 1400
      → (bytes : List ℕ) × ((send topic_id msg_id qos retain payload addr b).0 ≡ ok tt)
        × ((send topic_id msg_id qos retain payload addr b).1.egress
            ≡ b.egress ++ ((addr, bytes) ∷ []))
        × (Header.try_read bytes (length bytes) remote ≡ err size_mismatch)
  send-refused topic_id msg_id qos retain remote payload addr b r big fits =
      let (returned, sent) = send-egress topic_id msg_id qos retain payload addr b r fits in
      (
        publish_octets topic_id msg_id qos retain payload,
        returned,
        sent,
        octets_refused topic_id msg_id qos retain remote payload big fits,
      )
