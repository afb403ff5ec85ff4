-- ===== src/Client/Interop.antt =====
-- The client of lib/client-lib/src and the broker of lib/broker-lib/src together: what one writes and
-- the other reads.
use rust_mqtt_sn.Prelude.{
  ℕ, ◌+◌, ◌%◌, ◌<◌, ◌≡◌, ◌≢◌, none, List, [], ◌∷◌, ◌++◌, length, arith, ltb, nat_eq, pair_eq, erase,
  sym, if◌then◌else◌, ap, ◌∙◌, subst,
}
use rust_mqtt_sn.Prelude.Bytes.{high, low, u8}
use rust_mqtt_sn.Outcome.{ok, err, size_mismatch}
use rust_mqtt_sn.Bisetmap.{BisetMaps}
use rust_mqtt_sn.Wire.Header.{MsgHeader, short}
use rust_mqtt_sn.Wire.Header as Header
use rust_mqtt_sn.Wire.Messages.Connect as ConnectForm
use rust_mqtt_sn.Wire.Messages.Publish as PublishForm
use rust_mqtt_sn.Broker.{Broker}
use rust_mqtt_sn.Broker.Delivery.{IsReady, Sends}
use rust_mqtt_sn.Handlers.PubRel as BrokerPubRel
use rust_mqtt_sn.Handlers.QosLevels.{pubrec, pubcomp, released}
use rust_mqtt_sn.Handlers.ExactlyOnce.{complete-steps}
use rust_mqtt_sn.Client.{Client, transmit, cancel}
use rust_mqtt_sn.Client.Acks.{swapped}
use rust_mqtt_sn.Client.Handlers.PubRec
use rust_mqtt_sn.Client.Handlers.PubRel
use rust_mqtt_sn.Client.Handlers.Publish
use rust_mqtt_sn.Client.Handlers.Connect
use rust_mqtt_sn.Client.Messages.Connect as ClientConnectForm
use rust_mqtt_sn.Client.Loop.{round, dispatch}

-- The octets of a PUBLISH of the client.
abbrev pub publish_bytes : ℕ → ℕ → ℕ → ℕ → List ℕ → List ℕ
publish_bytes topic_id m qos retain payload =
    PublishForm.try_write (Publish.new topic_id m qos retain payload)

-- The header of a message of the client in the short form.
abbrev pub short_header : ℕ → ℕ → ℕ → MsgHeader
short_header remote len t = record {
  remote_socket_addr = remote;
  len = len;
  msg_type = t;
  header_len = short;
}

-- A PUBLISH of the client is accepted by the broker's reader of headers, and read with the fields
-- that it was written with, if its data has at most 248 octets. A longer one, whose size is not 1
-- modulo 256, is refused, since the client keeps only the last octet of the length.
pub publish-read :
    (topic_id m qos retain remote : ℕ) (payload : List ℕ)
    → (length payload + 7) % 256 ≢ 1
    → (Header.try_read (publish_bytes topic_id m qos retain payload) (length payload + 7) remote ≡ (
        if ltb (length payload + 7) 256
        then ok (short_header remote (length payload + 7) 12)
        else err size_mismatch))
      × (PublishForm.try_read (publish_bytes topic_id m qos retain payload) (length payload + 7)
          ≡ ok (Publish.new topic_id m qos retain payload, 7))
unfolding Header.try_read Header.check_size PublishForm.try_write Publish.new
publish-read topic_id m qos retain remote payload odd =
    let message = Publish.new topic_id m qos retain payload in
    let size : length (PublishForm.try_write message) ≡ length payload + 7 = omega arith in
    (
      ground arith,
      subst (λ n. PublishForm.try_read (PublishForm.try_write message) n ≡ ok (message, 7)) size
          (PublishForm.try_read-try_write message),
    )

-- A CONNECT that the client sends is accepted by the broker, which reads the keep-alive and the client
-- id that the client gave, protocol 1, and a clean session without a will.
pub connect-read :
    (client_id : List ℕ) (duration remote : ℕ)
    → length client_id + 6 < 250
    → (Header.try_read (Connect.message client_id duration) (length client_id + 6) remote
        ≡ ok (short_header remote (length client_id + 6) 4))
      × (ConnectForm.try_read (Connect.message client_id duration) (length client_id + 6)
          ≡ ok (
            record {
              len = length client_id + 6;
              msg_type = 4;
              flags = 4;
              protocol_id = 1;
              duration = duration;
              client_id = client_id;
            },
            6,
          ))
unfolding Header.try_read Header.check_size ClientConnectForm.try_write ConnectForm.try_write
connect-read client_id duration remote l =
    let message : ConnectForm.Connect = record {
      len = length client_id + 6;
      msg_type = 4;
      flags = 4;
      protocol_id = 1;
      duration = duration;
      client_id = client_id;
    } in
    let size : length (ConnectForm.try_write message) ≡ length client_id + 6 = omega arith in
    let small : u8 (length client_id + 6) ≡ length client_id + 6 = omega arith in
    (
      ground arith,
      subst
          (λ n.
            ConnectForm.try_read (ConnectForm.try_write (record message { len = n }))
              (length client_id + 6)
            ≡ ok (message, 6))
          (sym small)
          (subst (λ n. ConnectForm.try_read (ConnectForm.try_write message) n ≡ ok (message, 6))
            size (ConnectForm.try_read-try_write message)),
    )

module _ ⦃B : BisetMaps⦄ where
  -- The client answers a PUBREC with the message id `m`, whose octets differ, by a PUBREL that the
  -- broker takes for one of the message id with the octets exchanged. If the broker keeps nothing
  -- under that id for the client, it answers by a PUBCOMP of that id, sends no publication, and
  -- still keeps what it kept under `m`.
  pub pubrel-unreleased :
      (m addr : ℕ) (buf : List ℕ) (c : Client) (h : MsgHeader) (b : Broker)
      → IsReady b
      → m < 65536
      → high m ≢ low m
      → b.pub_msg_cache (h.remote_socket_addr, swapped m) ≡ none
      → (octets : List ℕ) × ((round (pubrec m) addr buf c).1.transmit
          ≡ c.transmit ++ ((addr, octets) ∷ []))
        × Sends b
            ((BrokerPubRel.recv octets 4 h b).1)
            ((h.remote_socket_addr, pubcomp (swapped m)) ∷ [])
        × ((BrokerPubRel.recv octets 4 h b).1.pub_msg_cache (h.remote_socket_addr, m)
            ≡ b.pub_msg_cache (h.remote_socket_addr, m))
  unfolding round dispatch PubRec.rx PubRel.tx transmit cancel BrokerPubRel.recv
  pubrel-unreleased m addr buf c h b r small apart none_ =
      let (s, kept) = complete-steps (swapped m) h b r in
      let elsewhere : erase b.pub_msg_cache (h.remote_socket_addr, swapped m)
            (h.remote_socket_addr, m)
          ≡ b.pub_msg_cache (h.remote_socket_addr, m) =
        ground arith in
      (
        4 ∷ 16 ∷ low m ∷ high m ∷ [],
        ground arith,
        subst
            (λ o.
              Sends b ((BrokerPubRel.complete (swapped m) h b).1)
                ((h.remote_socket_addr, pubcomp (swapped m)) ∷ released b.conn_hashmap o))
            none_ s,
        ap (λ f. f (h.remote_socket_addr, m)) kept ∙ elsewhere,
      )
