-- ===== src/Handlers/WillTopicResp.antt =====
-- WILLTOPICRESP: lib/broker-lib/src/will_topic_resp.rs.
use rust_mqtt_sn.Prelude.{ℕ, List, [], ◌∷◌, ◌==◌, nat_eq, if◌then◌else◌}
use rust_mqtt_sn.Outcome.{wrong_length}
use rust_mqtt_sn.Exec.{Exec, pure, raise, lift, ◌>>=◌}
use rust_mqtt_sn.Bisetmap.{BisetMaps}
use rust_mqtt_sn.Wire.Consts.{msg_type_will_topic_resp, msg_len_will_topic_resp}
use rust_mqtt_sn.Wire.Reader.{index}
use rust_mqtt_sn.Wire.Header.{MsgHeader}
use rust_mqtt_sn.Broker.{Broker, try_send}

module _ ⦃B : BisetMaps⦄ where
  -- `&&` looks at the first octet only if the size is right.
  unfoldable pub recv : List ℕ → ℕ → MsgHeader → Exec Broker (Unit {0})
  recv buf size header =
      if size == msg_len_will_topic_resp
      then (do
        len ← lift (index buf 0)
        if len == msg_len_will_topic_resp then pure tt else raise wrong_length)
      else raise wrong_length

  unfoldable pub send : ℕ → MsgHeader → Exec Broker (Unit {0})
  send return_code header =
      try_send header.remote_socket_addr
        (msg_len_will_topic_resp ∷ msg_type_will_topic_resp ∷ return_code ∷ [])
