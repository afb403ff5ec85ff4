-- ===== src/Handlers/PingReq.antt =====
-- PINGREQ: lib/broker-lib/src/ping_req.rs.
use rust_mqtt_sn.Prelude.{ℕ, ◌+◌, List, length, ltb, if◌then◌else◌}
use rust_mqtt_sn.Prelude.Bytes.{u8}
use rust_mqtt_sn.Outcome.{too_long}
use rust_mqtt_sn.Exec.{Exec, pure, raise, lift, ◌>>=◌, ◌>>◌}
use rust_mqtt_sn.Bisetmap.{BisetMaps}
use rust_mqtt_sn.Wire.Consts.{msg_type_pingreq, msg_len_pingreq_header}
use rust_mqtt_sn.Wire.Header.{MsgHeader, MsgHeaderLen, short, long}
use rust_mqtt_sn.Broker.{Broker, try_send}
use rust_mqtt_sn.Wire.Messages.PingReq
use rust_mqtt_sn.Wire.Messages.PingReq4
use rust_mqtt_sn.Handlers.PingResp

module _ ⦃B : BisetMaps⦄ where
  -- The message is read for its errors only.
  unfoldable pub check_message : MsgHeaderLen → List ℕ → ℕ → Exec Broker (Unit {0})
  check_message short buf size = do _ ← lift (PingReq.try_read buf size); pure tt
  check_message long buf size = do _ ← lift (PingReq4.try_read buf size); pure tt

  unfoldable pub recv : List ℕ → ℕ → MsgHeader → Exec Broker (Unit {0})
  unfolding check_message
  recv buf size header = do check_message header.header_len buf size; PingResp.send header

  unfoldable pub send : List ℕ → MsgHeader → Exec Broker (Unit {0})
  send client_id header =
      let len = length client_id + msg_len_pingreq_header in
      if ltb len 256
      then try_send header.remote_socket_addr (
          PingReq.try_write
            (record { len = u8 len; msg_type = msg_type_pingreq; client_id = client_id }))
      else raise too_long
