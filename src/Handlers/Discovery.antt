-- ===== src/Handlers/Discovery.antt =====
-- ADVERTISE and GWINFO as the broker receives them, which it only logs: `Advertise::recv` of
-- lib/broker-lib/src/advertise.rs and `GwInfo::recv` of gw_info.rs.
use rust_mqtt_sn.Prelude.{ℕ, List}
use rust_mqtt_sn.Exec.{Exec, pure, lift, ◌>>=◌}
use rust_mqtt_sn.Bisetmap.{BisetMaps}
use rust_mqtt_sn.Wire.Reader.{read_u8, read_u16, read_string}
use rust_mqtt_sn.Wire.Header.{MsgHeader}
use rust_mqtt_sn.Broker.{Broker}

module _ ⦃B : BisetMaps⦄ where
  unfoldable pub recv_advertise : List ℕ → ℕ → MsgHeader → Exec Broker (Unit {0})
  recv_advertise buf size header = do
    (len, o0) ← lift (read_u8 buf 0)
    (msg_type, o1) ← lift (read_u8 buf o0)
    (gw_id, o2) ← lift (read_u8 buf o1)
    (duration, o3) ← lift (read_u16 buf o2)
    pure tt

  unfoldable pub recv_gw_info : List ℕ → ℕ → MsgHeader → Exec Broker (Unit {0})
  recv_gw_info buf size header = do
    (len, o0) ← lift (read_u8 buf 0)
    (msg_type, o1) ← lift (read_u8 buf o0)
    (gw_id, o2) ← lift (read_u8 buf o1)
    gw_addr ← lift (read_string buf size o2)
    pure tt
