-- ===== src/Client/Handlers/Connect.antt =====
-- CONNECT: `Connect::tx` of lib/client-lib/src/Connect.rs.
use rust_mqtt_sn.Prelude.{ℕ, ◌+◌, List, length, ltb, if◌then◌else◌}
use rust_mqtt_sn.Prelude.Bytes.{u8}
use rust_mqtt_sn.Exec.{Exec, pure, ◌>>◌}
use rust_mqtt_sn.Client.Consts.{msg_type_connect, msg_type_connack}
use rust_mqtt_sn.Client.Messages.Connect.{try_write}
use rust_mqtt_sn.Client.{Client, transmit, schedule}

-- The octets of the message: a clean session, no will.
abbrev pub message : List ℕ → ℕ → List ℕ
message client_id duration = try_write (record {
  len = u8 (length client_id + 6);
  msg_type = msg_type_connect;
  flags = 0b00000100;
  protocol_id = 1;
  duration = duration;
  client_id = client_id;
})

-- Nothing is sent for a client id that is too long.
unfoldable pub tx : List ℕ → ℕ → ℕ → Exec Client (Unit {0})
tx client_id duration addr =
    if ltb (length client_id + 6) 250
    then (do
      transmit addr (message client_id duration)
      schedule addr msg_type_connack 0 0 (message client_id duration))
    else pure tt
