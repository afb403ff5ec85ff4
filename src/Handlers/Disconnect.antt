-- ===== src/Handlers/Disconnect.antt =====
-- DISCONNECT, with and without a duration: lib/broker-lib/src/disconnect.rs.
use rust_mqtt_sn.Prelude.{ℕ, Bool, true, false, List, ◌==◌, nat_eq, list_eq, if◌then◌else◌}
use rust_mqtt_sn.Outcome.{ok, wrong_length}
use rust_mqtt_sn.Exec.{Exec, pure, raise, lift, ◌>>=◌, ◌>>◌}
use rust_mqtt_sn.Bisetmap.{BisetMaps}
use rust_mqtt_sn.Wire.Consts.{msg_type_disconnect, msg_len_disconnect, msg_len_disconnect_duration}
use rust_mqtt_sn.Wire.Header.{MsgHeader}
use rust_mqtt_sn.Broker.{Broker, try_send, on_keep_alive}
use rust_mqtt_sn.KeepAlive
use rust_mqtt_sn.Connection.{StateEnum2, active, asleep, awake, disconnected, lost}
use rust_mqtt_sn.Wire.Messages.Disconnect
use rust_mqtt_sn.Wire.Messages.DisconnWithDuration
use rust_mqtt_sn.Broker.Clients.{get_state, remove, update_state, publish_will_of}

-- The will is published only for a client that was active.
abbrev pub publishes : StateEnum2 → Bool
publishes active = true
publishes asleep = false
publishes awake = false
publishes disconnected = false
publishes lost = false

module _ ⦃B : BisetMaps⦄ where
  unfoldable pub send : MsgHeader → Exec Broker (Unit {0})
  send header =
      try_send header.remote_socket_addr
        (Disconnect.try_write (record { len = msg_len_disconnect; msg_type = msg_type_disconnect }))

  -- `ClientId::rev_delete`
  abbrev pub forget_client : ℕ → Exec Broker (Unit {0})
  forget_client addr b = (ok tt, record b { client_id_map = B.rev_delete b.client_id_map addr })

  -- The end of a connection.
  unfoldable pub leave : MsgHeader → Exec Broker (Unit {0})
  unfolding send
  leave header = do
    state ← get_state header.remote_socket_addr
    conn ← remove header.remote_socket_addr
    forget_client header.remote_socket_addr
    on_keep_alive (KeepAlive.cancel header.remote_socket_addr)
    send header
    if publishes state then publish_will_of conn else pure tt

  -- A client that goes to sleep.
  unfoldable pub sleep : ℕ → MsgHeader → Exec Broker (Unit {0})
  unfolding send
  sleep duration header = do
    update_state header.remote_socket_addr asleep
    on_keep_alive (KeepAlive.schedule header.remote_socket_addr duration)
    send header

  unfoldable pub recv : List ℕ → ℕ → MsgHeader → Exec Broker (Unit {0})
  unfolding leave sleep
  recv buf size header =
      if size == msg_len_disconnect
      then (do _ ← lift (Disconnect.try_read buf size); leave header)
      else (if size == msg_len_disconnect_duration
          then (do (m, _) ← lift (DisconnWithDuration.try_read buf size); sleep m.duration header)
          else raise wrong_length)
