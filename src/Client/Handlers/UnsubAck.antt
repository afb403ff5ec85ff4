-- ===== src/Client/Handlers/UnsubAck.antt =====
-- UNSUBACK: lib/client-lib/src/UnsubAck.rs.
use rust_mqtt_sn.Prelude.{ℕ, List, ◌∷◌, ◌==◌, nat_eq, if◌then◌else◌, ◌≡◌, refl}
use rust_mqtt_sn.Outcome.{err, wrong_length}
use rust_mqtt_sn.Exec.{Exec, pure, raise, lift, ◌>>=◌, ◌>>◌}
use rust_mqtt_sn.Wire.Messages.UnsubAck.{try_read, try_write}
use rust_mqtt_sn.Client.Consts.{msg_type_unsuback, msg_len_unsuback}
use rust_mqtt_sn.Client.{Client, transmit, cancel}

unfoldable pub rx : List ℕ → ℕ → ℕ → Exec Client ℕ
rx buf size addr = do
  (unsub_ack, read_len) ← lift (try_read buf size)
  if read_len == msg_len_unsuback
      then (do cancel addr unsub_ack.msg_type 0 unsub_ack.msg_id; pure unsub_ack.msg_id)
      else raise wrong_length

-- The return code is not sent.
unfoldable pub tx : ℕ → ℕ → ℕ → Exec Client (Unit {0})
tx msg_id return_code addr =
    transmit addr
      (try_write (record { len = msg_len_unsuback; msg_type = msg_type_unsuback; msg_id = msg_id }))

-- An UNSUBACK never has the length that it is compared with, and cancels nothing.
rx-refused :
    (a b c d : ℕ) (rest : List ℕ) (size addr : ℕ) (s : Client)
    → rx (a ∷ b ∷ c ∷ d ∷ rest) size addr s ≡ (err wrong_length, s)
unfolding rx try_read
rx-refused a b c d rest size addr s = refl
