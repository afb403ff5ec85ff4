-- ===== src/Client/Handlers/PubComp.antt =====
-- PUBCOMP: lib/client-lib/src/PubComp.rs.
use rust_mqtt_sn.Prelude.{ℕ, List, [], ◌∷◌, ◌==◌, nat_eq, if◌then◌else◌}
use rust_mqtt_sn.Prelude.Bytes.{high, low, be16}
use rust_mqtt_sn.Outcome.{wrong_length}
use rust_mqtt_sn.Exec.{Exec, pure, raise, lift, ◌>>=◌, ◌>>◌}
use rust_mqtt_sn.Wire.Reader.{index}
use rust_mqtt_sn.Client.Consts.{msg_type_pubcomp, msg_len_pubcomp}
use rust_mqtt_sn.Client.{Client, transmit, cancel}

unfoldable pub tx : ℕ → ℕ → Exec Client (Unit {0})
tx msg_id addr = transmit addr (msg_len_pubcomp ∷ msg_type_pubcomp ∷ high msg_id ∷ low msg_id ∷ [])

-- The message id is read with its low octet first. `&&` looks at the second octet only if the first
-- one is right.
unfoldable pub rx : List ℕ → ℕ → ℕ → Exec Client ℕ
rx buf size addr = do
  len ← lift (index buf 0)
  if len == msg_len_pubcomp
      then (do
        msg_type ← lift (index buf 1)
        if msg_type == msg_type_pubcomp
            then (do
              l ← lift (index buf 2)
              h ← lift (index buf 3)
              cancel addr msg_type_pubcomp 0 (be16 h l)
              pure (be16 h l))
            else raise wrong_length)
      else raise wrong_length
