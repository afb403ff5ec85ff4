-- ===== src/Client/Handlers/PubRec.antt =====
-- PUBREC: lib/client-lib/src/PubRec.rs.
use rust_mqtt_sn.Prelude.{ℕ, List, [], ◌∷◌, ◌==◌, nat_eq, if◌then◌else◌}
use rust_mqtt_sn.Prelude.Bytes.{high, low, be16}
use rust_mqtt_sn.Outcome.{wrong_length}
use rust_mqtt_sn.Exec.{Exec, pure, raise, lift, ◌>>=◌, ◌>>◌}
use rust_mqtt_sn.Wire.Reader.{index}
use rust_mqtt_sn.Client.Consts.{msg_type_pubrec, msg_len_pubrec}
use rust_mqtt_sn.Client.{Client, transmit, cancel}
use rust_mqtt_sn.Client.Handlers.PubRel

-- The octets come back for the timer.
unfoldable pub tx : ℕ → ℕ → Exec Client (List ℕ)
tx msg_id addr = do
  transmit addr (msg_len_pubrec ∷ msg_type_pubrec ∷ high msg_id ∷ low msg_id ∷ [])
  pure (msg_len_pubrec ∷ msg_type_pubrec ∷ high msg_id ∷ low msg_id ∷ [])

-- The message id is read with its low octet first. `&&` looks at the second octet only if the first
-- one is right.
unfoldable pub rx : List ℕ → ℕ → ℕ → Exec Client ℕ
rx buf size addr = do
  len ← lift (index buf 0)
  if len == msg_len_pubrec
      then (do
        msg_type ← lift (index buf 1)
        if msg_type == msg_type_pubrec
            then (do
              l ← lift (index buf 2)
              h ← lift (index buf 3)
              PubRel.tx (be16 h l) addr
              cancel addr msg_type_pubrec 0 (be16 h l)
              pure (be16 h l))
            else raise wrong_length)
      else raise wrong_length
