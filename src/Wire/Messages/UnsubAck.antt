-- ===== src/Wire/Messages/UnsubAck.antt =====
-- The struct `UnsubAck` of lib/broker-lib/src/unsub_ack.rs, its reader and its writer.
use rust_mqtt_sn.Prelude.{ℕ, ◌≡◌, List, [], ◌∷◌, arith, length}
use rust_mqtt_sn.Outcome.{Outcome, ok, ◌>>=◌}
use rust_mqtt_sn.Wire.Reader.{read_u8, read_u16, put_u16}

pub record UnsubAck : Type 0 where
  pub len : ℕ
  pub msg_type : ℕ
  pub msg_id : ℕ

unfoldable pub try_read : List ℕ → ℕ → Outcome (UnsubAck × ℕ)
try_read bytes size = do
  (len, o0) ← read_u8 bytes 0
  (msg_type, o1) ← read_u8 bytes o0
  (msg_id, o2) ← read_u16 bytes o1
  ok (record { len = len; msg_type = msg_type; msg_id = msg_id }, o2)

unfoldable pub try_write : UnsubAck → List ℕ
try_write m = m.len ∷ m.msg_type ∷ put_u16 m.msg_id ([])

-- What is written is read back, and the offset is that of the variable field.
pub try_read-try_write : (m : UnsubAck) → try_read (try_write m) (length (try_write m)) ≡ ok (m, 4)
unfolding try_read try_write
try_read-try_write m = ground arith
