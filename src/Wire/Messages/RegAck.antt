-- ===== src/Wire/Messages/RegAck.antt =====
-- The struct `RegAck` of lib/broker-lib/src/reg_ack.rs, its reader and its writer.
use rust_mqtt_sn.Prelude.{ℕ, ◌≡◌, List, [], ◌∷◌, arith, length}
use rust_mqtt_sn.Outcome.{Outcome, ok, ◌>>=◌}
use rust_mqtt_sn.Wire.Reader.{read_u8, read_u16, put_u16}

pub record RegAck : Type 0 where
  pub len : ℕ
  pub msg_type : ℕ
  pub topic_id : ℕ
  pub msg_id : ℕ
  pub return_code : ℕ

unfoldable pub try_read : List ℕ → ℕ → Outcome (RegAck × ℕ)
try_read bytes size = do
  (len, o0) ← read_u8 bytes 0
  (msg_type, o1) ← read_u8 bytes o0
  (topic_id, o2) ← read_u16 bytes o1
  (msg_id, o3) ← read_u16 bytes o2
  (return_code, o4) ← read_u8 bytes o3
  ok (
    record {
      len = len;
      msg_type = msg_type;
      topic_id = topic_id;
      msg_id = msg_id;
      return_code = return_code;
    },
    o4,
  )

unfoldable pub try_write : RegAck → List ℕ
try_write m = m.len ∷ m.msg_type ∷ put_u16 m.topic_id (put_u16 m.msg_id (m.return_code ∷ []))

-- What is written is read back, and the offset is that of the variable field.
pub try_read-try_write : (m : RegAck) → try_read (try_write m) (length (try_write m)) ≡ ok (m, 7)
unfolding try_read try_write
try_read-try_write m = ground arith
