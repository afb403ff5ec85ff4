-- ===== src/Wire/Messages/Register.antt =====
-- The struct `Register` of lib/broker-lib/src/register.rs, its reader and its writer.
use rust_mqtt_sn.Prelude.{ℕ, ◌≡◌, List, ◌∷◌, arith, length, true}
use rust_mqtt_sn.Outcome.{Outcome, ok, ◌>>=◌}
use rust_mqtt_sn.Wire.Utf8.{is_utf8}
use rust_mqtt_sn.Wire.Reader.{read_u8, read_u16, read_string, put_u16, slice_rest}

pub record Register : Type 0 where
  pub len : ℕ
  pub msg_type : ℕ
  pub topic_id : ℕ
  pub msg_id : ℕ
  pub topic_name : List ℕ

unfoldable pub try_read : List ℕ → ℕ → Outcome (Register × ℕ)
unfolding read_string
try_read bytes size = do
  (len, o0) ← read_u8 bytes 0
  (msg_type, o1) ← read_u8 bytes o0
  (topic_id, o2) ← read_u16 bytes o1
  (msg_id, o3) ← read_u16 bytes o2
  topic_name ← read_string bytes size o3
  ok (
    record {
      len = len;
      msg_type = msg_type;
      topic_id = topic_id;
      msg_id = msg_id;
      topic_name = topic_name;
    },
    o3,
  )

unfoldable pub try_write : Register → List ℕ
try_write m = m.len ∷ m.msg_type ∷ put_u16 m.topic_id (put_u16 m.msg_id (m.topic_name))

-- What is written is read back, and the offset is that of the variable field.
pub try_read-try_write :
    (m : Register)
    → is_utf8 m.topic_name ≡ true
    → try_read (try_write m) (length (try_write m)) ≡ ok (m, 6)
unfolding try_read try_write
try_read-try_write m h = rw (slice_rest (try_write m) 6 (omega arith)) (ground arith)
