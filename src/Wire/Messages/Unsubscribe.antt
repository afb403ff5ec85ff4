-- ===== src/Wire/Messages/Unsubscribe.antt =====
-- The struct `Unsubscribe` of lib/broker-lib/src/unsubscribe.rs, its reader and its writer.
use rust_mqtt_sn.Prelude.{ℕ, ◌≡◌, List, ◌∷◌, arith, length, true}
use rust_mqtt_sn.Outcome.{Outcome, ok, ◌>>=◌}
use rust_mqtt_sn.Wire.Utf8.{is_utf8}
use rust_mqtt_sn.Wire.Reader.{read_u8, read_u16, read_string, put_u16, slice_rest}

pub record Unsubscribe : Type 0 where
  pub len : ℕ
  pub msg_type : ℕ
  pub flags : ℕ
  pub msg_id : ℕ
  pub topic_name : List ℕ

unfoldable pub try_read : List ℕ → ℕ → Outcome (Unsubscribe × ℕ)
unfolding read_string
try_read bytes size = do
  (len, o0) ← read_u8 bytes 0
  (msg_type, o1) ← read_u8 bytes o0
  (flags, o2) ← read_u8 bytes o1
  (msg_id, o3) ← read_u16 bytes o2
  topic_name ← read_string bytes size o3
  ok (
    record {
      len = len;
      msg_type = msg_type;
      flags = flags;
      msg_id = msg_id;
      topic_name = topic_name;
    },
    o3,
  )

unfoldable pub try_write : Unsubscribe → List ℕ
try_write m = m.len ∷ m.msg_type ∷ m.flags ∷ put_u16 m.msg_id (m.topic_name)

-- What is written is read back, and the offset is that of the variable field.
pub try_read-try_write :
    (m : Unsubscribe)
    → is_utf8 m.topic_name ≡ true
    → try_read (try_write m) (length (try_write m)) ≡ ok (m, 5)
unfolding try_read try_write
try_read-try_write m h = rw (slice_rest (try_write m) 5 (omega arith)) (ground arith)
