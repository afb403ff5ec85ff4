-- ===== src/Wire/Messages/Publish.antt =====
-- The struct `Publish` of lib/broker-lib/src/publish.rs, its reader and its writer.
-- The field `data` of the source is `payload` here.
use rust_mqtt_sn.Prelude.{ℕ, ◌≡◌, List, ◌∷◌, arith, length}
use rust_mqtt_sn.Outcome.{Outcome, ok, ◌>>=◌}
use rust_mqtt_sn.Wire.Reader.{read_u8, read_u16, read_bytes, put_u16, slice, slice_rest}

pub record Publish : Type 0 where
  pub len : ℕ
  pub msg_type : ℕ
  pub flags : ℕ
  pub topic_id : ℕ
  pub msg_id : ℕ
  pub payload : List ℕ

unfoldable pub try_read : List ℕ → ℕ → Outcome (Publish × ℕ)
unfolding slice
try_read bytes size = do
  (len, o0) ← read_u8 bytes 0
  (msg_type, o1) ← read_u8 bytes o0
  (flags, o2) ← read_u8 bytes o1
  (topic_id, o3) ← read_u16 bytes o2
  (msg_id, o4) ← read_u16 bytes o3
  payload ← read_bytes bytes size o4
  ok (
    record {
      len = len;
      msg_type = msg_type;
      flags = flags;
      topic_id = topic_id;
      msg_id = msg_id;
      payload = payload;
    },
    o4,
  )

unfoldable pub try_write : Publish → List ℕ
try_write m = m.len ∷ m.msg_type ∷ m.flags ∷ put_u16 m.topic_id (put_u16 m.msg_id (m.payload))

-- What is written is read back, and the offset is that of the variable field.
pub try_read-try_write : (m : Publish) → try_read (try_write m) (length (try_write m)) ≡ ok (m, 7)
unfolding try_read try_write
try_read-try_write m = rw (slice_rest (try_write m) 7 (omega arith)) (ground arith)
