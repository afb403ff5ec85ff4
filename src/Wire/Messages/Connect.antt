-- ===== src/Wire/Messages/Connect.antt =====
-- The struct `Connect` of lib/broker-lib/src/connect.rs, its reader and its writer.
use rust_mqtt_sn.Prelude.{ℕ, ◌≡◌, List, ◌∷◌, arith, length}
use rust_mqtt_sn.Outcome.{Outcome, ok, ◌>>=◌}
use rust_mqtt_sn.Wire.Reader.{read_u8, read_u16, read_bytes, put_u16, slice, slice_rest}

pub record Connect : Type 0 where
  pub len : ℕ
  pub msg_type : ℕ
  pub flags : ℕ
  pub protocol_id : ℕ
  pub duration : ℕ
  pub client_id : List ℕ

unfoldable pub try_read : List ℕ → ℕ → Outcome (Connect × ℕ)
unfolding slice
try_read bytes size = do
  (len, o0) ← read_u8 bytes 0
  (msg_type, o1) ← read_u8 bytes o0
  (flags, o2) ← read_u8 bytes o1
  (protocol_id, o3) ← read_u8 bytes o2
  (duration, o4) ← read_u16 bytes o3
  client_id ← read_bytes bytes size o4
  ok (
    record {
      len = len;
      msg_type = msg_type;
      flags = flags;
      protocol_id = protocol_id;
      duration = duration;
      client_id = client_id;
    },
    o4,
  )

unfoldable pub try_write : Connect → List ℕ
try_write m = m.len ∷ m.msg_type ∷ m.flags ∷ m.protocol_id ∷ put_u16 m.duration (m.client_id)

-- What is written is read back, and the offset is that of the variable field.
pub try_read-try_write : (m : Connect) → try_read (try_write m) (length (try_write m)) ≡ ok (m, 6)
unfolding try_read try_write
try_read-try_write m = rw (slice_rest (try_write m) 6 (omega arith)) (ground arith)
