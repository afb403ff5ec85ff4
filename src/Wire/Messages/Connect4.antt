-- ===== src/Wire/Messages/Connect4.antt =====
-- The struct `Connect4` of lib/broker-lib/src/connect.rs, its reader and its writer.
use rust_mqtt_sn.Prelude.{ℕ, ◌≡◌, List, ◌∷◌, arith, length}
use rust_mqtt_sn.Outcome.{Outcome, ok, ◌>>=◌}
use rust_mqtt_sn.Wire.Reader.{read_u8, read_u16, read_bytes, put_u16, slice, slice_rest}

pub record Connect4 : Type 0 where
  pub one : ℕ
  pub len : ℕ
  pub msg_type : ℕ
  pub flags : ℕ
  pub protocol_id : ℕ
  pub duration : ℕ
  pub client_id : List ℕ

unfoldable pub try_read : List ℕ → ℕ → Outcome (Connect4 × ℕ)
unfolding slice
try_read bytes size = do
  (one, o0) ← read_u8 bytes 0
  (len, o1) ← read_u16 bytes o0
  (msg_type, o2) ← read_u8 bytes o1
  (flags, o3) ← read_u8 bytes o2
  (protocol_id, o4) ← read_u8 bytes o3
  (duration, o5) ← read_u16 bytes o4
  client_id ← read_bytes bytes size o5
  ok (
    record {
      one = one;
      len = len;
      msg_type = msg_type;
      flags = flags;
      protocol_id = protocol_id;
      duration = duration;
      client_id = client_id;
    },
    o5,
  )

unfoldable pub try_write : Connect4 → List ℕ
try_write m =
    m.one ∷ put_u16 m.len (m.msg_type ∷ m.flags ∷ m.protocol_id ∷ put_u16 m.duration (m.client_id))

-- What is written is read back, and the offset is that of the variable field.
pub try_read-try_write : (m : Connect4) → try_read (try_write m) (length (try_write m)) ≡ ok (m, 8)
unfolding try_read try_write
try_read-try_write m = rw (slice_rest (try_write m) 8 (omega arith)) (ground arith)
