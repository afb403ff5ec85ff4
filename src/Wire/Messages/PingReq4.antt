-- ===== src/Wire/Messages/PingReq4.antt =====
-- The struct `PingReq4` of lib/broker-lib/src/ping_req.rs, its reader and its writer.
use rust_mqtt_sn.Prelude.{ℕ, ◌≡◌, List, ◌∷◌, arith, length, true}
use rust_mqtt_sn.Outcome.{Outcome, ok, ◌>>=◌}
use rust_mqtt_sn.Wire.Utf8.{is_utf8}
use rust_mqtt_sn.Wire.Reader.{read_u8, read_u16, read_string, put_u16, slice_rest}

pub record PingReq4 : Type 0 where
  pub one : ℕ
  pub len : ℕ
  pub msg_type : ℕ
  pub client_id : List ℕ

unfoldable pub try_read : List ℕ → ℕ → Outcome (PingReq4 × ℕ)
unfolding read_string
try_read bytes size = do
  (one, o0) ← read_u8 bytes 0
  (len, o1) ← read_u16 bytes o0
  (msg_type, o2) ← read_u8 bytes o1
  client_id ← read_string bytes size o2
  ok (record { one = one; len = len; msg_type = msg_type; client_id = client_id }, o2)

unfoldable pub try_write : PingReq4 → List ℕ
try_write m = m.one ∷ put_u16 m.len (m.msg_type ∷ m.client_id)

-- What is written is read back, and the offset is that of the variable field.
pub try_read-try_write :
    (m : PingReq4)
    → is_utf8 m.client_id ≡ true
    → try_read (try_write m) (length (try_write m)) ≡ ok (m, 4)
unfolding try_read try_write
try_read-try_write m h = rw (slice_rest (try_write m) 4 (omega arith)) (ground arith)
