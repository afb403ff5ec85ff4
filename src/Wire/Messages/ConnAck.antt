-- ===== src/Wire/Messages/ConnAck.antt =====
-- The struct `ConnAck` of lib/broker-lib/src/conn_ack.rs, its reader and its writer.
use rust_mqtt_sn.Prelude.{ℕ, ◌≡◌, List, [], ◌∷◌, arith, length}
use rust_mqtt_sn.Outcome.{Outcome, ok, ◌>>=◌}
use rust_mqtt_sn.Wire.Reader.{read_u8}

pub record ConnAck : Type 0 where
  pub len : ℕ
  pub msg_type : ℕ
  pub return_code : ℕ

unfoldable pub try_read : List ℕ → ℕ → Outcome (ConnAck × ℕ)
try_read bytes size = do
  (len, o0) ← read_u8 bytes 0
  (msg_type, o1) ← read_u8 bytes o0
  (return_code, o2) ← read_u8 bytes o1
  ok (record { len = len; msg_type = msg_type; return_code = return_code }, o2)

unfoldable pub try_write : ConnAck → List ℕ
try_write m = m.len ∷ m.msg_type ∷ m.return_code ∷ []

-- What is written is read back, and the offset is that of the variable field.
pub try_read-try_write : (m : ConnAck) → try_read (try_write m) (length (try_write m)) ≡ ok (m, 3)
unfolding try_read try_write
try_read-try_write m = ground arith
