-- ===== src/Wire/Messages/WillMsg.antt =====
-- The struct `WillMsg` of lib/broker-lib/src/will_msg.rs, its reader and its writer.
use rust_mqtt_sn.Prelude.{ℕ, ◌≡◌, List, ◌∷◌, arith, length, true}
use rust_mqtt_sn.Outcome.{Outcome, ok, ◌>>=◌}
use rust_mqtt_sn.Wire.Utf8.{is_utf8}
use rust_mqtt_sn.Wire.Reader.{read_u8, read_string, slice_rest}

pub record WillMsg : Type 0 where
  pub len : ℕ
  pub msg_type : ℕ
  pub msg : List ℕ

unfoldable pub try_read : List ℕ → ℕ → Outcome (WillMsg × ℕ)
unfolding read_string
try_read bytes size = do
  (len, o0) ← read_u8 bytes 0
  (msg_type, o1) ← read_u8 bytes o0
  msg ← read_string bytes size o1
  ok (record { len = len; msg_type = msg_type; msg = msg }, o1)

unfoldable pub try_write : WillMsg → List ℕ
try_write m = m.len ∷ m.msg_type ∷ m.msg

-- What is written is read back, and the offset is that of the variable field.
pub try_read-try_write :
    (m : WillMsg) → is_utf8 m.msg ≡ true → try_read (try_write m) (length (try_write m)) ≡ ok (m, 2)
unfolding try_read try_write
try_read-try_write m h = rw (slice_rest (try_write m) 2 (omega arith)) (ground arith)
