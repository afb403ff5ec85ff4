-- ===== src/Wire/Messages/Disconnect.antt =====
-- The struct `Disconnect` of lib/broker-lib/src/disconnect.rs, its reader and its writer.
use rust_mqtt_sn.Prelude.{ℕ, ◌≡◌, List, [], ◌∷◌, arith, length}
use rust_mqtt_sn.Outcome.{Outcome, ok, ◌>>=◌}
use rust_mqtt_sn.Wire.Reader.{read_u8}

pub record Disconnect : Type 0 where
  pub len : ℕ
  pub msg_type : ℕ

unfoldable pub try_read : List ℕ → ℕ → Outcome (Disconnect × ℕ)
try_read bytes size = do
  (len, o0) ← read_u8 bytes 0
  (msg_type, o1) ← read_u8 bytes o0
  ok (record { len = len; msg_type = msg_type }, o1)

unfoldable pub try_write : Disconnect → List ℕ
try_write m = m.len ∷ m.msg_type ∷ []

-- What is written is read back, and the offset is that of the variable field.
pub try_read-try_write :
    (m : Disconnect) → try_read (try_write m) (length (try_write m)) ≡ ok (m, 2)
unfolding try_read try_write
try_read-try_write m = ground arith
