-- ===== src/Wire/Messages/DisconnWithDuration.antt =====
-- The struct `DisconnWithDuration` of lib/broker-lib/src/disconnect.rs, its reader and its writer.
use rust_mqtt_sn.Prelude.{ℕ, ◌≡◌, List, [], ◌∷◌, arith, length}
use rust_mqtt_sn.Outcome.{Outcome, ok, ◌>>=◌}
use rust_mqtt_sn.Wire.Reader.{read_u8, read_u16, put_u16}

pub record DisconnWithDuration : Type 0 where
  pub len : ℕ
  pub msg_type : ℕ
  pub duration : ℕ

unfoldable pub try_read : List ℕ → ℕ → Outcome (DisconnWithDuration × ℕ)
try_read bytes size = do
  (len, o0) ← read_u8 bytes 0
  (msg_type, o1) ← read_u8 bytes o0
  (duration, o2) ← read_u16 bytes o1
  ok (record { len = len; msg_type = msg_type; duration = duration }, o2)

unfoldable pub try_write : DisconnWithDuration → List ℕ
try_write m = m.len ∷ m.msg_type ∷ put_u16 m.duration ([])

-- What is written is read back, and the offset is that of the variable field.
pub try_read-try_write :
    (m : DisconnWithDuration) → try_read (try_write m) (length (try_write m)) ≡ ok (m, 4)
unfolding try_read try_write
try_read-try_write m = ground arith
