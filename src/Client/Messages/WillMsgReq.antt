-- ===== src/Client/Messages/WillMsgReq.antt =====
-- The struct `WillMsgReq` of lib/client-lib/src/WillMsgReq.rs, its reader and its writer.
use rust_mqtt_sn.Prelude.{ℕ, List, [], ◌∷◌}
use rust_mqtt_sn.Outcome.{Outcome, ok, ◌>>=◌}
use rust_mqtt_sn.Wire.Reader.{read_u8}

pub record WillMsgReq : Type 0 where
  pub len : ℕ
  pub msg_type : ℕ

unfoldable pub try_read : List ℕ → ℕ → Outcome (WillMsgReq × ℕ)
try_read bytes size = do
  (len, o0) ← read_u8 bytes 0
  (msg_type, o1) ← read_u8 bytes o0
  ok (record { len = len; msg_type = msg_type }, o1)

unfoldable pub try_write : WillMsgReq → List ℕ
try_write m = m.len ∷ m.msg_type ∷ []
