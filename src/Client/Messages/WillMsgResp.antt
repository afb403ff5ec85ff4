-- ===== src/Client/Messages/WillMsgResp.antt =====
-- The struct `WillMsgResp` of lib/client-lib/src/WillMsgResp.rs, its reader and its writer.
use rust_mqtt_sn.Prelude.{ℕ, List, [], ◌∷◌}
use rust_mqtt_sn.Outcome.{Outcome, ok, ◌>>=◌}
use rust_mqtt_sn.Wire.Reader.{read_u8}

pub record WillMsgResp : Type 0 where
  pub len : ℕ
  pub msg_type : ℕ
  pub return_code : ℕ

unfoldable pub try_read : List ℕ → ℕ → Outcome (WillMsgResp × ℕ)
try_read bytes size = do
  (len, o0) ← read_u8 bytes 0
  (msg_type, o1) ← read_u8 bytes o0
  (return_code, o2) ← read_u8 bytes o1
  ok (record { len = len; msg_type = msg_type; return_code = return_code }, o2)

unfoldable pub try_write : WillMsgResp → List ℕ
try_write m = m.len ∷ m.msg_type ∷ m.return_code ∷ []
