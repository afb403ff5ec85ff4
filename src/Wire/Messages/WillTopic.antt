-- ===== src/Wire/Messages/WillTopic.antt =====
-- The struct `WillTopic` of lib/broker-lib/src/will_topic.rs, its reader and its writer.
use rust_mqtt_sn.Prelude.{ℕ, ◌≡◌, List, ◌∷◌, arith, length, true}
use rust_mqtt_sn.Outcome.{Outcome, ok, ◌>>=◌}
use rust_mqtt_sn.Wire.Utf8.{is_utf8}
use rust_mqtt_sn.Wire.Reader.{read_u8, read_string, slice_rest}

pub record WillTopic : Type 0 where
  pub len : ℕ
  pub msg_type : ℕ
  pub flags : ℕ
  pub will_topic : List ℕ

unfoldable pub try_read : List ℕ → ℕ → Outcome (WillTopic × ℕ)
unfolding read_string
try_read bytes size = do
  (len, o0) ← read_u8 bytes 0
  (msg_type, o1) ← read_u8 bytes o0
  (flags, o2) ← read_u8 bytes o1
  will_topic ← read_string bytes size o2
  ok (record { len = len; msg_type = msg_type; flags = flags; will_topic = will_topic }, o2)

unfoldable pub try_write : WillTopic → List ℕ
try_write m = m.len ∷ m.msg_type ∷ m.flags ∷ m.will_topic

-- What is written is read back, and the offset is that of the variable field.
pub try_read-try_write :
    (m : WillTopic)
    → is_utf8 m.will_topic ≡ true
    → try_read (try_write m) (length (try_write m)) ≡ ok (m, 3)
unfolding try_read try_write
try_read-try_write m h = rw (slice_rest (try_write m) 3 (omega arith)) (ground arith)
