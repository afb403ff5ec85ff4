-- ===== src/Wire/Messages/WillTopicUpd4.antt =====
-- The struct `WillTopicUpd4` of lib/broker-lib/src/will_topic_upd.rs, its reader and its writer.
use rust_mqtt_sn.Prelude.{ℕ, ◌≡◌, List, ◌∷◌, arith, length, true}
use rust_mqtt_sn.Outcome.{Outcome, ok, ◌>>=◌}
use rust_mqtt_sn.Wire.Utf8.{is_utf8}
use rust_mqtt_sn.Wire.Reader.{read_u8, read_u16, read_string, put_u16, slice_rest}

pub record WillTopicUpd4 : Type 0 where
  pub one : ℕ
  pub len : ℕ
  pub msg_type : ℕ
  pub flags : ℕ
  pub will_topic : List ℕ

unfoldable pub try_read : List ℕ → ℕ → Outcome (WillTopicUpd4 × ℕ)
unfolding read_string
try_read bytes size = do
  (one, o0) ← read_u8 bytes 0
  (len, o1) ← read_u16 bytes o0
  (msg_type, o2) ← read_u8 bytes o1
  (flags, o3) ← read_u8 bytes o2
  will_topic ← read_string bytes size o3
  ok (
    record { one = one; len = len; msg_type = msg_type; flags = flags; will_topic = will_topic },
    o3,
  )

unfoldable pub try_write : WillTopicUpd4 → List ℕ
try_write m = m.one ∷ put_u16 m.len (m.msg_type ∷ m.flags ∷ m.will_topic)

-- What is written is read back, and the offset is that of the variable field.
pub try_read-try_write :
    (m : WillTopicUpd4)
    → is_utf8 m.will_topic ≡ true
    → try_read (try_write m) (length (try_write m)) ≡ ok (m, 5)
unfolding try_read try_write
try_read-try_write m h = rw (slice_rest (try_write m) 5 (omega arith)) (ground arith)
