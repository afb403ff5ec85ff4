-- ===== src/Wire/RoundTrips.antt =====
-- Messages that are written and read again, by the code that the derive of lib/getset generates.
use rust_mqtt_sn.Prelude.{◌≡◌, true, length}
use rust_mqtt_sn.Outcome.{ok}
use rust_mqtt_sn.Wire.Utf8.{is_utf8}
use rust_mqtt_sn.Wire.Messages.Connect
use rust_mqtt_sn.Wire.Messages.Publish
use rust_mqtt_sn.Wire.Messages.Register
use rust_mqtt_sn.Wire.Messages.Subscribe
use rust_mqtt_sn.Wire.Messages.WillTopic

-- CONNECT, REGISTER, PUBLISH, SUBSCRIBE and WILLTOPIC, whatever their fields are as long as each
-- text is UTF-8, are read back as they were written, and the offset that comes with them is where
-- the variable field begins.
pub messages_read_back :
    (connect : Connect.Connect) (register : Register.Register) (publish : Publish.Publish)
    (subscribe : Subscribe.Subscribe) (will : WillTopic.WillTopic)
    → is_utf8 register.topic_name ≡ true
    → is_utf8 subscribe.topic_name ≡ true
    → is_utf8 will.will_topic ≡ true
    → (Connect.try_read (Connect.try_write connect) (length (Connect.try_write connect))
        ≡ ok (connect, 6))
      × (Register.try_read (Register.try_write register) (length (Register.try_write register))
          ≡ ok (register, 6))
      × (Publish.try_read (Publish.try_write publish) (length (Publish.try_write publish))
          ≡ ok (publish, 7))
      × (Subscribe.try_read (Subscribe.try_write subscribe) (length (Subscribe.try_write subscribe))
          ≡ ok (subscribe, 5))
      × (WillTopic.try_read (WillTopic.try_write will) (length (WillTopic.try_write will))
          ≡ ok (will, 3))
messages_read_back connect register publish subscribe will r s w = (
  Connect.try_read-try_write connect,
  Register.try_read-try_write register r,
  Publish.try_read-try_write publish,
  Subscribe.try_read-try_write subscribe s,
  WillTopic.try_read-try_write will w,
)
