-- ===== src/Wire/Messages.antt =====
-- The message structs that the generated readers and writers serve, one file for each.
pub mod Connect
pub mod Connect4
pub mod ConnAck
pub mod Disconnect
pub mod DisconnWithDuration
pub mod PingReq
pub mod PingReq4
pub mod Publish
pub mod PubAck
pub mod Subscribe
pub mod SubAck
pub mod Unsubscribe
pub mod UnsubAck
pub mod Register
pub mod RegAck
pub mod WillTopic
pub mod WillTopic4
pub mod WillMsg
pub mod WillMsg4
pub mod WillTopicUpd
pub mod WillTopicUpd4
pub mod WillMsgUpd
pub mod WillMsgUpd4
