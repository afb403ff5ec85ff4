-- ===== src/Handlers.antt =====
-- The messages as the broker sends and receives them: one module for each file of
-- lib/broker-lib/src that holds a `recv` function, with the names of the source.
pub mod PubAck
pub mod PubRec
pub mod PubComp
pub mod PubRel
pub mod Publish
pub mod SubAck
pub mod UnsubAck
pub mod RegAck
pub mod ConnAck
pub mod Subscribe
pub mod Unsubscribe
pub mod Register
pub mod WillTopicReq
pub mod WillMsgReq
pub mod WillTopicResp
pub mod WillMsgResp
pub mod PingResp
pub mod PingReq
pub mod Connect
pub mod Disconnect
pub mod WillTopic
pub mod WillMsg
pub mod WillTopicUpd
pub mod WillMsgUpd
pub mod Discovery
pub mod QosLevels
pub mod ExactlyOnce
pub mod Subscribing
pub mod Sessions
