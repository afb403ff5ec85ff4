-- ===== src/Client/Handlers.antt =====
-- `tx` and `rx` of the messages of lib/client-lib/src, a module for each file. `buf` is the whole
-- buffer that the datagram was received into, `size` the size of the datagram in it.
pub mod PubComp
pub mod PubRel
pub mod PubRec
pub mod PubAck
pub mod SubAck
pub mod ConnAck
pub mod Connect
pub mod Subscribe
pub mod Publish
pub mod Effects
pub mod RegAck
pub mod UnsubAck
pub mod WillMsgReq
pub mod WillMsgResp
