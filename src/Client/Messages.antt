-- ===== src/Client/Messages.antt =====
-- The messages whose struct in lib/client-lib/src differs from the one of lib/broker-lib/src.
pub mod Connect
pub mod WillMsgReq
pub mod WillMsgResp
