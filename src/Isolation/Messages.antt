-- ===== src/Isolation/Messages.antt =====
-- Isolation, message by message.
use rust_mqtt_sn.Prelude.{ℕ, ◌≢◌, Option, none, some, List, Option-cases, inl, inr}
use rust_mqtt_sn.Bisetmap.{BisetMaps}
use rust_mqtt_sn.Exec.{Exec}
use rust_mqtt_sn.Exec.Keeps.{Keeps}
use rust_mqtt_sn.Broker.{Broker, PubMsgCache, Retain}
use rust_mqtt_sn.Connection.{Connection}
use rust_mqtt_sn.Wire.Header.{MsgHeader, MsgHeaderLen, short, long}
use rust_mqtt_sn.Isolation.{
  Same, same_rules, send-Same, send_msg_to_subscribers-Same, update_will_topic-Same,
  update_will_msg-Same, try_insert-Same, get_state-Same, update_state-Same, publish_will_of-Same,
}
use rust_mqtt_sn.Handlers.Unsubscribe as Unsubscribing
use rust_mqtt_sn.Wire.Messages.Unsubscribe.{Unsubscribe}
use rust_mqtt_sn.Handlers.Discovery.{recv_advertise, recv_gw_info}
use rust_mqtt_sn.Handlers.Connect
use rust_mqtt_sn.Handlers.ConnAck
use rust_mqtt_sn.Handlers.Disconnect
use rust_mqtt_sn.Handlers.PingReq
use rust_mqtt_sn.Handlers.PingResp
use rust_mqtt_sn.Handlers.PubAck
use rust_mqtt_sn.Handlers.PubComp
use rust_mqtt_sn.Handlers.PubRec
use rust_mqtt_sn.Handlers.PubRel
use rust_mqtt_sn.Handlers.Publish
use rust_mqtt_sn.Handlers.RegAck
use rust_mqtt_sn.Handlers.Register
use rust_mqtt_sn.Handlers.SubAck
use rust_mqtt_sn.Handlers.Subscribe
use rust_mqtt_sn.Handlers.UnsubAck
use rust_mqtt_sn.Handlers.WillMsg
use rust_mqtt_sn.Handlers.WillMsgReq
use rust_mqtt_sn.Handlers.WillMsgResp
use rust_mqtt_sn.Handlers.WillMsgUpd
use rust_mqtt_sn.Handlers.WillTopic
use rust_mqtt_sn.Handlers.WillTopicReq
use rust_mqtt_sn.Handlers.WillTopicResp
use rust_mqtt_sn.Handlers.WillTopicUpd

module _ ⦃B : BisetMaps⦄ (other : ℕ) (conn : Option Connection) (header : MsgHeader)
    (ne : other ≢ header.remote_socket_addr) where
  abbrev pub Kept : {A : Type 0} → Exec Broker A → Type 0
  Kept = Keeps (Same header.remote_socket_addr other ne conn)

  pub release-Same : (o : Option PubMsgCache) → Kept (PubRel.release o)
  unfolding PubRel.release
  release-Same none = search same_rules
  release-Same (some c) = search (same_rules, send_msg_to_subscribers-Same)

  pub send_retained-Same : (o : Option Retain) (addr : ℕ) → Kept (Subscribe.send_retained o addr)
  unfolding Subscribe.send_retained
  send_retained-Same none addr = search same_rules
  send_retained-Same (some r) addr = search (same_rules, send-Same)

  pub answer-Same : (o : Option ℕ) (msg_id : ℕ) → Kept (Register.answer o msg_id header)
  unfolding Register.answer RegAck.send
  answer-Same none msg_id = search same_rules
  answer-Same (some id) msg_id = search same_rules

  pub register-Same : (buf : List ℕ) (size : ℕ) → Kept (Register.recv buf size header)
  unfolding Register.recv
  register-Same buf size = search (same_rules, answer-Same)

  pub check_message-Same :
      (l : MsgHeaderLen) (buf : List ℕ) (size : ℕ) → Kept (PingReq.check_message l buf size)
  unfolding PingReq.check_message
  check_message-Same short buf size = search same_rules
  check_message-Same long buf size = search same_rules

  pub ping_req-Same : (buf : List ℕ) (size : ℕ) → Kept (PingReq.recv buf size header)
  unfolding PingReq.recv PingResp.send
  ping_req-Same buf size = search (same_rules, check_message-Same)

  pub unsubscribe_receive-Same : (m : Unsubscribe) → Kept (Unsubscribing.receive m header)
  unfolding Unsubscribing.receive
  unsubscribe_receive-Same m = elim (Option-cases (Unsubscribing.parse_u16 m.topic_name)) [
    | inl e ↦ rw e (search same_rules)
    | inr (id, e) ↦ rw e (search same_rules)
  ]

  pub unsubscribe-Same : (buf : List ℕ) (size : ℕ) → Kept (Unsubscribing.recv buf size header)
  unfolding Unsubscribing.recv
  unsubscribe-Same buf size = search (same_rules, unsubscribe_receive-Same)

  pub forget_client-Same : (addr : ℕ) → Kept (Disconnect.forget_client addr)
  forget_client-Same addr = record { at = λ b h. h }

  pub advertise-Same : (buf : List ℕ) (size : ℕ) → Kept (recv_advertise buf size header)
  unfolding recv_advertise
  advertise-Same buf size = search same_rules depth 24

  pub gw_info-Same : (buf : List ℕ) (size : ℕ) → Kept (recv_gw_info buf size header)
  unfolding recv_gw_info
  gw_info-Same buf size = search same_rules depth 24

  pub conn_ack-Same : (buf : List ℕ) (size : ℕ) → Kept (ConnAck.recv buf size header)
  unfolding ConnAck.recv
  conn_ack-Same buf size = search same_rules depth 24

  pub will_topic_req-Same : (buf : List ℕ) (size : ℕ) → Kept (WillTopicReq.recv buf size header)
  unfolding WillTopicReq.recv
  will_topic_req-Same buf size = search same_rules depth 24

  pub will_topic-Same : (buf : List ℕ) (size : ℕ) → Kept (WillTopic.recv buf size header)
  unfolding WillTopic.recv WillMsgReq.send
  will_topic-Same buf size = search (same_rules, update_will_topic-Same) depth 24

  pub will_msg_req-Same : (buf : List ℕ) (size : ℕ) → Kept (WillMsgReq.recv buf size header)
  unfolding WillMsgReq.recv
  will_msg_req-Same buf size = search same_rules depth 24

  pub will_msg-Same : (buf : List ℕ) (size : ℕ) → Kept (WillMsg.recv buf size header)
  unfolding WillMsg.recv ConnAck.send
  will_msg-Same buf size = search (same_rules, update_will_msg-Same) depth 24

  pub reg_ack-Same : (buf : List ℕ) (size : ℕ) → Kept (RegAck.recv buf size header)
  unfolding RegAck.recv
  reg_ack-Same buf size = search same_rules depth 24

  pub pub_ack-Same : (buf : List ℕ) (size : ℕ) → Kept (PubAck.recv buf size header)
  unfolding PubAck.recv
  pub_ack-Same buf size = search same_rules depth 24

  pub pub_rec-Same : (buf : List ℕ) (size : ℕ) → Kept (PubRec.recv buf size header)
  unfolding PubRec.recv
  pub_rec-Same buf size = search same_rules depth 24

  pub pub_rel-Same : (buf : List ℕ) (size : ℕ) → Kept (PubRel.recv buf size header)
  unfolding PubRel.recv PubRel.complete PubComp.send
  pub_rel-Same buf size = search (same_rules, release-Same) depth 24

  pub subscribe-Same : (buf : List ℕ) (size : ℕ) → Kept (Subscribe.recv buf size header)
  unfolding Subscribe.recv Subscribe.receive SubAck.send
  subscribe-Same buf size = search (same_rules, send_retained-Same) depth 24

  pub sub_ack-Same : (buf : List ℕ) (size : ℕ) → Kept (SubAck.recv buf size header)
  unfolding SubAck.recv
  sub_ack-Same buf size = search same_rules depth 24

  pub unsub_ack-Same : (buf : List ℕ) (size : ℕ) → Kept (UnsubAck.recv buf size header)
  unfolding UnsubAck.recv
  unsub_ack-Same buf size = search same_rules depth 24

  pub ping_resp-Same : (buf : List ℕ) (size : ℕ) → Kept (PingResp.recv buf size header)
  unfolding PingResp.recv
  ping_resp-Same buf size = search same_rules depth 24

  pub will_topic_upd-Same : (buf : List ℕ) (size : ℕ) → Kept (WillTopicUpd.recv buf size header)
  unfolding WillTopicUpd.recv WillTopicResp.send
  will_topic_upd-Same buf size = search (same_rules, update_will_topic-Same) depth 24

  pub will_topic_resp-Same : (buf : List ℕ) (size : ℕ) → Kept (WillTopicResp.recv buf size header)
  unfolding WillTopicResp.recv
  will_topic_resp-Same buf size = search same_rules depth 24

  pub will_msg_upd-Same : (buf : List ℕ) (size : ℕ) → Kept (WillMsgUpd.recv buf size header)
  unfolding WillMsgUpd.recv WillMsgResp.send
  will_msg_upd-Same buf size = search (same_rules, update_will_msg-Same) depth 24

  pub will_msg_resp-Same : (buf : List ℕ) (size : ℕ) → Kept (WillMsgResp.recv buf size header)
  unfolding WillMsgResp.recv
  will_msg_resp-Same buf size = search same_rules depth 24

  pub publish-Same : (buf : List ℕ) (size : ℕ) → Kept (Publish.recv buf size header)
  unfolding Publish.recv Publish.receive Publish.hold Publish.deliver PubAck.send PubRec.send
  publish-Same buf size = search (same_rules, send_msg_to_subscribers-Same) depth 24

  pub connect-Same : (buf : List ℕ) (size : ℕ) → Kept (Connect.recv buf size header)
  unfolding Connect.recv WillTopicReq.send ConnAck.send
  connect-Same buf size = search (same_rules, try_insert-Same) depth 24

  pub disconnect-Same : (buf : List ℕ) (size : ℕ) → Kept (Disconnect.recv buf size header)
  unfolding Disconnect.recv Disconnect.leave Disconnect.sleep Disconnect.send
  disconnect-Same buf size =
      search
        (same_rules, get_state-Same, update_state-Same, publish_will_of-Same, forget_client-Same)
        depth 24
