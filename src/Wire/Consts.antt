-- ===== src/Wire/Consts.antt =====
-- The message types and lengths of lib/broker-lib/src/lib.rs.
use rust_mqtt_sn.Prelude.{ℕ}

-- MSG_TYPE_*
abbrev pub msg_type_advertise : ℕ
msg_type_advertise = 0x0

abbrev pub msg_type_search_gw : ℕ
msg_type_search_gw = 0x1

abbrev pub msg_type_gw_info : ℕ
msg_type_gw_info = 0x2

abbrev pub msg_type_connect : ℕ
msg_type_connect = 0x4

abbrev pub msg_type_connack : ℕ
msg_type_connack = 0x5

abbrev pub msg_type_will_topic_req : ℕ
msg_type_will_topic_req = 0x6

abbrev pub msg_type_will_topic : ℕ
msg_type_will_topic = 0x7

abbrev pub msg_type_will_msg_req : ℕ
msg_type_will_msg_req = 0x8

abbrev pub msg_type_will_msg : ℕ
msg_type_will_msg = 0x9

abbrev pub msg_type_register : ℕ
msg_type_register = 0xa

abbrev pub msg_type_regack : ℕ
msg_type_regack = 0xb

abbrev pub msg_type_publish : ℕ
msg_type_publish = 0xc

abbrev pub msg_type_puback : ℕ
msg_type_puback = 0xd

abbrev pub msg_type_pubcomp : ℕ
msg_type_pubcomp = 0xe

abbrev pub msg_type_pubrec : ℕ
msg_type_pubrec = 0xf

abbrev pub msg_type_pubrel : ℕ
msg_type_pubrel = 0x10

abbrev pub msg_type_subscribe : ℕ
msg_type_subscribe = 0x12

abbrev pub msg_type_suback : ℕ
msg_type_suback = 0x13

abbrev pub msg_type_unsubscribe : ℕ
msg_type_unsubscribe = 0x14

abbrev pub msg_type_unsuback : ℕ
msg_type_unsuback = 0x15

abbrev pub msg_type_pingreq : ℕ
msg_type_pingreq = 0x16

abbrev pub msg_type_pingresp : ℕ
msg_type_pingresp = 0x17

abbrev pub msg_type_disconnect : ℕ
msg_type_disconnect = 0x18

abbrev pub msg_type_will_topic_upd : ℕ
msg_type_will_topic_upd = 0x1a

abbrev pub msg_type_will_topic_resp : ℕ
msg_type_will_topic_resp = 0x1b

abbrev pub msg_type_will_msg_upd : ℕ
msg_type_will_msg_upd = 0x1c

abbrev pub msg_type_will_msg_resp : ℕ
msg_type_will_msg_resp = 0x1d

-- MSG_LEN_*
abbrev pub msg_len_puback : ℕ
msg_len_puback = 7

abbrev pub msg_len_pubrec : ℕ
msg_len_pubrec = 4

abbrev pub msg_len_pubrel : ℕ
msg_len_pubrel = 4

abbrev pub msg_len_pubcomp : ℕ
msg_len_pubcomp = 4

abbrev pub msg_len_suback : ℕ
msg_len_suback = 8

abbrev pub msg_len_regack : ℕ
msg_len_regack = 7

abbrev pub msg_len_connack : ℕ
msg_len_connack = 3

abbrev pub msg_len_disconnect : ℕ
msg_len_disconnect = 2

abbrev pub msg_len_disconnect_duration : ℕ
msg_len_disconnect_duration = 4

abbrev pub msg_len_will_topic_req : ℕ
msg_len_will_topic_req = 2

abbrev pub msg_len_will_msg_req : ℕ
msg_len_will_msg_req = 2

abbrev pub msg_len_will_topic_resp : ℕ
msg_len_will_topic_resp = 3

abbrev pub msg_len_will_msg_resp : ℕ
msg_len_will_msg_resp = 3

abbrev pub msg_len_pingresp : ℕ
msg_len_pingresp = 2

abbrev pub msg_len_unsuback : ℕ
msg_len_unsuback = 4

abbrev pub msg_len_publish_header : ℕ
msg_len_publish_header = 7

abbrev pub msg_len_connect_header : ℕ
msg_len_connect_header = 6

abbrev pub msg_len_register_header : ℕ
msg_len_register_header = 6

abbrev pub msg_len_unsubscribe_header : ℕ
msg_len_unsubscribe_header = 7

abbrev pub msg_len_will_topic_header : ℕ
msg_len_will_topic_header = 3

abbrev pub msg_len_will_msg_header : ℕ
msg_len_will_msg_header = 2

abbrev pub msg_len_will_topic_upd_header : ℕ
msg_len_will_topic_upd_header = 3

abbrev pub msg_len_pingreq_header : ℕ
msg_len_pingreq_header = 2

-- RETURN_CODE_*
abbrev pub return_code_accepted : ℕ
return_code_accepted = 0

abbrev pub return_code_invalid_topic_id : ℕ
return_code_invalid_topic_id = 2
