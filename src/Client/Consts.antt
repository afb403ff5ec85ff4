-- ===== src/Client/Consts.antt =====
-- The message types and lengths of lib/client-lib/src/lib.rs.
use rust_mqtt_sn.Prelude.{ℕ}

abbrev pub mtu : ℕ
mtu = 1500

abbrev pub msg_type_connect : ℕ
msg_type_connect = 0x4

abbrev pub msg_type_connack : ℕ
msg_type_connack = 0x5

abbrev pub msg_type_subscribe : ℕ
msg_type_subscribe = 0x12

abbrev pub msg_type_suback : ℕ
msg_type_suback = 0x13

abbrev pub msg_type_unsuback : ℕ
msg_type_unsuback = 0x13

abbrev pub msg_type_publish : ℕ
msg_type_publish = 0xc

abbrev pub msg_type_puback : ℕ
msg_type_puback = 0xd

abbrev pub msg_type_pubcomp : ℕ
msg_type_pubcomp = 0xe

abbrev pub msg_type_pubrec : ℕ
msg_type_pubrec = 0xf

abbrev pub msg_type_pubrel : ℕ
msg_type_pubrel = 0x10

abbrev pub msg_type_willmsgresp : ℕ
msg_type_willmsgresp = 0x1d

abbrev pub msg_type_willmessagereq : ℕ
msg_type_willmessagereq = 0x08

abbrev pub msg_type_regack : ℕ
msg_type_regack = 0x0b

abbrev pub msg_len_puback : ℕ
msg_len_puback = 7

abbrev pub msg_len_pubrec : ℕ
msg_len_pubrec = 4

abbrev pub msg_len_pubrel : ℕ
msg_len_pubrel = 4

abbrev pub msg_len_pubcomp : ℕ
msg_len_pubcomp = 4

abbrev pub msg_len_suback : ℕ
msg_len_suback = 8

abbrev pub msg_len_unsuback : ℕ
msg_len_unsuback = 8

abbrev pub msg_len_connack : ℕ
msg_len_connack = 3

abbrev pub msg_len_willmessagereq : ℕ
msg_len_willmessagereq = 2

abbrev pub msg_len_regack : ℕ
msg_len_regack = 7

abbrev pub msg_len_willmsgresp : ℕ
msg_len_willmsgresp = 3

abbrev pub return_code_accepted : ℕ
return_code_accepted = 0
