-- ===== src/Sn/Types.antt =====
-- The message types and constants of MQTT-SN in TomyGateway/src/libmq/Messages.h and Topics.h.
use Prim.Native.Nat.{ℕ}

abbrev pub sn_type_connect : ℕ
sn_type_connect = 0x04

abbrev pub sn_type_connack : ℕ
sn_type_connack = 0x05

abbrev pub sn_type_willtopicreq : ℕ
sn_type_willtopicreq = 0x06

abbrev pub sn_type_willtopic : ℕ
sn_type_willtopic = 0x07

abbrev pub sn_type_willmsgreq : ℕ
sn_type_willmsgreq = 0x08

abbrev pub sn_type_willmsg : ℕ
sn_type_willmsg = 0x09

abbrev pub sn_type_register : ℕ
sn_type_register = 0x0a

abbrev pub sn_type_regack : ℕ
sn_type_regack = 0x0b

abbrev pub sn_type_publish : ℕ
sn_type_publish = 0x0c

abbrev pub sn_type_puback : ℕ
sn_type_puback = 0x0d

abbrev pub sn_type_subscribe : ℕ
sn_type_subscribe = 0x12

abbrev pub sn_type_suback : ℕ
sn_type_suback = 0x13

abbrev pub sn_type_unsubscribe : ℕ
sn_type_unsubscribe = 0x14

abbrev pub sn_type_unsuback : ℕ
sn_type_unsuback = 0x15

abbrev pub sn_type_pingreq : ℕ
sn_type_pingreq = 0x16

abbrev pub sn_type_pingresp : ℕ
sn_type_pingresp = 0x17

abbrev pub sn_type_disconnect : ℕ
sn_type_disconnect = 0x18

abbrev pub sn_type_advertise : ℕ
sn_type_advertise = 0x00

abbrev pub sn_type_searchgw : ℕ
sn_type_searchgw = 0x01

abbrev pub sn_type_gwinfo : ℕ
sn_type_gwinfo = 0x02

abbrev pub sn_flag_dup : ℕ
sn_flag_dup = 0x80

abbrev pub sn_flag_qos_1 : ℕ
sn_flag_qos_1 = 0x20

abbrev pub sn_flag_retain : ℕ
sn_flag_retain = 0x10

abbrev pub sn_flag_will : ℕ
sn_flag_will = 0x08

abbrev pub sn_flag_clean : ℕ
sn_flag_clean = 0x04

abbrev pub sn_topic_type_normal : ℕ
sn_topic_type_normal = 0x00

abbrev pub sn_topic_type_predefined : ℕ
sn_topic_type_predefined = 0x01

abbrev pub sn_topic_type_short : ℕ
sn_topic_type_short = 0x02

abbrev pub sn_topic_type : ℕ
sn_topic_type = 0x03

abbrev pub sn_rc_accepted : ℕ
sn_rc_accepted = 0x00

abbrev pub sn_rc_rejected_congestion : ℕ
sn_rc_rejected_congestion = 0x01

abbrev pub sn_rc_rejected_invalid_topic_id : ℕ
sn_rc_rejected_invalid_topic_id = 0x02

abbrev pub sn_rc_rejected_not_supported : ℕ
sn_rc_rejected_not_supported = 0x03
