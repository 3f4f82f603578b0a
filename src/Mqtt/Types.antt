-- ===== src/Mqtt/Types.antt =====
-- The message types and constants of MQTT in TomyGateway/src/libmq/Messages.h.
use Prim.Native.Nat.{ℕ}
use mathlib.Core.List.{List, [], ◌∷◌}

abbrev pub mqtt_type_connect : ℕ
mqtt_type_connect = 0x10

abbrev pub mqtt_type_connack : ℕ
mqtt_type_connack = 0x20

abbrev pub mqtt_type_publish : ℕ
mqtt_type_publish = 0x30

abbrev pub mqtt_type_puback : ℕ
mqtt_type_puback = 0x40

abbrev pub mqtt_type_subscribe : ℕ
mqtt_type_subscribe = 0x80

abbrev pub mqtt_type_suback : ℕ
mqtt_type_suback = 0x90

abbrev pub mqtt_type_unsubscribe : ℕ
mqtt_type_unsubscribe = 0xa0

abbrev pub mqtt_type_unsuback : ℕ
mqtt_type_unsuback = 0xb0

abbrev pub mqtt_type_pingreq : ℕ
mqtt_type_pingreq = 0xc0

abbrev pub mqtt_type_pingresp : ℕ
mqtt_type_pingresp = 0xd0

abbrev pub mqtt_type_disconnect : ℕ
mqtt_type_disconnect = 0xe0

-- "MQIsdp"
abbrev pub mqtt_protocol_name : List ℕ
mqtt_protocol_name = b'M' ∷ b'Q' ∷ b'I' ∷ b's' ∷ b'd' ∷ b'p' ∷ []

abbrev pub mqtt_protocol_version : ℕ
mqtt_protocol_version = 3

abbrev pub mqtt_rc_accepted : ℕ
mqtt_rc_accepted = 0

abbrev pub mqtt_rc_refused_identifier_rejected : ℕ
mqtt_rc_refused_identifier_rejected = 2
