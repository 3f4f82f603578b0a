-- ===== src/Tests/Wire.antt =====
-- The formats of MQTT and of the XBee frames at concrete values.
use mqtt_s_gateway.Base.{Str, ◌≡◌, refl, true, some, [], ◌∷◌, ◌++◌, arith}
use mqtt_s_gateway.Mqtt.{MqttMessage, mqtt_connect, mqtt_publish}
use mqtt_s_gateway.Mqtt.Deserialize.{deserialize_publish}
use mqtt_s_gateway.Mqtt.RoundTrip.{IsPublish, read_back, deserialize_publish-serialize_publish}
use mqtt_s_gateway.Mqtt.Serialize.{Written, serialize_publish}
use mqtt_s_gateway.RemainingLength.RoundTrip.{deserialize-encode}
use mqtt_s_gateway.RemainingLength

abbrev reading : MqttMessage
reading = record mqtt_publish {
  flags = 3;
  message_id = 7;
  topic = b'a' ∷ b'/' ∷ b'b' ∷ [];
  payload = 1 ∷ 2 ∷ [];
  len = 2;
  remain_length = 9;
}

reading-IsPublish : IsPublish reading
reading-IsPublish = record {
  of_type = refl;
  flags_low = omega arith;
  id_range = omega arith;
  payload_len = refl;
  short_payload = omega arith;
  fits = omega arith;
}

deserialize_publish-serialize_publish_example :
    (w : Written) × (serialize_publish reading ≡ some w)
    × (deserialize_publish mqtt_publish (w.1 ++ 0xc0 ∷ []) ≡ some (read_back reading, true))
deserialize_publish-serialize_publish_example =
    deserialize_publish-serialize_publish reading (0xc0 ∷ []) reading-IsPublish

deserialize-encode_example :
    (r : RemainingLength.RemainingLength) × (RemainingLength.encode RemainingLength.blank 321
      ≡ some r)
    × (RemainingLength.decode r ≡ some 321)
    × (RemainingLength.deserialize RemainingLength.blank (RemainingLength.serialize r ++ 9 ∷ [])
        ≡ some r)
deserialize-encode_example = deserialize-encode 321 (9 ∷ []) (omega arith)

abbrev greeting : MqttMessage
greeting = record mqtt_connect { client_id = b'n' ∷ b'1' ∷ []; keep_alive_time = 60 }

-- A PUBLISH with the DUP flag.
abbrev repeated : Str
repeated = 9 ∷ 0 ∷ 3 ∷ b'a' ∷ b'/' ∷ b'b' ∷ 0 ∷ 7 ∷ 1 ∷ 2 ∷ []
