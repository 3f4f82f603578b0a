-- ===== src/Tests/Messages.antt =====
-- MQTT-SN messages that are written and read back, at concrete values.
use mqtt_s_gateway.Base.{◌≡◌, refl, some, [], ◌∷◌, arith}
use mqtt_s_gateway.Sn.Builders.{set_subscribe_topic_name}
use mqtt_s_gateway.Sn.Builders.Absorbing.{absorb_publish-publish_data}
use mqtt_s_gateway.Sn.Builders.Texts.{absorb_subscribe-set_subscribe_topic_name}
use mqtt_s_gateway.Sn.Replies.{publish_data}
use mqtt_s_gateway.Sn.Requests.{
  SnPublish, sn_publish, absorb_publish, data_bytes, SnSubscribe, sn_subscribe, absorb_subscribe,
}

abbrev to_publish : SnPublish
to_publish = record sn_publish { topic_id = 300; msg_id = 7; flags = 0x20 }

absorb_publish-publish_data_example :
    (q : SnPublish) × (publish_data to_publish (1 ∷ 2 ∷ 3 ∷ []) ≡ some q)
    × (absorb_publish sn_publish q.base ≡ some q)
    × (data_bytes q ≡ some (1 ∷ 2 ∷ 3 ∷ []))
    × (q.topic_id ≡ 300)
    × (q.msg_id ≡ 7)
    × (q.flags ≡ 0x20)
absorb_publish-publish_data_example =
    absorb_publish-publish_data to_publish (1 ∷ 2 ∷ 3 ∷ []) (omega arith) (omega arith)
      (omega arith)

abbrev to_subscribe : SnSubscribe
to_subscribe = record sn_subscribe { msg_id = 7; flags = 0x20 }

absorb_subscribe-set_subscribe_topic_name_example :
    (q : SnSubscribe) × (set_subscribe_topic_name to_subscribe (b'l' ∷ []) ≡ some q)
    × (absorb_subscribe 0 (record sn_subscribe { topic_id = to_subscribe.topic_id }) q.base
        ≡ some q)
    × (q.topic_name ≡ b'l' ∷ [])
    × (q.flags ≡ 0x20)
    × (q.msg_id ≡ 7)
absorb_subscribe-set_subscribe_topic_name_example =
    absorb_subscribe-set_subscribe_topic_name to_subscribe (b'l' ∷ []) 0 (omega arith) refl refl
      (omega arith)
