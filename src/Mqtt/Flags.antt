-- ===== src/Mqtt/Flags.antt =====
-- The flag bytes of the MQTT messages.
use mqtt_s_gateway.Base.{
  Str, ℕ, ◌<◌, bit_and, ◌≡◌, refl, some, arith, agree_below, table, IsByte, true, ◌∷◌, ◌+◌, ap, ◌∙◌,
  Bool, false, Option, none, ◌==◌, drop, Each, fails, gives, Each-bind, Each-chain, Each-if,
  from_each,
}
use mqtt_s_gateway.Mqtt.{MqttMessage, is_dup}
use mqtt_s_gateway.Mqtt.Deserialize.{deserialize_publish_body, deserialize_publish}
use mqtt_s_gateway.Mqtt.Types.{mqtt_type_publish}
use mqtt_s_gateway.RemainingLength

dup_low : (b : ℕ) → b < 256 → bit_and (bit_and b 0x0f) 0x80 ≡ 0
unfolding agree_below
dup_low = table 256 _ _ refl

body_flags :
    (p m : MqttMessage) (buf : Str) → deserialize_publish_body p buf ≡ some m → m.flags ≡ p.flags
unfolding deserialize_publish_body
body_flags p m buf h = ground arith

abbrev NoDup : MqttMessage × Bool → Type 0
NoDup r = r.1 ≡ true → bit_and r.0.flags 0x80 ≡ 0

off : (m : MqttMessage) → NoDup (m, false)
off m h = ground arith

kept :
    (p : MqttMessage) (buf : Str) (b : ℕ)
    → b < 256
    → Each (λ m. m.flags ≡ p.flags) (deserialize_publish_body p buf)
kept p buf b small = known (deserialize_publish_body p buf) refl
  where
    known :
        (o : Option MqttMessage)
        → deserialize_publish_body p buf ≡ o
        → Each (λ m. m.flags ≡ p.flags) o
    known none e = fails
    known (some m) e = gives (body_flags p m buf e)

publish-NoDup :
    (p : MqttMessage) (b : ℕ) (rest : Str) → b < 256 → Each NoDup (deserialize_publish p (b ∷ rest))
unfolding deserialize_publish
publish-NoDup p b rest small =
    Each-if (bit_and b 0xf0 == mqtt_type_publish)
      (Each-bind (RemainingLength.deserialize RemainingLength.blank rest) _ (λ rem_len.
        Each-bind (RemainingLength.decode rem_len) _ (λ n.
          Each-chain _
            (kept (record p { type = bit_and b 0xf0; flags = bit_and b 0x0f; remain_length = n })
              (drop (1 + rem_len.size) (b ∷ rest)) b small)
            (λ m2 same. gives (λ is. ap (λ f. bit_and f 0x80) same ∙ dup_low b small)))))
      (gives (off (record p { type = bit_and b 0xf0 })))

-- A PUBLISH that MQTTPublish::deserialize reads never counts as a duplicate, whatever its first
-- byte is.
pub deserialize_publish-is_dup :
    (p m : MqttMessage) (b : ℕ) (rest : Str)
    → IsByte b
    → deserialize_publish p (b ∷ rest) ≡ some (m, true)
    → is_dup m ≡ false
unfolding is_dup
deserialize_publish-is_dup p m b rest small e =
    let clear : bit_and m.flags 0x80 ≡ 0 = from_each (publish-NoDup p b rest small) e refl in
    ground (arith, clear)
