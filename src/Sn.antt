-- ===== src/Sn.antt =====
-- Class MQTTSnMessage of TomyGateway/src/libmq/Messages.cpp: a message between the gateway and an
-- MQTT-SN client, as a block of bytes with its declared length and type. An access outside of the
-- block faults (`none`); so does a text of negative length, for which std::string throws.
pub mod Types
pub mod Requests
pub mod Replies
pub mod Builders
use mqtt_s_gateway.Base.{
  Str, u8, ◌>>=◌, ℕ, ◌+◌, ◌-◌, Option, none, some, ◌∷◌, ◌++◌, ltb, leb, ◌==◌, if◌then◌else◌, length,
  get_elem?, take, drop, replicate,
}
use mqtt_s_gateway.Bytes.{get_uint16}
use mqtt_s_gateway.Mqtt.Deserialize.{read_block}

-- `message` is `[]` as long as the pointer is NULL.
pub record SnMessage : Type 0 where
  pub message : Str
  pub length_byte : ℕ
  pub type : ℕ

-- `new` with `setMessageLength`, `setType` and `allocate`, as the constructors with a fixed length do.
unfoldable pub sn_message : ℕ → ℕ → SnMessage
sn_message len type = record {
  message = len ∷ type ∷ replicate (len - 2) 0;
  length_byte = len;
  type = type;
}

-- `allocate`: a block of one byte has no room for the type.
unfoldable pub allocate : SnMessage → Option SnMessage
allocate m =
    if m.length_byte == 0
    then some m
    else if m.length_byte == 1
    then none
    else some (record m { message = m.length_byte ∷ m.type ∷ replicate (m.length_byte - 2) 0 })

-- `memcpy` into the block.
unfoldable pub write_block : Str → ℕ → Str → Option Str
write_block buf at bytes =
    if leb (at + length bytes) (length buf)
    then some (take at buf ++ (bytes ++ drop (at + length bytes) buf))
    else none

-- Writes bytes into the body.
unfoldable pub put : SnMessage → ℕ → Str → Option SnMessage
unfolding write_block
put m at bytes = do
  message ← write_block m.message (2 + at) bytes
  some (record m { message = message })

-- `getBodyPtr()[i]`
abbrev pub body_byte : SnMessage → ℕ → Option ℕ
body_byte m i = get_elem? m.message (2 + i)

-- `getUint16(getBodyPtr() + i)`
abbrev pub body_uint16 : SnMessage → ℕ → Option ℕ
body_uint16 m i = get_uint16 m.message (2 + i)

-- `getBodyLength`, in a uint8_t.
abbrev pub body_length : SnMessage → ℕ
body_length m = u8 (m.length_byte + 254)

-- `string(getBodyPtr() + at, getMessageLength() - less)`
unfoldable pub body_text : SnMessage → ℕ → ℕ → Option Str
body_text m at less =
    if ltb m.length_byte less
    then none
    else read_block (m.length_byte - less) (drop (2 + at) m.message)

-- `absorb(MQTTSnMessage*)`
unfoldable pub absorb : SnMessage → SnMessage → Option SnMessage
unfolding allocate put
absorb m src = do
  m1 ← allocate (record m { length_byte = src.length_byte; type = src.type })
  body ← read_block (body_length src) (drop 2 src.message)
  put m1 0 body

-- `absorb(XBResponse*)`: the payload that stands in the frame buffer, and its length.
unfoldable pub absorb_response : SnMessage → Str → ℕ → Option SnMessage
unfolding allocate write_block
absorb_response m payload len = do
  type ← get_elem? payload 1
  m1 ← allocate (record m { length_byte = len; type = type })
  bytes ← read_block len payload
  message ← write_block m1.message 0 bytes
  some (record m1 { message = message })
