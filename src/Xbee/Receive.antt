-- ===== src/Xbee/Receive.antt =====
-- XBee::readPacket and receiveResponse.
use mqtt_s_gateway.Base.{
  Str, u8, ◌>>=◌, ℕ, ◌+◌, ◌-◌, ◌%◌, bit_xor, Bool, true, false, ◌&&◌, Option, none, some, [], ◌∷◌,
  ltb, leb, ◌==◌, if◌then◌else◌, length, set,
}
use mqtt_s_gateway.Xbee.{
  start_byte, escape_byte, max_frame_data_size, no_error, checksum_failure,
  packet_exceeds_byte_array_length, XbResponse, packet_length, reset, absorb, XbeeState,
}

-- How the body of the loop ends: by `return`, by another round, or in an access to a freed buffer.
pub data Round : Type 0 where
  return again : XbeeState → Round
  fault : Round

-- The last byte of a packet.
unfoldable pub finish : ℕ → XbeeState → XbeeState
finish b x =
    let good = record (x.response) { checksum = b; complete = true; error_code = no_error } in
    let bad = record (x.response) { error_code = checksum_failure } in
    let checked = if x.checksum_total % 256 == 0xff then good else bad in
    record x {
      response = record checked { frame_length = u8 (x.pos + 252) };
      pos = 0;
      checksum_total = 0;
    }

-- `buf[_pos - 4] = _bd; _pos++`
unfoldable pub store : ℕ → XbeeState → Round
store b x = elim x.response.frame_data [
  | none ↦ fault
  | some buf ↦
      if ltb (x.pos - 4) (length buf)
      then again (record x {
        response = record (x.response) { frame_data = some (set buf (x.pos - 4) b) };
        pos = u8 (x.pos + 1);
      })
      else fault
]

-- The switch over `_pos`.
unfoldable pub place : ℕ → XbeeState → Round
unfolding finish store
place b x =
    let moved = record x { pos = u8 (x.pos + 1) } in
    if x.pos == 0
    then again (if b == start_byte then moved else x)
    else if x.pos == 1
    then again (record moved { response = record (x.response) { msb_length = b } })
    else if x.pos == 2
    then again (record moved { response = record (x.response) { lsb_length = b } })
    else if x.pos == 3
    then again (record moved { response = record (x.response) { api_id = b } })
    else if ltb max_frame_data_size x.pos
    then return (record x {
      response = record (x.response) { error_code = packet_exceeds_byte_array_length };
    })
    else if x.pos == packet_length x.response + 3
    then return (finish b x)
    else store b x

-- What follows the handling of ESCAPE: a pending escape, the checksum, the switch.
unfoldable pub accept : ℕ → XbeeState → Round
unfolding place
accept b x =
    let b' = if x.escape then bit_xor 0x20 b else b in
    let x' = record x { escape = false } in
    place b' (if leb 3 x.pos then record x' { checksum_total = u8 (x.checksum_total + b') } else x')

-- The check of the start byte.
unfoldable pub restart : ℕ → XbeeState → XbeeState
restart b x = if ltb 0 x.pos && (b == start_byte) then record x { pos = 0 } else x

unfoldable pub starts_escape : ℕ → XbeeState → Bool
starts_escape b x = ltb 0 x.pos && (b == escape_byte)

-- readPacket: the state, and the bytes that are left to read. The loop takes one byte a round, or two.
unfoldable pub read_packet : Str → XbeeState → Option (XbeeState × Str)
unfolding accept restart starts_escape
read_packet [] x = some (x, [])
read_packet (b ∷ []) x =
    let x' = restart b x in
    elim (starts_escape b x') [
      | true ↦ some (record x' { escape = true }, [])
      | false ↦ elim (accept b x') [
        | return y ↦ some (y, [])
        | again y ↦ some (y, [])
        | fault ↦ none
      ]
    ]
read_packet (b ∷ c ∷ rest) x =
    let x' = restart b x in
    elim (starts_escape b x') [
      | true ↦ elim (accept (bit_xor 0x20 c) x') [
        | return y ↦ some (y, rest)
        | again y ↦ read_packet rest y
        | fault ↦ none
      ]
      | false ↦ elim (accept b x') [
        | return y ↦ some (y, c ∷ rest)
        | again y ↦ read_packet (c ∷ rest) y
        | fault ↦ none
      ]
    ]

-- One round of receiveResponse after readPacket: an answer for the caller, or another round.
pub data Answer : Type 0 where
  received : XbResponse → XbeeState → Answer
  failed : XbeeState → Answer
  waiting : XbeeState → Answer

unfoldable pub check_response : XbeeState → Option Answer
check_response x =
    if x.response.complete
    then (absorb x.response >>= λ r. some (received r x))
    else if ltb 0 x.response.error_code
    then some (failed (record x { response = reset x.response }))
    else some (waiting x)
