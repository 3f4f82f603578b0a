-- ===== src/Xbee/Escaping.antt =====
-- One byte behind the start byte: what sendByte writes, readPacket takes as that byte.
use mqtt_s_gateway.Base.{
  Str, IsByte, ℕ, ◌<◌, bit_xor, ◌≡◌, ap, ◌∙◌, ◌≢◌, inl, inr, true, false, Option, none, some, [],
  ◌∷◌, ◌++◌, arith, Bool-cases, toggle_twice,
}
use mqtt_s_gateway.Xbee.{start_byte, escape_byte, XbeeState}
use mqtt_s_gateway.Xbee.Receive.{
  Round, return, again, fault, accept, restart, starts_escape, read_packet,
}
use mqtt_s_gateway.Xbee.Send.{is_special, send_byte}

-- The loop after a round.
abbrev pub proceed : Round → Str → Option (XbeeState × Str)
proceed (return y) rest = some (y, rest)
proceed (again y) rest = read_packet rest y
proceed fault rest = none

restart_other : (b : ℕ) (x : XbeeState) → b ≢ start_byte → restart b x ≡ x
unfolding restart
restart_other b x h = ground arith

starts_escape_other : (b : ℕ) (x : XbeeState) → b ≢ escape_byte → starts_escape b x ≡ false
unfolding starts_escape
starts_escape_other b x h = ground arith

starts_escape_inside : (x : XbeeState) → 0 < x.pos → starts_escape escape_byte x ≡ true
unfolding starts_escape
starts_escape_inside x h = ground arith

one_plain :
    (b : ℕ) (x : XbeeState)
    → b ≢ escape_byte
    → read_packet (b ∷ []) x ≡ proceed (accept b (restart b x)) []
unfolding read_packet
one_plain b x h = ground (arith, starts_escape_other b (restart b x) h)

next_plain :
    (b c : ℕ) (rest : Str) (x : XbeeState)
    → b ≢ escape_byte
    → read_packet (b ∷ c ∷ rest) x ≡ proceed (accept b (restart b x)) (c ∷ rest)
unfolding read_packet
next_plain b c rest x h = ground (arith, starts_escape_other b (restart b x) h)

pub read_plain :
    (b : ℕ) (rest : Str) (x : XbeeState)
    → b ≢ escape_byte
    → read_packet (b ∷ rest) x ≡ proceed (accept b (restart b x)) rest
read_plain b [] x h = one_plain b x h
read_plain b (c ∷ rest) x h = next_plain b c rest x h

read_pair :
    (c : ℕ) (rest : Str) (x : XbeeState)
    → 0 < x.pos
    → read_packet (escape_byte ∷ c ∷ rest) x ≡ proceed (accept (bit_xor 0x20 c) x) rest
unfolding read_packet
read_pair c rest x h = ground (arith, restart_other escape_byte x, starts_escape_inside x h)

-- Behind the start byte, the one or two bytes that sendByte writes for a byte are read as that byte.
pub read_packet-send_byte :
    (b : ℕ) (rest : Str) (x : XbeeState)
    → IsByte b
    → 0 < x.pos
    → read_packet (send_byte b ++ rest) x ≡ proceed (accept b x) rest
read_packet-send_byte b rest x h inside = elim (Bool-cases (is_special b)) [
  | inl special ↦
      unfold send_byte in
      rw special (
        read_pair (bit_xor b 0x20) rest x inside
        ∙ ap (λ (c : ℕ). proceed (accept c x) rest) (toggle_twice b h))
  | inr plain ↦
      unfold send_byte in
      rw plain (
        read_plain b rest x (ground arith)
        ∙ ap (λ (y : XbeeState). proceed (accept b y) rest) (restart_other b x (ground arith)))
]
