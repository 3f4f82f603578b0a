-- ===== src/Gateway/ToBroker/Delivery.antt =====
-- What BrokerSendTask does with the bytes of a message (TomyGateway/src/BrokerSendTask.cpp).
use mqtt_s_gateway.Base.{
  Str, ◌≡◌, Bool, true, false, ◌&&◌, arith, ltb, if◌then◌else◌, ◌<◌, refl, sym, subst, inl, inr,
  ltb→lt, Bool-cases,
}
use mqtt_s_gateway.Gateway.ToBroker.{Attempt, delivered, dropped, waits, send_over, attempt}
use mqtt_s_gateway.Socket.{OsAnswers, is_valid, disconnect, Socket}
use mqtt_s_gateway.Socket

-- A socket that nobody asked to close.
pub record IsIdle (s : Socket.Socket) : Type 0 where
  pub unasked : s.discon_req ≡ false
  pub unposted : s.sem ≡ 0

-- Whether the operating system sets up a new connection.
abbrev pub connects_new : OsAnswers → Bool
connects_new os = ltb 0 os.descriptor && (os.option_set && (os.family_supported && os.connected))

-- The end over a connection: the bytes go out, or the connection is to be closed.
abbrev pub over_connection : OsAnswers → Socket.Socket → Str → Attempt
over_connection os s bytes =
    if os.sent then delivered bytes s else waits (record s { discon_req = true })

-- For a socket that nobody asked to close and whose semaphore is at 0, BrokerSendTask sends over
-- the open connection or else over the new one, if the operating system gives one; when `send`
-- fails it waits for the connection to be closed; without a connection the bytes are given up, and
-- the socket keeps the descriptor that was opened.
pub attempt_lem :
    (os : OsAnswers) (s : Socket.Socket) (bytes : Str)
    → IsIdle s
    → attempt os s bytes ≡ (
        if ltb 0 s.sock
        then over_connection os s bytes
        else if connects_new os
        then over_connection os (record s { sock = os.descriptor }) bytes
        else dropped (record s { sock = os.descriptor }))
unfolding attempt send_over is_valid disconnect Socket.create Socket.connect
attempt_lem os s bytes h = ground (arith, h.unasked)

-- A socket whose disconnect another task has to carry out.
pub record IsClosing (s : Socket.Socket) : Type 0 where
  pub asked : s.discon_req ≡ true
  pub unposted : s.sem ≡ 0
  pub connected : 0 < s.sock

abbrev pub IsGood : Attempt → Type 0
IsGood (delivered bytes s) = Unit
IsGood (dropped s) = Unit
IsGood (waits s) = IsClosing s

over_connection-IsGood :
    (os : OsAnswers) (s : Socket.Socket) (bytes : Str)
    → s.sem ≡ 0
    → 0 < s.sock
    → IsGood (over_connection os s bytes)
over_connection-IsGood os s bytes e lt = elim (Bool-cases os.sent) [
  | inl good ↦ rw good tt
  | inr bad ↦ rw bad (record { asked = refl; unposted = e; connected = lt })
]

pub attempt-IsGood :
    (os : OsAnswers) (s : Socket.Socket) (bytes : Str) → IsIdle s → IsGood (attempt os s bytes)
attempt-IsGood os s bytes h =
    subst IsGood (sym (attempt_lem os s bytes h)) (elim (Bool-cases (ltb 0 s.sock)) [
      | inl is_open ↦
          rw is_open (over_connection-IsGood os s bytes h.unposted (ltb→lt 0 s.sock is_open))
      | inr shut ↦ rw shut (elim (Bool-cases (connects_new os)) [
        | inl joined ↦ rw joined (over_connection-IsGood os _ bytes h.unposted (ground arith))
        | inr refused ↦ rw refused tt
      ])
    ])
