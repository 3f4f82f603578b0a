-- ===== src/Socket/Closing.antt =====
-- How a connection is closed: the task that asks for it waits until another task tests the socket.
use mqtt_s_gateway.Base.{◌<◌, ◌≡◌, true, false, none, some, arith}
use mqtt_s_gateway.Socket.{Socket, new_socket, is_valid, disconnect, sem_wait}

-- An open socket that nobody waits for stays busy after `disconnect` until `isValid` is called
-- once: the test closes it and lets the waiting task go on, and the socket is then as a new one.
pub is_valid-disconnect :
    (s : Socket)
    → s.sem ≡ 0
    → 0 < s.sock
    → ((disconnect s).0 ≡ true)
      × (sem_wait (disconnect s).1 ≡ none)
      × ((is_valid (disconnect s).1).0 ≡ false)
      × (sem_wait (is_valid (disconnect s).1).1 ≡ some new_socket)
unfolding is_valid disconnect sem_wait
is_valid-disconnect s e h = ground arith
