-- ===== src/Gateway/CommandLine.antt =====
-- The arguments of the command line, as TomyGateway/src/BrokerSendTask.cpp, ClientRecvTask.cpp,
-- ClientSendTask.cpp and GatewayControlTask.cpp read them. `none` is a pointer that is NULL or lies
-- behind the array.
use mqtt_s_gateway.Base.{
  Str, u8, ℕ, ◌≤◌, ◌≡◌, refl, inl, inr, Option, none, some, List, [], ◌∷◌, arith, ltb,
  if◌then◌else◌, ltb→lt, Bool-cases, length, get_elem?, drop-get_elem?, ◌>>=◌,
}

abbrev pub argv_gateway_id : ℕ
argv_gateway_id = 1

abbrev pub argv_device_name : ℕ
argv_device_name = 2

abbrev pub argv_broker_addr : ℕ
argv_broker_addr = 3

abbrev pub argv_broker_port : ℕ
argv_broker_port = 4

-- `getArgv()[ARGV_DEVICE_NAME]`
unfoldable pub device_name : List Str → Option Str
device_name argv = get_elem? argv argv_device_name

-- `setGwId(atoi(getArgv()[ARGV_GATEWAY_ID]))`, a uint8_t.
unfoldable pub gateway_id : (atoi : Str → ℕ) → List Str → Option ℕ
gateway_id atoi argv = get_elem? argv argv_gateway_id >>= λ s. some (u8 (atoi s))

-- The host and the port of the broker, with their defaults.
unfoldable pub broker_host : (broker_host_name : Str) → ℕ → List Str → Option Str
broker_host broker_host_name argc argv =
    if ltb argv_broker_addr argc then get_elem? argv argv_broker_addr else some broker_host_name

unfoldable pub broker_port : (atoi : Str → ℕ) (default_port : ℕ) → ℕ → List Str → Option ℕ
broker_port atoi default_port argc argv =
    if ltb argv_broker_port argc
    then (get_elem? argv argv_broker_port >>= λ s. some (atoi s))
    else some default_port

-- BrokerSendTask tests the number of arguments, so that it always finds a host and a port.
pub broker_host_found :
    (host : Str) (atoi : Str → ℕ) (port : ℕ) (argv : List Str)
    → ((h : Str) × (broker_host host (length argv) argv ≡ some h))
      × ((p : ℕ) × (broker_port atoi port (length argv) argv ≡ some p))
unfolding broker_host broker_port
broker_host_found host atoi port argv = (
  elim (Bool-cases (ltb argv_broker_addr (length argv))) [
    | inl given ↦
        let (h, at, _) = drop-get_elem? argv 3 (ltb→lt 3 (length argv) given) in (h, rw given at)
    | inr left_out ↦ (host, rw left_out refl)
  ],
  elim (Bool-cases (ltb argv_broker_port (length argv))) [
    | inl given ↦
        let (s, at, _) = drop-get_elem? argv 4 (ltb→lt 4 (length argv) given) in
        (atoi s, rw (given, at, ◌>>=◌) refl)
    | inr left_out ↦ (port, rw left_out refl)
  ],
)

-- The other tasks do not: without a second argument there is no device name.
pub device_name_missing : (argv : List Str) → length argv ≤ 2 → device_name argv ≡ none
unfolding device_name
device_name_missing [] h = refl
device_name_missing (a ∷ []) h = refl
device_name_missing (a ∷ b ∷ []) h = refl
device_name_missing (a ∷ b ∷ c ∷ rest) h = absurd (omega arith)
