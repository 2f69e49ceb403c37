-- ===== src/NtpClient.antt =====
-- src/ntp_client.cpp and include/ntp_client.h: the clock, set from an NTP server. `time_t` is a signed
-- number of 64 bits, kept as its pattern; `time_us_64()` is an argument, and so are the answers of lwIP.
-- An address is the list of its bytes. The fields that the code never uses are left out.
pub mod Receive
mod Tests
use pico_modbus_meter.Base.{
  ℕ, ◌+◌, ◌-◌, ◌*◌, ◌/◌, ◌%◌, ◌^◌, Bool, true, false, ◌&&◌, not, Option, none, some, List, [], ◌∷◌,
  replicate, ltb, leb, ◌==◌, if◌then◌else◌, bytes_eq,
}
use pico_modbus_meter.Base.Memory.{◌>>=◌, load}
use pico_modbus_meter.Lwip.{Pbuf, Event, alloc, send, free_sent, free_received}

abbrev pub ntp_msg_len : ℕ
ntp_msg_len = 48

abbrev pub ntp_port : ℕ
ntp_port = 123

abbrev pub ntp_delta : ℕ
ntp_delta = 2_208_988_800

pub record NtpClient : Type 0 where
  pub ntp_server_address : List ℕ
  pub ntp_pcb : Option ℕ
  pub ntp_time : ℕ
  pub local_time : ℕ

-- `<` of two `time_t` patterns
abbrev pub time_lt : ℕ → ℕ → Bool
time_lt a b = ltb ((a + 2 ^ 63) % 2 ^ 64) ((b + 2 ^ 63) % 2 ^ 64)

-- The four bytes put together as an `int`, whose sign goes on into the `time_t`.
unfoldable pub seconds_of : List ℕ → Option ℕ
seconds_of buf = load buf 0 >>= λ b0. load buf 1 >>= λ b1. load buf 2 >>= λ b2. load buf 3 >>= λ b3.
    let v = b0 * 2 ^ 24 + b1 * 2 ^ 16 + b2 * 2 ^ 8 + b3 in
    some (if leb (2 ^ 31) v then v + 2 ^ 64 - 2 ^ 32 else v)

unfoldable pub since_1970 : ℕ → ℕ
since_1970 seconds =
    let seconds_since_1900 =
      (if time_lt seconds ntp_delta then (seconds + 2 ^ 32) % 2 ^ 64 else seconds) in
    (seconds_since_1900 + 2 ^ 64 - ntp_delta) % 2 ^ 64

-- the test on a response
unfoldable pub is_response : NtpClient → Pbuf → List ℕ → ℕ → Bool
is_response c p addr port =
    bytes_eq addr c.ntp_server_address
    && (port == ntp_port
        && (p.tot_len == ntp_msg_len && (p.get_at 0 % 8 == 4 && not (p.get_at 1 == 0))))

-- `ntp_recv`, at the time `now` in microseconds
unfoldable pub ntp_recv : ℕ → NtpClient → Pbuf → List ℕ → ℕ → Option (NtpClient × List Event)
ntp_recv now c p addr port =
    if is_response c p addr port
    then (seconds_of (p.copy_partial (replicate 4 0) 4 40).0 >>= λ seconds. some (
      record c { local_time = now / 1_000_000; ntp_time = since_1970 seconds },
      free_received ∷ [],
    ))
    else some (c, free_received ∷ [])

-- `ntp_request`, given whether `pbuf_alloc` finds memory. Its result is not tested: without memory the
-- write of the request goes through a null pointer.
unfoldable pub ntp_request : Bool → NtpClient → Option (List Event)
ntp_request alloc_ok c =
    if alloc_ok
    then some (alloc ∷ send (0x1b ∷ replicate 47 0) c.ntp_server_address ntp_port ∷ free_sent ∷ [])
    else none

-- `ntp_dns_found`, the callback of the name lookup
unfoldable pub ntp_dns_found : Bool → NtpClient → Option (List ℕ) → Option (NtpClient × List Event)
ntp_dns_found alloc_ok c none = some (c, [])
ntp_dns_found alloc_ok c (some ipaddr) =
    let c' = record c { ntp_server_address = ipaddr } in
    ntp_request alloc_ok c' >>= λ es. some (c', es)

-- `ntp_init`, given what `udp_new_ip_type` returns
unfoldable pub ntp_init : Option ℕ → NtpClient → NtpClient
ntp_init pcb c = record c { ntp_pcb = pcb }

-- `update_time`: the client, and whether a lookup was started. `address` is what
-- `dns_gethostbyname` wrote, if it knew the name already; the callback comes later or never.
unfoldable pub update_time : Option ℕ → Option (List ℕ) → NtpClient → NtpClient × Bool
update_time pcb address c =
    let c' : NtpClient = elim c.ntp_pcb [ none ↦ ntp_init pcb c | some h ↦ c ] in
    elim c'.ntp_pcb [
      | none ↦ (c', false)
      | some h ↦ (elim address [ none ↦ c' | some a ↦ record c' { ntp_server_address = a } ], true)
    ]

unfoldable pub get_time_since_epoch : ℕ → NtpClient → ℕ
get_time_since_epoch now c = (c.ntp_time + now / 1_000_000 + 2 ^ 64 - c.local_time) % 2 ^ 64

unfoldable pub set_time_since_epoch : ℕ → NtpClient → ℕ → NtpClient
set_time_since_epoch now c t = record c { local_time = now / 1_000_000; ntp_time = t }
