-- ===== src/NtpClient/Tests.antt =====
-- The clock with a response of 2024, and the theorems on it applied there.
use pico_modbus_meter.Base.{
  ℕ, ◌+◌, ◌-◌, ◌/◌, ◌≡◌, refl, some, List, [], ◌∷◌, ◌++◌, replicate, arith, bytes_eq,
}
use pico_modbus_meter.Lwip.{free_received, packet, packet-Holds}
use pico_modbus_meter.NtpClient.{NtpClient, ntp_recv, is_response, get_time_since_epoch}
use pico_modbus_meter.NtpClient.Receive.{ntp_recv-get_time_since_epoch}

abbrev pool : List ℕ
pool = 162 ∷ 159 ∷ 200 ∷ 1 ∷ []

abbrev client : NtpClient
client = record { ntp_server_address = pool; ntp_pcb = some 1; ntp_time = 0; local_time = 0 }

-- mode 4, stratum 2, and 3 913 056 000 seconds since 1900
abbrev response : List ℕ
response = 0x24 ∷ 2 ∷ replicate 38 0 ++ (233 ∷ 60 ∷ 127 ∷ 0 ∷ 0 ∷ 0 ∷ 0 ∷ 0 ∷ [])

ntp_recv-get_time_since_epoch_example :
    (c' : NtpClient) × (ntp_recv 5_000_000 client (packet response) pool 123
      ≡ some (c', free_received ∷ []))
    × (get_time_since_epoch 9_000_000 c'
        ≡ 1_704_067_200 + (9_000_000 / 1_000_000 - 5_000_000 / 1_000_000))
unfolding is_response bytes_eq
ntp_recv-get_time_since_epoch_example =
    ntp_recv-get_time_since_epoch 5_000_000 9_000_000 1_704_067_200 client response
      (packet response) pool 123 (packet-Holds response) refl (omega arith) refl (omega arith)
      (omega arith)
