-- ===== src/DhcpServer/Tests.antt =====
-- The DHCP server at concrete messages and leases, and its theorems applied there.
use pico_modbus_meter.Base.{
  ℕ, ◌≡◌, refl, true, Option, none, some, List, [], ◌∷◌, ◌++◌, arith, replicate, get_elem?, get_or,
  ap, bytes_eq,
}
use pico_modbus_meter.Base.Memory.{load, load_bytes, store_bytes, overwrite}
use pico_modbus_meter.Lwip.{Answers, Event, packet}
use pico_modbus_meter.DhcpServer.{
  Server, Lease, process, discover, is_expired, no_mac, handle, handle_discover, visit, write_reply,
  sendto,
}
use pico_modbus_meter.DhcpServer.Options.{
  overrun, opt_find, opt_find_from, opt_write_n, opt_write_u8, opt_write_u32,
}
use pico_modbus_meter.DhcpServer.Overrun.{here, skip, opt_find-overrun}
use pico_modbus_meter.DhcpServer.Serve.{process-keeps_lease}

abbrev phone : List ℕ
phone = 2 ∷ 0 ∷ 0 ∷ 0 ∷ 0 ∷ 1 ∷ []

abbrev laptop : List ℕ
laptop = 2 ∷ 0 ∷ 0 ∷ 0 ∷ 0 ∷ 2 ∷ []

abbrev phone_lease : Lease
phone_lease = record { mac = phone; expiry = 2000 }

abbrev table : List Lease
table = phone_lease ∷ replicate 7 (record { mac = no_mac; expiry = 2000 })

abbrev server : Server
server = record {
  ip = 192 ∷ 168 ∷ 4 ∷ 1 ∷ [];
  nm = 255 ∷ 255 ∷ 255 ∷ 0 ∷ [];
  lease = table;
  udp = some 1;
}

abbrev answers : Answers
answers = record { alloc_ok = true; send_err = 0 }

abbrev stack : List ℕ
stack = replicate 548 0

-- DHCPDISCOVER of the laptop
abbrev discovery : List ℕ
discovery = replicate 28 0 ++ (laptop ++ (replicate 206 0 ++ 53 ∷ 1 ∷ 1 ∷ 255 ∷ []))

-- options of 308 bytes, of which the last one begins at the last byte
abbrev chained : List ℕ
chained = 12 ∷ 255 ∷ replicate 255 0 ++ (12 ∷ 48 ∷ replicate 48 0 ++ 0 ∷ [])

opt_find-overrun_example : opt_find chained 0 53 ≡ some overrun
opt_find-overrun_example = opt_find-overrun chained 0 53 refl (omega arith) (omega arith) (
    skip (omega arith) (omega arith) (omega arith)
      (skip (omega arith) (omega arith) (omega arith) here))

abbrev outcome : Option (Server × List Event)
outcome = process answers server (λ k. 1000) none stack (packet discovery)

-- the server and the calls after it
abbrev after : Server × List Event
after = elim outcome [ none ↦ (server, []) | some r ↦ r ]

outcome_after : outcome ≡ some (after.0, after.1)
unfolding process handle handle_discover discover visit is_expired write_reply sendto opt_find
    opt_find_from opt_write_n opt_write_u8 opt_write_u32 load load_bytes store_bytes overwrite
    bytes_eq
outcome_after = refl

process-keeps_lease_example : get_elem? after.0.lease 0 ≡ some phone_lease
unfolding is_expired
process-keeps_lease_example =
    process-keeps_lease answers server (λ k. 1000) none stack (packet discovery) after.0 after.1 0
      phone_lease refl outcome_after refl (λ e. omega (arith, ap (λ m. get_or m 5 0) e))
      (λ e. omega (arith, ap (λ m. get_or m 5 0) e)) (λ k. refl)
