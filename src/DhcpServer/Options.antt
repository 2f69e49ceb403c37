-- ===== src/DhcpServer/Options.antt =====
-- src/dhcpserver.c: finding and writing DHCP options in a message.
use pico_modbus_meter.Base.{
  ℕ, zero, suc, ◌+◌, ◌/◌, ◌%◌, ◌^◌, Option, none, some, List, [], ◌∷◌, take, ltb, ◌==◌,
  if◌then◌else◌,
}
use pico_modbus_meter.Base.Memory.{◌>>=◌, load, store_bytes}

-- The option codes that the server reads or writes.
abbrev pub opt_subnet_mask : ℕ
opt_subnet_mask = 1

abbrev pub opt_router : ℕ
opt_router = 3

abbrev pub opt_dns : ℕ
opt_dns = 6

abbrev pub opt_requested_ip : ℕ
opt_requested_ip = 50

abbrev pub opt_ip_lease_time : ℕ
opt_ip_lease_time = 51

abbrev pub opt_msg_type : ℕ
opt_msg_type = 53

abbrev pub opt_server_id : ℕ
opt_server_id = 54

abbrev pub opt_end : ℕ
opt_end = 255

-- What `opt_find` comes to. A read outside the message is undefined behaviour.
pub data Found : Type 0 where
  -- the offset of the option from `opt`
  found : ℕ → Found
  not_found : Found
  overrun : Found

-- a read of a byte, and what is done with it
abbrev pub read_then : Option ℕ → (ℕ → Option Found) → Option Found
read_then none f = some overrun
read_then (some b) f = f b

-- `opt_find(opt, cmd)` with `opt` at position `base` of the message, from offset `i` on. The first
-- argument is fuel; `none` means that it ran out.
unfoldable pub opt_find_from : ℕ → List ℕ → ℕ → ℕ → ℕ → Option Found
opt_find_from zero msg base cmd i = none
opt_find_from (suc fuel) msg base cmd i =
    if ltb i 308
    then (read_then (load msg (base + i)) λ code.
        if code == opt_end
        then some not_found
        else if code == cmd
        then some (found i)
        else (read_then (load msg (base + (i + 1)))
            λ len. opt_find_from fuel msg base cmd (i + (2 + len))))
    else some not_found

unfoldable pub opt_find : List ℕ → ℕ → ℕ → Option Found
opt_find msg base cmd = opt_find_from 309 msg base cmd 0

-- The functions that write an option at position `o` and move it on.
unfoldable pub opt_write_n : List ℕ → ℕ → ℕ → ℕ → List ℕ → Option (List ℕ × ℕ)
opt_write_n msg o cmd n bytes =
    store_bytes msg o (cmd ∷ n % 256 ∷ take n bytes) >>= λ m. some (m, o + (2 + n))

unfoldable pub opt_write_u8 : List ℕ → ℕ → ℕ → ℕ → Option (List ℕ × ℕ)
opt_write_u8 msg o cmd val = store_bytes msg o (cmd ∷ 1 ∷ val ∷ []) >>= λ m. some (m, o + 3)

unfoldable pub opt_write_u32 : List ℕ → ℕ → ℕ → ℕ → Option (List ℕ × ℕ)
opt_write_u32 msg o cmd val =
    store_bytes msg o
      (cmd ∷ 4 ∷ val / 2 ^ 24 % 256 ∷ val / 2 ^ 16 % 256 ∷ val / 2 ^ 8 % 256 ∷ val % 256 ∷ [])
    >>= λ m. some (m, o + 6)
