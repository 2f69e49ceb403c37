-- ===== src/Restart.antt =====
-- include/persistent_storage.h, `persistent_storage_layout`, and src/main.cpp, `startup_task`: what the program keeps over a restart. The objects
-- are stored as their bytes, in the layout of the 32-bit ARM build.
pub mod Members
pub mod Saving
pub mod Saved
mod Tests
use pico_modbus_meter.Base.{
  ℕ, ◌/◌, ◌%◌, ◌^◌, not, Option, some, List, [], ◌∷◌, ◌++◌, ◌==◌, get_or, if◌then◌else◌,
}
use pico_modbus_meter.Base.Memory.{◌>>=◌}
use pico_modbus_meter.StaticString.{StaticString}
use pico_modbus_meter.PersistentStorage
use pico_modbus_meter.PersistentStorage.{PersistentStorage, Result, Runs}
use pico_modbus_meter.PersistentStorage.Flash.{FlashOps}
use pico_modbus_meter.WebServer.{
  App, Stored, modbus_id, invert_watts, hostname, ssid_wifi, pwd_wifi, user_pwd,
}

-- the members of `persistent_storage_layout`
pub data Member : Type 0 where
  inverted : Member
  address : Member
  user_password : Member
  host : Member
  wifi_ssid : Member
  wifi_password : Member

abbrev pub offset : Member → ℕ
offset inverted = 0
offset address = 1
offset user_password = 4
offset host = 72
offset wifi_ssid = 140
offset wifi_password = 208

abbrev pub size : Member → ℕ
size inverted = 1
size address = 1
size _ = 68

abbrev pub layout_size : ℕ
layout_size = 276

abbrev pub member_of : Stored → Member
member_of (modbus_id id) = address
member_of (invert_watts i) = inverted
member_of (hostname s) = host
member_of (ssid_wifi s) = wifi_ssid
member_of (pwd_wifi s) = wifi_password
member_of (user_pwd s) = user_password

-- a 32-bit number, the lowest byte first, and a `static_string<64>`
abbrev pub le32 : ℕ → List ℕ
le32 n = n % 256 ∷ n / 256 % 256 ∷ n / 2 ^ 16 % 256 ∷ n / 2 ^ 24 % 256 ∷ []

abbrev pub string_bytes : StaticString → List ℕ
string_bytes s = le32 s.cur_size ++ s.storage

abbrev pub bytes_of : Stored → List ℕ
bytes_of (modbus_id id) = id % 256 ∷ []
bytes_of (invert_watts i) = (if i then 1 else 0) ∷ []
bytes_of (hostname s) = string_bytes s
bytes_of (ssid_wifi s) = string_bytes s
bytes_of (pwd_wifi s) = string_bytes s
bytes_of (user_pwd s) = string_bytes s

module _ (ops : FlashOps) (flash_size : ℕ) where
  -- The writes to the storage, one after the other, with their results: the callers only log one that is not `PICO_OK`.
  unfoldable pub write_stored :
      Runs → List Stored → PersistentStorage → Option (List Result × PersistentStorage)
  unfolding pico_modbus_meter.PersistentStorage.write
  write_stored runs [] s = some ([], s)
  write_stored runs (x ∷ xs) s =
      pico_modbus_meter.PersistentStorage.write ops flash_size layout_size runs s (bytes_of x)
        (offset (member_of x))
      >>= λ (r, s'). write_stored runs xs s' >>= λ (rs, s''). some (r ∷ rs, s'')

  unfoldable pub read_member : PersistentStorage → Member → Option (List ℕ)
  unfolding pico_modbus_meter.PersistentStorage.read
  read_member s m =
      pico_modbus_meter.PersistentStorage.read ops flash_size layout_size s (offset m) (size m)

  -- the two reads of `startup_task`
  unfoldable pub startup : PersistentStorage → App → Option App
  unfolding read_member
  startup s app = read_member s address >>= λ id. read_member s inverted >>= λ i.
      some (record app { addr = get_or id 0 0; inverted = not (get_or i 0 0 == 0) })
