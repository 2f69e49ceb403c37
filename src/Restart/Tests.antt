-- ===== src/Restart/Tests.antt =====
-- The address 7 is set, and found after a restart. The flash starts as zeros.
use pico_modbus_meter.Base.{
  ℕ, ◌≡◌, refl, false, Option, none, some, List, [], ◌∷◌, ◌++◌, arith, bytes_eq, replicate, codes,
  length-replicate,
}
use pico_modbus_meter.HttpServer.{MessageBuffer, Net}
use pico_modbus_meter.HttpServer.Serve.{select}
use pico_modbus_meter.PersistentStorage.{PersistentStorage}
use pico_modbus_meter.PersistentStorage.Flash.{simple_flash, simple_flash-Documented}
use pico_modbus_meter.PersistentStorage.Write.{both_run}
use pico_modbus_meter.PersistentStorage.ReadBack.{IsValid}
use pico_modbus_meter.WebServer.{App, Platform, Stored, modbus_id, invert_watts}
use pico_modbus_meter.WebServer.Samples.{platform, texts, blank, idle}
use pico_modbus_meter.WebServer.Settings.{set_modbus_id}
use pico_modbus_meter.WebServer.Pages.{get_modbus_id}
use pico_modbus_meter.WebServer.Table.{webserver}
use pico_modbus_meter.Device.Samples.{started, started-IsOrdered}
use pico_modbus_meter.Restart.{Member, inverted, address, write_stored, read_member, startup}
use pico_modbus_meter.Restart.Members.{
  AllSized, nil, cons, latest, all_ok, read_member-write_stored,
}
use pico_modbus_meter.Restart.Saved.{Agrees, startup-webserver}

abbrev zeroed : PersistentStorage
zeroed = record { flash = replicate 16384 0; write_buffer = replicate 8192 0 }

zeroed-IsValid : IsValid 16384 276 zeroed
zeroed-IsValid = record {
  whole = length-replicate {A = ℕ} 16384 0;
  sized = length-replicate {A = ℕ} 8192 0;
  sectors = refl;
  addressable = omega arith;
  has_layout = omega arith;
}

abbrev defaults : List Stored
defaults = invert_watts false ∷ modbus_id 1 ∷ []

defaults-AllSized : AllSized defaults
defaults-AllSized = cons tt (cons tt nil)

read_member-write_stored_example :
    (s' : PersistentStorage) × (write_stored simple_flash 16384 both_run defaults zeroed
      ≡ some (all_ok defaults, s'))
    × IsValid 16384 276 s'
    × ((m : Member)
        → read_member simple_flash 16384 s' m
          ≡ latest defaults (read_member simple_flash 16384 zeroed) m)
read_member-write_stored_example =
    read_member-write_stored simple_flash simple_flash-Documented 16384 defaults zeroed
      zeroed-IsValid defaults-AllSized

abbrev app : App
app = started.console.app

-- a flash that holds the address 1
prepared : (s : PersistentStorage) × Agrees simple_flash simple_flash-Documented 16384 s app
prepared =
    let (s, done, valid, shown) =
      read_member-write_stored simple_flash simple_flash-Documented 16384 defaults zeroed
        zeroed-IsValid defaults-AllSized in
    (s, record { valid = valid; addr = shown address; sign = shown inverted })

abbrev seven : Platform
seven = record platform { strtol = λ text. 7 }

abbrev request : MessageBuffer
request = record blank {
  buffer = record { storage = codes "7"; cur_size = 1 };
  method = codes "POST";
  path = codes "/modbus_id";
  body = record { start = 0; size = 1 };
}

abbrev or_blank : Option (MessageBuffer × App × Net) → MessageBuffer × App × Net
or_blank none = (blank, app, idle)
or_blank (some r) = r

abbrev answered : MessageBuffer × App × Net
answered = or_blank (select (webserver seven texts [] [] idle app) request request blank app idle)

is_answered :
    select (webserver seven texts [] [] idle app) request request blank app idle ≡ some answered
unfolding select bytes_eq webserver set_modbus_id get_modbus_id
    pico_modbus_meter.Base.Memory.store_bytes pico_modbus_meter.Base.Memory.overwrite
    pico_modbus_meter.StaticString.empty pico_modbus_meter.StaticString.sv
    pico_modbus_meter.StaticVector.empty
is_answered = refl

startup-webserver_example :
    (writes : List Stored) × (s' : PersistentStorage) × (answered.1.stored ≡ app.stored ++ writes)
    × (write_stored simple_flash 16384 both_run writes prepared.0 ≡ some (all_ok writes, s'))
    × ((m : Member)
        → read_member simple_flash 16384 s' m
          ≡ latest writes (read_member simple_flash 16384 prepared.0) m)
    × Agrees simple_flash simple_flash-Documented 16384 s' answered.1
    × (startup simple_flash 16384 s' app
        ≡ some (record app { addr = answered.1.addr; inverted = answered.1.inverted }))
startup-webserver_example =
    startup-webserver simple_flash simple_flash-Documented 16384 seven texts [] [] idle app request
      blank answered.0 app answered.1 app idle answered.2 prepared.0 started-IsOrdered prepared.1
      is_answered
