-- ===== src/UsbInterface/Tests.antt =====
-- Commands at the console of a device that knows a network.
use pico_modbus_meter.Base.{
  ℕ, ◌≡◌, refl, true, false, some, List, [], ◌++◌, arith, bytes_eq, drop, replicate, codes,
}
use pico_modbus_meter.Base.CString.{c_string}
use pico_modbus_meter.Base.Memory.{◌>>=◌}
use pico_modbus_meter.StaticString.{StaticString}
use pico_modbus_meter.StaticString.Bounds.{IsValid, text}
use pico_modbus_meter.Stream.{Stream, read_word}
use pico_modbus_meter.WebServer.Samples.{device, zeros-IsValid}
use pico_modbus_meter.UsbInterface.{Console, command_of, handle_usb_command}
use pico_modbus_meter.UsbInterface.Samples.{terminal}
use pico_modbus_meter.UsbInterface.Commands.{Keeps, handle_usb_command-Keeps}
use pico_modbus_meter.UsbInterface.Credentials.{handle_usb_command-stale}

-- the name of the last network, in the array of 64 bytes
abbrev last_name : StaticString
last_name = record { storage = codes "homenet" ++ replicate 57 0; cur_size = 7 }

last_name-IsValid : IsValid 64 last_name
last_name-IsValid = record { capacity = refl; small = omega arith; within = omega arith }

abbrev console : Console
console = record {
  app = record device { wifi = record device.wifi { ssid_wifi = last_name } };
  settings = record { k_s = 0x3f000000 };
  station_calls = [];
}

abbrev typed : List ℕ → Stream
typed chars = record { chars = chars; fail = false }

abbrev following : Console
following = record console {
  app = record console.app { log = record device.log { print_to_cout = true } };
}

is_following :
    handle_usb_command terminal (typed (codes "follow")) console ≡ some (typed [], following, [])
unfolding handle_usb_command bytes_eq
is_following = refl

handle_usb_command-Keeps_example :
    Keeps (command_of (read_word (typed (codes "follow"))).0) console following
handle_usb_command-Keeps_example =
    handle_usb_command-Keeps terminal (typed (codes "follow")) console is_following

-- The network `pub` is stored over `homenet`: the driver is to connect with `pubenet`.
handle_usb_command-stale_example :
    (c' : Console) × (handle_usb_command terminal (typed (codes "cw pub 12345678")) console
      ≡ some (typed [], c', []))
    × (text c'.app.wifi.ssid_wifi ≡ codes "pub")
    × (c_string c'.app.wifi.ssid_wifi.storage
        ≡ (c_string (drop 3 last_name.storage) >>= λ behind. some (codes "pub" ++ behind)))
unfolding handle_usb_command bytes_eq
handle_usb_command-stale_example =
    handle_usb_command-stale terminal (typed (codes "cw pub 12345678")) console last_name-IsValid
      zeros-IsValid refl (codes "pub") (codes "12345678") (typed (codes " 12345678")) (typed [])
      refl refl (omega arith) refl
