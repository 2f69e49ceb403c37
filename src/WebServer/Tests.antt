-- ===== src/WebServer/Tests.antt =====
-- Requests to the web interface.
use pico_modbus_meter.Base.{
  ◌≡◌, refl, inr, Option, none, some, List, [], ◌∷◌, arith, bytes_eq, length, codes,
}
use pico_modbus_meter.CryptoStorage.{CryptoStorage, header_fields}
use pico_modbus_meter.HttpServer.{get_header, Header, MessageBuffer, Net}
use pico_modbus_meter.HttpServer.Serve.{select}
use pico_modbus_meter.Base.CString.{c_string}
use pico_modbus_meter.StaticString.{StaticString, sv}
use pico_modbus_meter.StaticString.Bounds.{text}
use pico_modbus_meter.StaticVector.{StaticVector}
use pico_modbus_meter.StringUtil.{extract_word}
use pico_modbus_meter.WebServer.{App, empty_reply, status_ok}
use pico_modbus_meter.WebServer.Authorized.{
  user_of_request, set_password-stores, webserver-keeps_password,
}
use pico_modbus_meter.WebServer.Settings.{set_password, connect_to_wifi}
use pico_modbus_meter.WebServer.Connecting.{connect_to_wifi-c_string}
use pico_modbus_meter.WebServer.Table.{webserver}
use pico_modbus_meter.WebServer.Samples.{
  texts, zeros-IsValid, device, weak_hash-size, platform, platform-room, blank, idle,
}

-- the request to change the password to `secret`, with these headers
abbrev put_password : List Header → MessageBuffer
put_password headers = record blank {
  buffer = record { storage = codes "secret"; cur_size = 6 };
  method = codes "PUT";
  path = codes "/set_password";
  headers = record { storage = headers; cur_size = length headers };
  body = record { start = 0; size = 6 };
}

abbrev or_blank : Option (MessageBuffer × App × Net) → MessageBuffer × App × Net
or_blank none = (blank, device, idle)
or_blank (some r) = r

abbrev refused : MessageBuffer × App × Net
refused = or_blank (
    select (webserver platform texts [] [] idle device) (put_password []) (put_password []) blank
      device idle)

is_refused :
    select
      (webserver platform texts [] [] idle device)
      (put_password [])
      (put_password [])
      blank
      device
      idle
    ≡ some refused
unfolding select bytes_eq webserver set_password pico_modbus_meter.Base.Memory.store_bytes
    pico_modbus_meter.StaticString.empty sv pico_modbus_meter.Base.Memory.overwrite
    pico_modbus_meter.StaticVector.empty
is_refused = refl

nobody : user_of_request platform (put_password []) device ≡ []
unfolding get_header header_fields extract_word bytes_eq
nobody = refl

webserver-keeps_password_example : refused.1.crypto ≡ device.crypto
webserver-keeps_password_example =
    webserver-keeps_password platform texts [] [] idle device (put_password []) blank device idle
      refused.0 refused.1 refused.2 weak_hash-size platform-room zeros-IsValid (inr (inr nobody))
      is_refused

-- the header of a user who knows the password
abbrev authorization : Header
authorization = record {
  key = codes "Authorization";
  value =
      codes
        "Digest username=\"joe\", nonce=\"n\", nc=00000001, cnonce=\"c\", response=\"9393939393939393939393939393939393939393939393939393939393939393\"";
}

abbrev accepted : MessageBuffer × App × Net
accepted = or_blank (set_password platform (put_password (authorization ∷ [])) blank device idle)

is_accepted :
    set_password platform (put_password (authorization ∷ [])) blank device idle ≡ some accepted
unfolding set_password bytes_eq header_fields sv pico_modbus_meter.CryptoStorage.final_digest
    pico_modbus_meter.Base.Memory.store_bytes pico_modbus_meter.Base.Memory.overwrite
    pico_modbus_meter.CryptoStorage.expand_hex pico_modbus_meter.CryptoStorage.compare_response
    pico_modbus_meter.StaticString.empty pico_modbus_meter.StaticVector.empty
is_accepted = refl

is_joe : length (user_of_request platform (put_password (authorization ∷ [])) device) ≡ 3
unfolding get_header header_fields extract_word bytes_eq
is_joe = refl

set_password-stores_example : text accepted.1.crypto.user_pwd ≡ codes "secret"
set_password-stores_example =
    set_password-stores platform (put_password (authorization ∷ [])) blank device idle accepted.0
      accepted.1 accepted.2 weak_hash-size platform-room zeros-IsValid
      (λ z. omega (arith, z, is_joe)) is_accepted

-- a request to join the network `home`
abbrev joining : MessageBuffer
joining = record blank {
  buffer = record { storage = codes "home 12345678"; cur_size = 13 };
  body = record { start = 0; size = 13 };
}

abbrev or_idle : Option (MessageBuffer × Net) → MessageBuffer × Net
or_idle none = (blank, idle)
or_idle (some r) = r

abbrev joined : MessageBuffer × Net
joined = or_idle (empty_reply platform status_ok blank idle)

is_joined : empty_reply platform status_ok blank idle ≡ some joined
unfolding empty_reply bytes_eq sv pico_modbus_meter.Base.Memory.store_bytes
    pico_modbus_meter.StaticString.empty pico_modbus_meter.Base.Memory.overwrite
    pico_modbus_meter.StaticVector.empty
is_joined = refl

connect_to_wifi-c_string_example :
    (app' : App) × (connect_to_wifi platform joining blank device idle
      ≡ some (joined.0, app', joined.1))
    × (c_string app'.wifi.ssid_wifi.storage ≡ some (codes "home"))
    × (c_string app'.wifi.pwd_wifi.storage ≡ some (codes "12345678"))
unfolding extract_word
connect_to_wifi-c_string_example =
    connect_to_wifi-c_string platform joining blank device idle zeros-IsValid zeros-IsValid
      (codes "home") (codes "12345678") (codes "12345678") [] refl refl (omega arith) (omega arith)
      refl (omega arith) (omega arith) refl is_joined
