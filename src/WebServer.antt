-- ===== src/WebServer.antt =====
-- include/webserver.h: the endpoints of the web interface, as callbacks of HttpServer on the objects of the program
-- that they change. What the platform gives is a parameter: the texts of numbers, the parsers of the C
-- library, SHA-256, the time, and the answers of lwIP.
pub mod Pages
pub mod Settings
pub mod Table
pub mod Related
pub mod Keepers
pub mod Authorized
pub mod Connecting
pub mod Order
pub mod Samples
mod Tests
use pico_modbus_meter.Base.{
  ℕ, ◌+◌, ◌-◌, ap, Bool, Option, some, List, [], length, take, drop, codes,
}
use pico_modbus_meter.Base.Memory.{◌>>=◌, store_bytes}
use pico_modbus_meter.StaticString.{StaticString}
use pico_modbus_meter.HttpServer.{MessageBuffer, View, Net, Event, Err}
use pico_modbus_meter.HttpServer.Response.{res_set_status_line, res_add_header, res_write_body}
use pico_modbus_meter.HttpServer.Serve.{Callback}
use pico_modbus_meter.CryptoStorage.{CryptoStorage}
use pico_modbus_meter.WifiStorage.{WifiStorage}
use pico_modbus_meter.AccessPoint.{AccessPoint, Setup, ApCall}
use pico_modbus_meter.NtpClient.{NtpClient}
use pico_modbus_meter.LogStorage.{LogStorage}

-- a write of the persistent storage, with the value
pub data Stored : Type 0 where
  modbus_id : ℕ → Stored
  invert_watts : Bool → Stored
  hostname : StaticString → Stored
  ssid_wifi : StaticString → Stored
  pwd_wifi : StaticString → Stored
  user_pwd : StaticString → Stored

-- the objects that the endpoints read and change, and what they did outside of them
pub record App : Type 0 where
  pub crypto : CryptoStorage
  pub wifi : WifiStorage
  pub ap : AccessPoint
  pub ntp : NtpClient
  pub log : LogStorage
  pub addr : ℕ
  pub inverted : Bool
  pub stored : List Stored
  pub ap_calls : List ApCall

-- `decimal` is the text of a number, `strtol` and `strtoul` read one from the front of a text (a negative
-- number of `strtol` is its 32-bit pattern), `challenge` is the text of the `WWW-Authenticate` header.
pub record Platform : Type 0 where
  pub decimal : ℕ → List ℕ
  pub strtol : List ℕ → ℕ
  pub strtoul : List ℕ → ℕ
  pub sha256 : List ℕ → List ℕ
  pub sha_storage : List ℕ
  pub challenge : List ℕ
  pub now : ℕ
  pub setup : Setup
  pub close_err : List Event → ℕ → Err

abbrev pub http_version : List ℕ
http_version = codes "HTTP/1.1"

abbrev pub status_ok : List ℕ
status_ok = codes "200 OK"

abbrev pub status_bad_request : List ℕ
status_bad_request = codes "400 Bad Request"

abbrev pub status_unauthorized : List ℕ
status_unauthorized = codes "401 Unauthorized"

abbrev pub status_not_found : List ℕ
status_not_found = codes "404 Not Found"

abbrev pub status_internal_server_error : List ℕ
status_internal_server_error = codes "500 Internal Server Error"

-- what a view into the own buffer of a request shows
abbrev pub body_text : MessageBuffer → List ℕ
body_text req = take req.body.size (drop req.body.start req.buffer.storage)

-- `res_add_header`, without its result
abbrev pub add_header : List ℕ → List ℕ → MessageBuffer → Option MessageBuffer
add_header key value res = res_add_header key value res >>= λ (header, res'). some res'

-- the first two lines of each endpoint
unfoldable pub start_response : List ℕ → MessageBuffer → Option MessageBuffer
unfolding res_set_status_line res_add_header
start_response status res = res_set_status_line http_version status res >>= λ res'.
    add_header (codes "Server") (codes "LacheiEmbed(josefstumpfegger@outlook.de)") res'

-- what an endpoint does to the response
abbrev pub Reply : Type 0
Reply = MessageBuffer → Net → Option (MessageBuffer × Net)

-- a reply that leaves the objects of the program
abbrev pub only_reply : Reply → Callback App
only_reply reply req res app net = reply res net >>= λ (res', net'). some (res', app, net')

module _ (p : Platform) where
  unfoldable pub empty_reply : List ℕ → Reply
  unfolding start_response res_write_body
  empty_reply status res net = start_response status res >>= λ res1.
      add_header (codes "Content-Length") (codes "0") res1 >>= λ res2.
      res_write_body p.close_err [] res2 net

  unfoldable pub text_reply : List ℕ → List ℕ → List ℕ → Reply
  unfolding start_response res_write_body
  text_reply status type body res net = start_response status res >>= λ res1.
      add_header (codes "Content-Type") type res1 >>= λ res2.
      add_header (codes "Content-Length") (p.decimal (length body)) res2 >>= λ res3.
      res_write_body p.close_err body res3 net

-- The header with the length that is known only later: the place of its value in the buffer.
unfoldable pub length_header : List ℕ → MessageBuffer → Option (View × MessageBuffer)
unfolding res_add_header
length_header blank res = add_header (codes "Content-Length") blank res >>= λ res'.
    let place = res.buffer.cur_size + 16 in
    some (record { start = place; size = res'.buffer.cur_size - place }, res')

-- `format_to_sv`: the text over the value of the header, cut to its size
unfoldable pub write_length : View → List ℕ → MessageBuffer → Option MessageBuffer
write_length v digits res =
    store_bytes res.buffer.storage v.start (take v.size digits) >>= λ storage.
    some (record res { buffer = record res.buffer { storage = storage } })
