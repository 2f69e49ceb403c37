-- ===== src/WebServer/Pages.antt =====
-- include/webserver.h: the endpoints that only read: from the request and the objects of the program to
-- what happens to the response.
use pico_modbus_meter.Base.{
  ℕ, Bool, true, false, ◌&&◌, Option, some, List, [], ◌∷◌, bytes_eq, ◌==◌, if◌then◌else◌, length,
  codes,
}
use pico_modbus_meter.Base.Memory.{◌>>=◌}
use pico_modbus_meter.StaticString.{StaticString, sv, append_formatted}
use pico_modbus_meter.StaticVector.{contents}
use pico_modbus_meter.HttpServer.{MessageBuffer, buf_size, get_header}
use pico_modbus_meter.HttpServer.Response.{res_write_body}
use pico_modbus_meter.CryptoStorage.{check_authorization}
use pico_modbus_meter.WifiStorage.{WifiInfo}
use pico_modbus_meter.NtpClient.{get_time_since_epoch}
use pico_modbus_meter.LogStorage.{print_errors}
use pico_modbus_meter.WebServer.{
  App, Platform, Reply, add_header, start_response, empty_reply, text_reply, length_header,
  write_length, status_ok, status_unauthorized, status_internal_server_error,
}

abbrev pub bool_text : Bool → List ℕ
bool_text b = if b then codes "true" else codes "false"

-- an endpoint that only reads
abbrev pub Page : Type 0
Page = MessageBuffer → App → Reply

module _ (p : Platform) where
  unfoldable pub static_page_callback : List ℕ → List ℕ → List ℕ → Page
  unfolding text_reply
  static_page_callback page status type req app = text_reply p status type page

  unfoldable pub fill_unauthorized : Reply
  unfolding start_response res_write_body
  fill_unauthorized res net = start_response status_unauthorized res >>= λ res1.
      add_header (codes "WWW-Authenticate") p.challenge res1 >>= λ res2.
      add_header (codes "Content-Length") (codes "0") res2 >>= λ res3.
      res_write_body p.close_err [] res3 net

  -- who sends the request; empty without the header, and if the check fails
  unfoldable pub request_user : MessageBuffer → App → Option (List ℕ)
  unfolding get_header check_authorization
  request_user req app =
      let auth_header = get_header (contents req.headers) (codes "Authorization") in
      if length auth_header == 0
      then some []
      else check_authorization p.sha256 p.sha_storage app.crypto req.method auth_header

  unfoldable pub post_login : Page
  unfolding request_user fill_unauthorized empty_reply
  post_login req app res net = request_user req app >>= λ user.
      if length user == 0 then fill_unauthorized res net else empty_reply p status_ok res net

  unfoldable pub get_user : Page
  unfolding request_user start_response res_write_body
  get_user req app res net = request_user req app >>= λ user.
      start_response status_ok res >>= λ res1.
      add_header (codes "Content-Length") (p.decimal (length user)) res1 >>= λ res2.
      res_write_body p.close_err user res2 net

  unfoldable pub get_time : Page
  unfolding empty_reply start_response length_header res_write_body append_formatted write_length
  get_time req app res net =
      if app.ntp.ntp_time == 0
      then empty_reply p status_internal_server_error res net
      else (start_response status_ok res >>= λ res1.
          length_header (codes "    ") res1 >>= λ (place, res2).
          res_write_body p.close_err [] res2 net >>= λ (res3, net').
          append_formatted buf_size res3.buffer (p.decimal (get_time_since_epoch p.now app.ntp))
          >>= λ (buffer, size).
              write_length place (p.decimal size) (record res3 { buffer = buffer }) >>= λ res4.
              some (res4, net'))

  -- the start of a JSON answer whose length is not known yet
  abbrev pub start_json : MessageBuffer → Option MessageBuffer
  start_json res = start_response status_ok res >>= λ res1.
      add_header (codes "Content-Type") (codes "application/json") res1

  -- `text` is the formatted text of the measurements.
  unfoldable pub get_measurements : List ℕ → Page
  unfolding start_response length_header res_write_body append_formatted write_length
  get_measurements text req app res net = start_json res >>= λ res1.
      length_header (codes "        ") res1 >>= λ (place, res2).
      res_write_body p.close_err (codes "{") res2 net >>= λ (res3, net1).
      append_formatted buf_size res3.buffer text >>= λ (buffer, size).
      res_write_body p.close_err (codes "}") (record res3 { buffer = buffer }) net1
      >>= λ (res4, net2).
          write_length place (p.decimal res4.body.size) res4 >>= λ res5. some (res5, net2)

  unfoldable pub get_modbus_id : Page
  unfolding text_reply
  get_modbus_id req app res net =
      text_reply p status_ok (codes "text/plain") (p.decimal app.addr) res net

  unfoldable pub get_invert_watts : Page
  unfolding text_reply
  get_invert_watts req app res net =
      text_reply p status_ok (codes "text/plain") (bool_text app.inverted) res net

  unfoldable pub get_logs : Page
  unfolding start_response length_header res_write_body print_errors write_length
  get_logs req app res net = start_response status_ok res >>= λ res1.
      add_header (codes "Content-Type") (codes "text/plain") res1 >>= λ res2.
      length_header (codes "        ") res2 >>= λ (place, res3).
      res_write_body p.close_err [] res3 net >>= λ (res4, net').
      print_errors buf_size app.log res4.buffer >>= λ (buffer, size).
      write_length place (p.decimal size) (record res4 { buffer = buffer }) >>= λ res5.
      some (res5, net')

  -- One line for each network. `line` is the formatted text: whether it is the first, the network,
  -- its name, and whether it is the one that is connected.
  unfoldable pub print_wifis :
      (Bool → WifiInfo → List ℕ → Bool → List ℕ)
      → App
      → Bool
      → List WifiInfo
      → StaticString
      → Option StaticString
  unfolding sv append_formatted bytes_eq
  print_wifis line app first [] dst = some dst
  print_wifis line app first (w ∷ ws) dst = sv w.ssid >>= λ name. sv app.wifi.ssid_wifi >>= λ own.
      append_formatted buf_size dst
        (line first w name (app.wifi.wifi_connected && bytes_eq own name))
      >>= λ (dst', size). print_wifis line app false ws dst'

  unfoldable pub get_discovered_wifis : (Bool → WifiInfo → List ℕ → Bool → List ℕ) → Page
  unfolding start_response length_header res_write_body print_wifis write_length
  get_discovered_wifis line req app res net = start_json res >>= λ res1.
      length_header (codes "        ") res1 >>= λ (place, res2).
      res_write_body p.close_err (codes "[") res2 net >>= λ (res3, net1).
      print_wifis line app true (contents app.wifi.wifis) res3.buffer >>= λ buffer.
      res_write_body p.close_err (codes "]") (record res3 { buffer = buffer }) net1
      >>= λ (res4, net2).
          write_length place (p.decimal res4.body.size) res4 >>= λ res5. some (res5, net2)

  unfoldable pub get_hostname : Page
  unfolding sv text_reply
  get_hostname req app res net =
      sv app.wifi.hostname >>= λ name. text_reply p status_ok (codes "text/plain") name res net

  unfoldable pub get_ap_active : Page
  unfolding text_reply
  get_ap_active req app res net =
      text_reply p status_ok (codes "text/plain") (bool_text app.ap.active) res net
