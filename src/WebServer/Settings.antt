-- ===== src/WebServer/Settings.antt =====
-- include/webserver.h: the endpoints that change something.
use pico_modbus_meter.Base.{
  ℕ, ap, Bool, true, false, ◌||◌, Option, none, some, List, [], ◌∷◌, ◌++◌, bytes_eq, ltb, ◌==◌,
  if◌then◌else◌, length, codes,
}
use pico_modbus_meter.Base.Memory.{◌>>=◌}
use pico_modbus_meter.StaticString.{StaticString, fill, make_c_str_safe}
use pico_modbus_meter.HttpServer.Serve.{Callback}
use pico_modbus_meter.CryptoStorage
use pico_modbus_meter.AccessPoint
use pico_modbus_meter.WifiStorage.{text_size}
use pico_modbus_meter.NtpClient.{set_time_since_epoch}
use pico_modbus_meter.LogStorage.{log_formatted, LogSeverity, info, warning, error, fatal}
use pico_modbus_meter.StringUtil.{extract_word}
use pico_modbus_meter.WebServer.{
  App, Platform, Reply, Stored, modbus_id, invert_watts, hostname, ssid_wifi, pwd_wifi, user_pwd,
  only_reply, empty_reply, text_reply, body_text, status_ok, status_bad_request,
}
use pico_modbus_meter.WebServer.Pages.{
  fill_unauthorized, request_user, get_modbus_id, get_invert_watts,
}

-- a write to the persistent storage
abbrev pub store : Stored → App → App
store s app = record app { stored = app.stored ++ (s ∷ []) }

-- `fill` and `make_c_str_safe`
abbrev pub fill_safe : StaticString → List ℕ → Option StaticString
fill_safe s text = fill text_size s text >>= λ t. make_c_str_safe text_size t

-- the switch of `set_log_level` on the body
unfoldable pub severity_of : List ℕ → Option LogSeverity
severity_of body =
    if bytes_eq body (codes "Info")
    then some info
    else if bytes_eq body (codes "Warning")
    then some warning
    else if bytes_eq body (codes "Error")
    then some error
    else if bytes_eq body (codes "Fatal")
    then some fatal
    else none

-- `true` and `false`
unfoldable pub bool_of : List ℕ → Option Bool
bool_of body =
    if bytes_eq body (codes "true")
    then some true
    else if bytes_eq body (codes "false")
    then some false
    else none

-- `LogInfo` or `LogError` with a formatted text: the log after it. What it prints is left out.
abbrev pub log_text : LogSeverity → List ℕ → App → Option App
log_text severity text app =
    log_formatted app.log severity text >>= λ (log, shown). some (record app { log = log })

-- `modbus_id < 1 || modbus_id > 255`, of the 32-bit pattern, and what follows; the text is the body
abbrev pub with_addr : App → ℕ → List ℕ → Option App
with_addr app id body =
    if id == 0 || ltb 255 id
    then log_text error (codes "Modbus id out of range 1-255: " ++ body) app
    else some (store (modbus_id id) (record app { addr = id }))

abbrev pub with_inverted : App → List ℕ → Option Bool → Option App
with_inverted app body none = log_text error (codes "Bad value to set: " ++ body) app
with_inverted app body (some i) = some (store (invert_watts i) (record app { inverted = i }))

-- the reply of `set_log_level`, and the log with the severity
abbrev pub with_severity : App → Option LogSeverity → App
with_severity app none = app
with_severity app (some severity) = record app { log = record app.log { cur_severity = severity } }

-- the credentials, stored as the next to connect with
abbrev pub credentials : App → StaticString → StaticString → App
credentials app ssid pwd = store (pwd_wifi pwd) (
    store (ssid_wifi ssid) (record app {
      wifi = record app.wifi {
        ssid_wifi = ssid;
        pwd_wifi = pwd;
        wifi_connected = false;
        wifi_changed = true;
      };
    }))

module _ (p : Platform) where
  abbrev pub level_reply : Option LogSeverity → Reply
  level_reply none =
      text_reply p status_bad_request (codes "application/json") (codes "{\"status\":\"error\"}")
  level_reply (some severity) =
      text_reply p status_ok (codes "application/json") (codes "{\"status\":\"success\"}")

  unfoldable pub set_time : Callback App
  unfolding set_time_since_epoch empty_reply
  set_time req res app net =
      only_reply (empty_reply p status_ok) req res
        (record app { ntp = set_time_since_epoch p.now app.ntp (p.strtoul (body_text req)) }) net

  unfoldable pub set_modbus_id : Callback App
  unfolding get_modbus_id log_formatted
  set_modbus_id req res app net =
      with_addr app (p.strtol (body_text req)) (body_text req) >>= λ changed.
      only_reply (get_modbus_id p req changed) req res changed net

  unfoldable pub set_invert_watts : Callback App
  unfolding bool_of get_invert_watts log_formatted
  set_invert_watts req res app net =
      with_inverted app (body_text req) (bool_of (body_text req)) >>= λ changed.
      only_reply (get_invert_watts p req changed) req res changed net

  unfoldable pub set_log_level : Callback App
  unfolding severity_of log_formatted
  set_log_level req res app net =
      log_text info (codes "Change log level to " ++ body_text req) app >>= λ logged.
      let level = severity_of (body_text req) in
      only_reply (level_reply level) req res (with_severity logged level) net

  unfoldable pub set_hostname : Callback App
  unfolding empty_reply fill make_c_str_safe
  set_hostname req res app net = empty_reply p status_ok res net >>= λ (res', net').
      fill_safe app.wifi.hostname (body_text req) >>= λ name. some (
        res',
        store (hostname name)
            (record app { wifi = record app.wifi { hostname = name; hostname_changed = true } }),
        net',
      )

  unfoldable pub set_ap_active : Callback App
  unfolding empty_reply pico_modbus_meter.AccessPoint.init pico_modbus_meter.AccessPoint.deinit
  set_ap_active req res app net = empty_reply p status_ok res net >>= λ (res', net').
      let (ap, calls) =
        (if bytes_eq (body_text req) (codes "true")
          then pico_modbus_meter.AccessPoint.init p.setup app.ap
          else pico_modbus_meter.AccessPoint.deinit app.ap) in
      some (res', record app { ap = ap; ap_calls = app.ap_calls ++ calls }, net')

  unfoldable pub connect_to_wifi : Callback App
  unfolding empty_reply extract_word fill make_c_str_safe
  connect_to_wifi req res app net = empty_reply p status_ok res net >>= λ (res', net').
      let (ssid, rest) = extract_word (body_text req) 32 in
      let (password, last) = extract_word rest 32 in
      if length ssid == 0 || length password == 0
      then some (res', app, net')
      else (fill_safe app.wifi.ssid_wifi ssid >>= λ ssid'.
          fill_safe app.wifi.pwd_wifi password >>= λ pwd'.
          some (res', credentials app ssid' pwd', net'))

  unfoldable pub set_password : Callback App
  unfolding request_user fill_unauthorized pico_modbus_meter.CryptoStorage.set_password empty_reply
  set_password req res app net = request_user p req app >>= λ user.
      if length user == 0
      then only_reply (fill_unauthorized p) req res app net
      else (pico_modbus_meter.CryptoStorage.set_password app.crypto (body_text req)
          >>= λ (done, crypto, pwd).
              only_reply (empty_reply p status_ok) req res
                (store (user_pwd pwd) (record app { crypto = crypto })) net)
