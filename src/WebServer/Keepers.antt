-- ===== src/WebServer/Keepers.antt =====
-- Which endpoints of the web interface keep the password.
use pico_modbus_meter.Base.{
  ℕ, ◌≡◌, refl, Bool, ◌||◌, Option, none, some, List, [], ltb, ◌==◌, length, codes, ◌++◌, ◌∙◌,
}
use pico_modbus_meter.Base.Yields.{result, Yields-bind, if_Yields, >>=-Yields, Yields}
use pico_modbus_meter.HttpServer.{MessageBuffer, Net}
use pico_modbus_meter.HttpServer.Serve.{Callback}
use pico_modbus_meter.LogStorage.{LogSeverity, info, error, log_formatted}
use pico_modbus_meter.WebServer.Settings.{
  log_text, fill_safe, set_time, set_modbus_id, set_invert_watts, set_log_level, set_hostname,
  set_ap_active, connect_to_wifi, set_password, bool_of, severity_of, with_inverted, with_severity,
  with_addr, level_reply,
}
use pico_modbus_meter.NtpClient.{set_time_since_epoch}
use pico_modbus_meter.StringUtil.{extract_word}
use pico_modbus_meter.WebServer.{App, Platform, body_text, empty_reply, status_ok}
use pico_modbus_meter.WebServer.Pages.{
  get_modbus_id, get_invert_watts, request_user, fill_unauthorized,
}
use pico_modbus_meter.WebServer.Related
use pico_modbus_meter.WebServer.Related.{only_reply-Keeps}

-- The password stays.
abbrev pub SamePassword : App → App → Type 0
SamePassword app app' = app'.crypto ≡ app.crypto

abbrev Keeps : App → Option (MessageBuffer × App × Net) → Type 0
Keeps app r = Related.Keeps SamePassword app r

abbrev IsKeeper : Callback App → Type 0
IsKeeper c = Related.IsKeeper SamePassword c

log_text-SamePassword :
    (severity : LogSeverity) (message : List ℕ) (app : App)
    → Yields (SamePassword app) (log_text severity message app)
log_text-SamePassword severity message app =
    Yields-bind (log_formatted app.log severity message) _ (λ r. result refl)

with_addr-SamePassword :
    (app : App) (id : ℕ) (body : List ℕ) → Yields (SamePassword app) (with_addr app id body)
with_addr-SamePassword app id body =
    if_Yields (id == 0 || ltb 255 id)
      (log_text-SamePassword error (codes "Modbus id out of range 1-255: " ++ body) app)
      (result refl)

with_inverted-SamePassword :
    (app : App) (body : List ℕ) (o : Option Bool)
    → Yields (SamePassword app) (with_inverted app body o)
with_inverted-SamePassword app body none =
    log_text-SamePassword error (codes "Bad value to set: " ++ body) app
with_inverted-SamePassword app body (some i) = result refl

with_severity-SamePassword :
    (app : App) (o : Option LogSeverity) → SamePassword app (with_severity app o)
with_severity-SamePassword app none = refl
with_severity-SamePassword app (some s) = refl

module _ (p : Platform) where
  pub set_time-IsKeeper : IsKeeper (set_time p)
  unfolding set_time
  set_time-IsKeeper req res app net =
      only_reply-Keeps SamePassword (empty_reply p status_ok) req res app
        (record app { ntp = set_time_since_epoch p.now app.ntp (p.strtoul (body_text req)) }) net
        refl

  pub set_modbus_id-IsKeeper : IsKeeper (set_modbus_id p)
  unfolding set_modbus_id
  set_modbus_id-IsKeeper req res app net =
      >>=-Yields (with_addr app (p.strtol (body_text req)) (body_text req)) _
        (with_addr-SamePassword app (p.strtol (body_text req)) (body_text req))
        (λ changed h.
          only_reply-Keeps SamePassword (get_modbus_id p req changed) req res app changed net h)

  pub set_invert_watts-IsKeeper : IsKeeper (set_invert_watts p)
  unfolding set_invert_watts
  set_invert_watts-IsKeeper req res app net =
      >>=-Yields (with_inverted app (body_text req) (bool_of (body_text req))) _
        (with_inverted-SamePassword app (body_text req) (bool_of (body_text req)))
        (λ changed h.
          only_reply-Keeps SamePassword (get_invert_watts p req changed) req res app changed net h)

  pub set_log_level-IsKeeper : IsKeeper (set_log_level p)
  unfolding set_log_level
  set_log_level-IsKeeper req res app net =
      >>=-Yields (log_text info (codes "Change log level to " ++ body_text req) app) _
        (log_text-SamePassword info (codes "Change log level to " ++ body_text req) app)
        (λ logged h.
          only_reply-Keeps SamePassword (level_reply p (severity_of (body_text req))) req res app
            (with_severity logged (severity_of (body_text req))) net
            (with_severity-SamePassword logged (severity_of (body_text req)) ∙ h))

  pub set_hostname-IsKeeper : IsKeeper (set_hostname p)
  unfolding set_hostname
  set_hostname-IsKeeper req res app net =
      Yields-bind (empty_reply p status_ok res net) _
        (λ a. Yields-bind (fill_safe app.wifi.hostname (body_text req)) _ (λ name. result refl))

  pub set_ap_active-IsKeeper : IsKeeper (set_ap_active p)
  unfolding set_ap_active
  set_ap_active-IsKeeper req res app net =
      Yields-bind (empty_reply p status_ok res net) _ (λ a. result refl)

  pub connect_to_wifi-IsKeeper : IsKeeper (connect_to_wifi p)
  unfolding connect_to_wifi
  connect_to_wifi-IsKeeper req res app net =
      let ssid : List ℕ = (extract_word (body_text req) 32).0 in
      let password : List ℕ = (extract_word (extract_word (body_text req) 32).1 32).0 in
      Yields-bind (empty_reply p status_ok res net) _ (λ a.
        if_Yields (length ssid == 0 || length password == 0) (result refl) (
          Yields-bind (fill_safe app.wifi.ssid_wifi ssid) _
            (λ s. Yields-bind (fill_safe app.wifi.pwd_wifi password) _ (λ w. result refl))))

  pub set_password-Keeps :
      (req res : MessageBuffer) (app : App) (net : Net)
      → request_user p req app ≡ some []
      → Keeps app (set_password p req res app net)
  unfolding set_password
  set_password-Keeps req res app net h =
      rw h (only_reply-Keeps SamePassword (fill_unauthorized p) req res app app net refl)
