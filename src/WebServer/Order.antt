-- ===== src/WebServer/Order.antt =====
-- The web interface keeps the objects of the program in order.
pub mod Requests
use pico_modbus_meter.Base.{
  ℕ, ◌≤◌, ◌<◌, ◌≡◌, refl, Bool, true, false, ◌||◌, Option, none, some, List, arith, ltb, ◌==◌,
  if◌then◌else◌, length, codes, ◌++◌,
}
use pico_modbus_meter.Base.Yields.{Yields, result, Yields-bind, >>=-Yields, if_Yields, Yields-if}
use pico_modbus_meter.StaticString.{StaticString}
use pico_modbus_meter.StaticString.Bounds.{fill_lem, make_c_str_safe_lem}
use pico_modbus_meter.StaticString.Bounds
use pico_modbus_meter.CryptoStorage.{pwd_size}
use pico_modbus_meter.WebServer.Settings.{
  log_text, fill_safe, set_time, set_modbus_id, set_invert_watts, set_log_level, set_hostname,
  set_ap_active, connect_to_wifi, set_password, bool_of, severity_of, with_inverted, with_severity,
  store, with_addr, level_reply, credentials,
}
use pico_modbus_meter.LogStorage.{log_formatted, info, error, LogStorage, LogSeverity}
use pico_modbus_meter.NtpClient.{set_time_since_epoch}
use pico_modbus_meter.StringUtil.{extract_word}
use pico_modbus_meter.WifiStorage.{text_size}
use pico_modbus_meter.WifiStorage.Upkeep.{IsInOrder}
use pico_modbus_meter.HttpServer.Serve.{Callback}
use pico_modbus_meter.WebServer.{
  user_pwd, App, Platform, body_text, empty_reply, status_ok, modbus_id,
}
use pico_modbus_meter.WebServer.Pages.{
  get_modbus_id, get_invert_watts, request_user, fill_unauthorized,
}
use pico_modbus_meter.WebServer.Related
use pico_modbus_meter.WebServer.Related.{only_reply-Keeps}

-- The networks, the texts and the password are valid, and the Modbus address is one of 1 to 255.
pub record IsOrdered (app : App) : Type 0 where
  pub wifi : IsInOrder app.wifi
  pub positive : 0 < app.addr
  pub small : app.addr ≤ 255
  pub password : Bounds.IsValid pwd_size app.crypto.user_pwd

abbrev pub StaysOrdered : App → App → Type 0
StaysOrdered app app' = IsOrdered app → IsOrdered app'

abbrev IsKeeper : Callback App → Type 0
IsKeeper c = Related.IsKeeper StaysOrdered c

pub fill_safe-IsValid :
    (s : StaticString) (x : List ℕ)
    → Bounds.IsValid text_size s
    → Yields (Bounds.IsValid text_size) (fill_safe s x)
fill_safe-IsValid s x v =
    let (f, filled, valid, _) = fill_lem text_size s x v in
    let (t, ended, valid', _, _) = make_c_str_safe_lem text_size f valid in
    rw (filled, ended) (result valid')

pub with_severity-IsOrdered :
    (app : App) (o : Option LogSeverity) → IsOrdered app → IsOrdered (with_severity app o)
with_severity-IsOrdered app none v = v
with_severity-IsOrdered app (some s) v = record {
  wifi = v.wifi;
  positive = v.positive;
  small = v.small;
  password = v.password;
}

-- another log
pub relogged-IsOrdered :
    (app : App) (log : LogStorage) → IsOrdered app → IsOrdered (record app { log = log })
relogged-IsOrdered app log v = record {
  wifi = v.wifi;
  positive = v.positive;
  small = v.small;
  password = v.password;
}

log_text-IsOrdered :
    (severity : LogSeverity) (message : List ℕ) (app : App)
    → IsOrdered app
    → Yields IsOrdered (log_text severity message app)
log_text-IsOrdered severity message app v =
    Yields-bind (log_formatted app.log severity message) _
      (λ r. result (relogged-IsOrdered app r.0 v))

with_inverted-IsOrdered :
    (app : App) (body : List ℕ) (o : Option Bool)
    → IsOrdered app
    → Yields IsOrdered (with_inverted app body o)
with_inverted-IsOrdered app body none v =
    log_text-IsOrdered error (codes "Bad value to set: " ++ body) app v
with_inverted-IsOrdered app body (some i) v =
    result (record { wifi = v.wifi; positive = v.positive; small = v.small; password = v.password })

with_addr-IsOrdered :
    (app : App) (id : ℕ) (body : List ℕ) → IsOrdered app → Yields IsOrdered (with_addr app id body)
with_addr-IsOrdered app id body v = by_test (id == 0 || ltb 255 id) refl
  where
    by_test :
        (b : Bool)
        → (id == 0 || ltb 255 id) ≡ b
        → Yields IsOrdered (
            if b
            then log_text error (codes "Modbus id out of range 1-255: " ++ body) app
            else some (store (modbus_id id) (record app { addr = id })))
    by_test true e = log_text-IsOrdered error (codes "Modbus id out of range 1-255: " ++ body) app v
    by_test false e = result (record {
      wifi = v.wifi;
      positive = ground (arith, e);
      small = ground (arith, e);
      password = v.password;
    })

pub credentials-IsOrdered :
    (app : App) (s w : StaticString)
    → Bounds.IsValid text_size s
    → Bounds.IsValid text_size w
    → IsOrdered app
    → IsOrdered (credentials app s w)
credentials-IsOrdered app s w valid_s valid_w v = record {
  wifi = record {
    sound = record {
      slots = v.wifi.sound.slots;
      within = v.wifi.sound.within;
      names = v.wifi.sound.names;
    };
    ssid = valid_s;
    pwd = valid_w;
    name = v.wifi.name;
  };
  positive = v.positive;
  small = v.small;
  password = v.password;
}

module _ (p : Platform) where
  pub set_time-IsKeeper : IsKeeper (set_time p)
  unfolding set_time
  set_time-IsKeeper req res app net =
      only_reply-Keeps StaysOrdered (empty_reply p status_ok) req res app
        (record app { ntp = set_time_since_epoch p.now app.ntp (p.strtoul (body_text req)) }) net
        (λ v. record {
          wifi = v.wifi;
          positive = v.positive;
          small = v.small;
          password = v.password;
        })

  pub set_modbus_id-IsKeeper : IsKeeper (set_modbus_id p)
  unfolding set_modbus_id
  set_modbus_id-IsKeeper req res app net = Yields-if _ (λ v.
      >>=-Yields (with_addr app (p.strtol (body_text req)) (body_text req)) _
        (with_addr-IsOrdered app (p.strtol (body_text req)) (body_text req) v)
        (λ changed h.
          only_reply-Keeps (λ a b. IsOrdered b) (get_modbus_id p req changed) req res app changed
            net h))

  pub set_invert_watts-IsKeeper : IsKeeper (set_invert_watts p)
  unfolding set_invert_watts
  set_invert_watts-IsKeeper req res app net = Yields-if _ (λ v.
      >>=-Yields (with_inverted app (body_text req) (bool_of (body_text req))) _
        (with_inverted-IsOrdered app (body_text req) (bool_of (body_text req)) v)
        (λ changed h.
          only_reply-Keeps (λ a b. IsOrdered b) (get_invert_watts p req changed) req res app changed
            net h))

  pub set_log_level-IsKeeper : IsKeeper (set_log_level p)
  unfolding set_log_level
  set_log_level-IsKeeper req res app net = Yields-if _ (λ v.
      >>=-Yields (log_text info (codes "Change log level to " ++ body_text req) app) _
        (log_text-IsOrdered info (codes "Change log level to " ++ body_text req) app v)
        (λ logged h.
          only_reply-Keeps (λ a b. IsOrdered b) (level_reply p (severity_of (body_text req))) req
            res app (with_severity logged (severity_of (body_text req))) net
            (with_severity-IsOrdered logged (severity_of (body_text req)) h)))

  pub set_hostname-IsKeeper : IsKeeper (set_hostname p)
  unfolding set_hostname
  set_hostname-IsKeeper req res app net = Yields-if _ (λ v.
      Yields-bind (empty_reply p status_ok res net) _ (λ a.
        >>=-Yields (fill_safe app.wifi.hostname (body_text req)) _
          (fill_safe-IsValid app.wifi.hostname (body_text req) v.wifi.name)
          (λ name valid. result (record {
            wifi = record {
              sound = record {
                slots = v.wifi.sound.slots;
                within = v.wifi.sound.within;
                names = v.wifi.sound.names;
              };
              ssid = v.wifi.ssid;
              pwd = v.wifi.pwd;
              name = valid;
            };
            positive = v.positive;
            small = v.small;
            password = v.password;
          }))))

  pub set_ap_active-IsKeeper : IsKeeper (set_ap_active p)
  unfolding set_ap_active
  set_ap_active-IsKeeper req res app net = Yields-bind (empty_reply p status_ok res net) _ (λ a.
      result (λ v. record {
        wifi = v.wifi;
        positive = v.positive;
        small = v.small;
        password = v.password;
      }))

  pub connect_to_wifi-IsKeeper : IsKeeper (connect_to_wifi p)
  unfolding connect_to_wifi
  connect_to_wifi-IsKeeper req res app net =
      let ssid : List ℕ = (extract_word (body_text req) 32).0 in
      let password : List ℕ = (extract_word (extract_word (body_text req) 32).1 32).0 in
      Yields-if _ (λ v. Yields-bind (empty_reply p status_ok res net) _ (λ a.
        if_Yields (length ssid == 0 || length password == 0) (result v) (
          >>=-Yields (fill_safe app.wifi.ssid_wifi ssid) _
            (fill_safe-IsValid app.wifi.ssid_wifi ssid v.wifi.ssid)
            (λ s valid_s.
              >>=-Yields (fill_safe app.wifi.pwd_wifi password) _
                (fill_safe-IsValid app.wifi.pwd_wifi password v.wifi.pwd)
                (λ w valid_w. result (credentials-IsOrdered app s w valid_s valid_w v))))))

  pub set_password-IsKeeper : IsKeeper (set_password p)
  unfolding set_password
  set_password-IsKeeper req res app net = Yields-if _ (λ v.
      Yields-bind (request_user p req app) _ (λ user.
        if_Yields (length user == 0)
          (only_reply-Keeps (λ a b. IsOrdered b) (fill_unauthorized p) req res app app net v)
          (let (pwd, filled, valid, _) =
              fill_lem pwd_size app.crypto.user_pwd (body_text req) v.password in
            rw filled (
              only_reply-Keeps (λ a b. IsOrdered b) (empty_reply p status_ok) req res app
                (store (user_pwd pwd) (record app { crypto = record { user_pwd = pwd } })) net
                (record {
                  wifi = v.wifi;
                  positive = v.positive;
                  small = v.small;
                  password = valid;
                })))))
