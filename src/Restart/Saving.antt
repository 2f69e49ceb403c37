-- ===== src/Restart/Saving.antt =====
-- What the endpoints of the web interface store of the changes that they make.
use pico_modbus_meter.Base.{
  ℕ, ◌%◌, ◌≡◌, refl, sym, Bool, true, false, ◌||◌, Option, none, some, List, [], ◌∷◌, ◌++◌,
  append-nil, append_assoc, arith, ltb, ◌==◌, if◌then◌else◌, length, codes,
}
use pico_modbus_meter.Base.Yields.{result, Yields-bind, >>=-Yields, if_Yields, Yields-if, Yields}
use pico_modbus_meter.StaticString.Bounds.{fill_lem}
use pico_modbus_meter.CryptoStorage.{pwd_size}
use pico_modbus_meter.WebServer.Settings.{
  log_text, fill_safe, set_time, set_modbus_id, set_invert_watts, set_log_level, set_hostname,
  set_ap_active, connect_to_wifi, set_password, bool_of, severity_of, with_inverted, with_severity,
  store, with_addr, level_reply,
}
use pico_modbus_meter.LogStorage.{log_formatted, info, error, LogSeverity}
use pico_modbus_meter.NtpClient.{set_time_since_epoch}
use pico_modbus_meter.StringUtil.{extract_word}
use pico_modbus_meter.HttpServer.Serve.{Callback}
use pico_modbus_meter.WebServer.{
  App, Platform, Stored, modbus_id, invert_watts, hostname, ssid_wifi, pwd_wifi, user_pwd,
  body_text, empty_reply, status_ok,
}
use pico_modbus_meter.WebServer.Pages.{
  get_modbus_id, get_invert_watts, request_user, fill_unauthorized,
}
use pico_modbus_meter.WebServer.Related
use pico_modbus_meter.WebServer.Related.{only_reply-Keeps}
use pico_modbus_meter.WebServer.Order.{IsOrdered, fill_safe-IsValid}
use pico_modbus_meter.Restart.Members.{AllSized, nil, cons}

-- the address and the sign after these writes
abbrev pub last_addr : List Stored → ℕ → ℕ
last_addr [] a = a
last_addr (modbus_id id ∷ xs) a = last_addr xs (id % 256)
last_addr (_ ∷ xs) a = last_addr xs a

abbrev pub last_inverted : List Stored → Bool → Bool
last_inverted [] i = i
last_inverted (invert_watts j ∷ xs) i = last_inverted xs j
last_inverted (_ ∷ xs) i = last_inverted xs i

-- The address and the sign are what was stored of them last, and what was stored has its size.
pub record Saved (app app' : App) : Type 0 where
  pub writes : List Stored
  pub appended : app'.stored ≡ app.stored ++ writes
  pub sized : AllSized writes
  pub addr : app'.addr ≡ last_addr writes app.addr
  pub sign : app'.inverted ≡ last_inverted writes app.inverted

abbrev pub Saves : App → App → Type 0
Saves app app' = IsOrdered app → Saved app app'

abbrev IsKeeper : Callback App → Type 0
IsKeeper c = Related.IsKeeper Saves c

-- nothing to store
nothing-Saved :
    (app app' : App)
    → app'.stored ≡ app.stored
    → app'.addr ≡ app.addr
    → app'.inverted ≡ app.inverted
    → Saved app app'
nothing-Saved app app' stored addr sign = record {
  writes = [];
  appended = rw append-nil stored;
  sized = nil;
  addr = addr;
  sign = sign;
}

pub same-Saves : (app : App) → Saves app app
same-Saves app v = nothing-Saved app app refl refl refl

log_text-Saved :
    (severity : LogSeverity) (message : List ℕ) (app : App)
    → Yields (Saved app) (log_text severity message app)
log_text-Saved severity message app =
    Yields-bind (log_formatted app.log severity message) _
      (λ r. result (nothing-Saved app (record app { log = r.0 }) refl refl refl))

with_addr-Saved : (app : App) (id : ℕ) (body : List ℕ) → Yields (Saved app) (with_addr app id body)
with_addr-Saved app id body = by_test (id == 0 || ltb 255 id) refl
  where
    by_test :
        (b : Bool)
        → (id == 0 || ltb 255 id) ≡ b
        → Yields (Saved app) (
            if b
            then log_text error (codes "Modbus id out of range 1-255: " ++ body) app
            else some (store (modbus_id id) (record app { addr = id })))
    by_test true e = log_text-Saved error (codes "Modbus id out of range 1-255: " ++ body) app
    by_test false e = result (record {
      writes = modbus_id id ∷ [];
      appended = refl;
      sized = cons tt nil;
      addr = ground (arith, e);
      sign = refl;
    })

with_inverted-Saved :
    (app : App) (body : List ℕ) (o : Option Bool) → Yields (Saved app) (with_inverted app body o)
with_inverted-Saved app body none = log_text-Saved error (codes "Bad value to set: " ++ body) app
with_inverted-Saved app body (some i) = result (record {
  writes = invert_watts i ∷ [];
  appended = refl;
  sized = cons tt nil;
  addr = refl;
  sign = refl;
})

with_severity-Saved :
    (app logged : App) (o : Option LogSeverity)
    → Saved app logged
    → Saved app (with_severity logged o)
with_severity-Saved app logged none h = h
with_severity-Saved app logged (some s) h = record {
  writes = h.writes;
  appended = h.appended;
  sized = h.sized;
  addr = h.addr;
  sign = h.sign;
}

module _ (p : Platform) where
  pub set_time-IsKeeper : IsKeeper (set_time p)
  unfolding set_time
  set_time-IsKeeper req res app net =
      only_reply-Keeps Saves (empty_reply p status_ok) req res app
        (record app { ntp = set_time_since_epoch p.now app.ntp (p.strtoul (body_text req)) }) net
        (λ v.
          nothing-Saved app
            (record app { ntp = set_time_since_epoch p.now app.ntp (p.strtoul (body_text req)) })
            refl refl refl)

  pub set_modbus_id-IsKeeper : IsKeeper (set_modbus_id p)
  unfolding set_modbus_id
  set_modbus_id-IsKeeper req res app net = Yields-if _ (λ v.
      >>=-Yields (with_addr app (p.strtol (body_text req)) (body_text req)) _
        (with_addr-Saved app (p.strtol (body_text req)) (body_text req))
        (λ changed h.
          only_reply-Keeps Saved (get_modbus_id p req changed) req res app changed net h))

  pub set_invert_watts-IsKeeper : IsKeeper (set_invert_watts p)
  unfolding set_invert_watts
  set_invert_watts-IsKeeper req res app net = Yields-if _ (λ v.
      >>=-Yields (with_inverted app (body_text req) (bool_of (body_text req))) _
        (with_inverted-Saved app (body_text req) (bool_of (body_text req)))
        (λ changed h.
          only_reply-Keeps Saved (get_invert_watts p req changed) req res app changed net h))

  pub set_log_level-IsKeeper : IsKeeper (set_log_level p)
  unfolding set_log_level
  set_log_level-IsKeeper req res app net = Yields-if _ (λ v.
      >>=-Yields (log_text info (codes "Change log level to " ++ body_text req) app) _
        (log_text-Saved info (codes "Change log level to " ++ body_text req) app)
        (λ logged h.
          only_reply-Keeps Saved (level_reply p (severity_of (body_text req))) req res app
            (with_severity logged (severity_of (body_text req))) net
            (with_severity-Saved app logged (severity_of (body_text req)) h)))

  pub set_hostname-IsKeeper : IsKeeper (set_hostname p)
  unfolding set_hostname
  set_hostname-IsKeeper req res app net = Yields-if _ (λ v.
      Yields-bind (empty_reply p status_ok res net) _ (λ a.
        >>=-Yields (fill_safe app.wifi.hostname (body_text req)) _
          (fill_safe-IsValid app.wifi.hostname (body_text req) v.wifi.name)
          (λ name valid. result (record {
            writes = hostname name ∷ [];
            appended = refl;
            sized = cons valid.capacity nil;
            addr = refl;
            sign = refl;
          }))))

  pub set_ap_active-IsKeeper : IsKeeper (set_ap_active p)
  unfolding set_ap_active
  set_ap_active-IsKeeper req res app net = Yields-bind (empty_reply p status_ok res net) _ (λ a.
      result (λ v. record {
        writes = [];
        appended = sym (append-nil app.stored);
        sized = nil;
        addr = refl;
        sign = refl;
      }))

  pub connect_to_wifi-IsKeeper : IsKeeper (connect_to_wifi p)
  unfolding connect_to_wifi
  connect_to_wifi-IsKeeper req res app net =
      let ssid : List ℕ = (extract_word (body_text req) 32).0 in
      let password : List ℕ = (extract_word (extract_word (body_text req) 32).1 32).0 in
      Yields-if _ (λ v. Yields-bind (empty_reply p status_ok res net) _ (λ a.
        if_Yields (length ssid == 0 || length password == 0) (result (same-Saves app v)) (
          >>=-Yields (fill_safe app.wifi.ssid_wifi ssid) _
            (fill_safe-IsValid app.wifi.ssid_wifi ssid v.wifi.ssid)
            (λ s valid_s.
              >>=-Yields (fill_safe app.wifi.pwd_wifi password) _
                (fill_safe-IsValid app.wifi.pwd_wifi password v.wifi.pwd)
                (λ w valid_w. result (record {
                  writes = ssid_wifi s ∷ pwd_wifi w ∷ [];
                  appended = append_assoc app.stored (ssid_wifi s ∷ []) (pwd_wifi w ∷ []);
                  sized = cons valid_s.capacity (cons valid_w.capacity nil);
                  addr = refl;
                  sign = refl;
                }))))))

  pub set_password-IsKeeper : IsKeeper (set_password p)
  unfolding set_password
  set_password-IsKeeper req res app net = Yields-if _ (λ v.
      Yields-bind (request_user p req app) _ (λ user.
        if_Yields (length user == 0)
          (only_reply-Keeps Saved (fill_unauthorized p) req res app app net (same-Saves app v))
          (let (pwd, filled, valid, _) =
              fill_lem pwd_size app.crypto.user_pwd (body_text req) v.password in
            rw filled (
              only_reply-Keeps Saved (empty_reply p status_ok) req res app
                (store (user_pwd pwd) (record app { crypto = record { user_pwd = pwd } })) net
                (record {
                  writes = user_pwd pwd ∷ [];
                  appended = refl;
                  sized = cons valid.capacity nil;
                  addr = refl;
                  sign = refl;
                })))))
