-- ===== src/WebServer/Connecting.antt =====
-- What the WiFi driver reads of the credentials that the web interface stores: it takes them as C strings.
use pico_modbus_meter.Base.{ℕ, ◌<◌, ◌≡◌, refl, ap, ◌∙◌, some, List, arith, length, ne→==, take_all}
use pico_modbus_meter.StaticString.{StaticString}
use pico_modbus_meter.StaticString.Bounds.{
  IsValid, text, length-text, fill_lem, make_c_str_safe_lem,
}
use pico_modbus_meter.StringUtil.{extract_word}
use pico_modbus_meter.HttpServer.{MessageBuffer, Net}
use pico_modbus_meter.Base.CString.{c_string, until_zero, c_string-take}
use pico_modbus_meter.WifiStorage.{text_size}
use pico_modbus_meter.WebServer.{App, Platform, body_text, empty_reply, status_ok}
use pico_modbus_meter.WebServer.Settings.{credentials, connect_to_wifi, fill_safe}

fill_safe_lem :
    (s : StaticString) (x : List ℕ)
    → IsValid text_size s
    → length x < text_size
    → until_zero x ≡ x
    → (t : StaticString) × (fill_safe s x ≡ some t) × (c_string t.storage ≡ some x)
fill_safe_lem s x v short clean =
    let (f, filled, valid, shown) = fill_lem text_size s x v in
    let (t, ended, _, same, zero_behind) = make_c_str_safe_lem text_size f valid in
    let whole : text f ≡ x = shown ∙ take_all text_size x (omega (arith, short)) in
    let room : f.cur_size < text_size = omega (arith, length-text valid, ap length whole, short) in
    (
      t,
      rw (filled, ended) refl,
      c_string-take t.storage x t.cur_size (same ∙ whole) (zero_behind room) clean,
    )

-- When the two words of the body have 1 to 63 bytes, none of them zero, and the reply succeeds, `connect_to_wifi` succeeds, and the
-- WiFi driver reads the two words as name and password.
pub connect_to_wifi-c_string :
    (p : Platform) (req res : MessageBuffer) (app : App) (net : Net) {res' : MessageBuffer}
    {net' : Net}
    → IsValid text_size app.wifi.ssid_wifi
    → IsValid text_size app.wifi.pwd_wifi
    → (ssid password rest last : List ℕ) → extract_word (body_text req) 32 ≡ (ssid, rest)
    → extract_word rest 32 ≡ (password, last)
    → 0 < length ssid
    → length ssid < text_size
    → until_zero ssid ≡ ssid
    → 0 < length password
    → length password < text_size
    → until_zero password ≡ password
    → empty_reply p status_ok res net ≡ some (res', net')
    → (app' : App) × (connect_to_wifi p req res app net ≡ some (res', app', net'))
      × (c_string app'.wifi.ssid_wifi.storage ≡ some ssid)
      × (c_string app'.wifi.pwd_wifi.storage ≡ some password)
unfolding connect_to_wifi
connect_to_wifi-c_string p req res app net vs vp ssid password rest last first second s0 s1 s2 p0 p1
      p2 replied =
    let (s, made_s, read_s) = fill_safe_lem app.wifi.ssid_wifi ssid vs s1 s2 in
    let (w, made_w, read_w) = fill_safe_lem app.wifi.pwd_wifi password vp p1 p2 in
    (
      credentials app s w,
      rw
          (
            replied,
            first,
            second,
            ne→== (length ssid) 0 (omega (arith, s0)),
            ne→== (length password) 0 (omega (arith, p0)),
            made_s,
            made_w,
          )
          refl,
      read_s,
      read_w,
    )
