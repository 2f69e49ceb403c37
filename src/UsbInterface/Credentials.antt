-- ===== src/UsbInterface/Credentials.antt =====
-- What the WiFi driver reads of the credentials that the console stores: it takes them as C strings.
use pico_modbus_meter.Base.{
  ℕ, ◌+◌, ◌≤◌, min, ◌≡◌, refl, ap, ◌∙◌, true, some, List, [], ◌++◌, arith, leb, length, drop,
  take_all, take-append_le, le→leb,
}
use pico_modbus_meter.Base.Memory.{overwrite, store_bytes, ◌>>=◌}
use pico_modbus_meter.Stream.{Stream, read_word}
use pico_modbus_meter.StaticString.{StaticString, fill}
use pico_modbus_meter.StaticString.Bounds.{IsValid, text, fill_lem}
use pico_modbus_meter.Base.CString.{c_string, until_zero, c_string-append}
use pico_modbus_meter.WifiStorage.{text_size}
use pico_modbus_meter.WebServer.Settings.{credentials}
use pico_modbus_meter.UsbInterface.{
  connect_with, Console, Command, Terminal, connect_wifi, command_of, run, handle_usb_command,
}

-- a text that fits, over the front of the array
fill-fits :
    (n : ℕ) (s : StaticString) (x : List ℕ)
    → length s.storage ≡ n
    → length x ≤ n
    → fill n s x ≡ some (record { storage = x ++ drop (length x) s.storage; cur_size = length x })
unfolding fill store_bytes overwrite
fill-fits n s x e h =
    let size : min (length x) n ≡ length x = omega (arith, h) in
    let fits : leb (0 + length x) (length s.storage) ≡ true = le→leb _ _ (omega (arith, h, e)) in
    rw (size, take_all (length x) x (omega arith), fits)
      (ap (λ k. some (record { storage = x ++ drop k s.storage; cur_size = length x }))
        (zero_plus (length x)))
  where
    zero_plus : (k : ℕ) → 0 + k ≡ k
    zero_plus k = omega arith

connect_with_lem :
    (c : Console) (ssid pwd : List ℕ) (last : Stream) {s p : StaticString}
    → fill text_size c.app.wifi.ssid_wifi ssid ≡ some s
    → fill text_size c.app.wifi.pwd_wifi pwd ≡ some p
    → connect_with c ssid (pwd, last) ≡ some (last, record c { app = credentials c.app s p }, [])
unfolding connect_with
connect_with_lem c ssid pwd last made_s made_p = rw (made_s, made_p) refl

run_connect :
    (t : Terminal) (w : List ℕ) (input : Stream) (c : Console) {s p : StaticString}
    {ssid pwd : List ℕ} {after last : Stream}
    → read_word input ≡ (ssid, after)
    → read_word after ≡ (pwd, last)
    → fill text_size c.app.wifi.ssid_wifi ssid ≡ some s
    → fill text_size c.app.wifi.pwd_wifi pwd ≡ some p
    → run t connect_wifi w input c ≡ some (last, record c { app = credentials c.app s p }, [])
unfolding run
run_connect t w input c {ssid} {pwd} {last = last} first second made_s made_p =
    ap (λ (r : List ℕ × Stream). connect_with c r.0 (read_word r.1)) first
    ∙ (ap (connect_with c ssid) second ∙ connect_with_lem c ssid pwd last made_s made_p)

handle_step :
    (t : Terminal) (input : Stream) (c : Console) (k : Command)
    → command_of (read_word input).0 ≡ k
    → handle_usb_command t input c ≡ run t k (read_word input).0 (read_word input).1 c
unfolding handle_usb_command
handle_step t input c k e = ap (λ x. run t x (read_word input).0 (read_word input).1 c) e

-- The command `connect_wifi` of the console ends the texts with no zero: when the first word has at most 64 bytes, none of them zero, and
-- is stored as the name, the WiFi driver reads as name this word and then what the array held behind it, up to a zero,
-- and it reads past the array if there is no zero behind it.
pub handle_usb_command-stale :
    (t : Terminal) (input : Stream) (c : Console)
    → IsValid text_size c.app.wifi.ssid_wifi
    → IsValid text_size c.app.wifi.pwd_wifi
    → command_of (read_word input).0 ≡ connect_wifi
    → (ssid pwd : List ℕ) (after last : Stream) → read_word (read_word input).1 ≡ (ssid, after)
    → read_word after ≡ (pwd, last)
    → length ssid ≤ text_size
    → until_zero ssid ≡ ssid
    → (c' : Console) × (handle_usb_command t input c ≡ some (last, c', []))
      × (text c'.app.wifi.ssid_wifi ≡ ssid)
      × (c_string c'.app.wifi.ssid_wifi.storage ≡ (
          c_string (drop (length ssid) c.app.wifi.ssid_wifi.storage) >>= λ behind.
          some (ssid ++ behind)))
handle_usb_command-stale t input c vs vp is_connect ssid pwd after last first second short clean =
    let (p, made_p, _, _) = fill_lem text_size c.app.wifi.pwd_wifi pwd vp in
    let kept : List ℕ = drop (length ssid) c.app.wifi.ssid_wifi.storage in
    let s : StaticString = record { storage = ssid ++ kept; cur_size = length ssid } in
    (
      record c { app = credentials c.app s p },
      handle_step t input c connect_wifi is_connect
          ∙ run_connect t (read_word input).0 (read_word input).1 c first second
              (fill-fits text_size c.app.wifi.ssid_wifi ssid vs.capacity short) made_p,
      take-append_le (length ssid) ssid kept (omega arith)
          ∙ take_all (length ssid) ssid (omega arith),
      c_string-append ssid kept clean,
    )
