-- ===== src/WifiStorage/Loading.antt =====
-- What the WiFi storage makes of the bytes in the flash.
use pico_modbus_meter.Base.{
  ◌<◌, ◌≡◌, refl, ap, ◌∙◌, true, Option, some, arith, ℕ_discrete, length, codes, ==_iff, ne→==,
}
use pico_modbus_meter.StaticString.{StaticString, sanitize, empty}
use pico_modbus_meter.StaticString.Bounds.{
  IsValid, text, length-text, fill_lem, make_c_str_safe_lem, sanitize-IsValid,
}
use pico_modbus_meter.WifiStorage.{
  WifiStorage, text_size, safe, or_meter, load_from_persistent_storage,
}
use pico_modbus_meter.WifiStorage.Results.{IsSound}
use pico_modbus_meter.WifiStorage.Upkeep.{IsInOrder}

-- The operation gives a valid string.
abbrev Valid : Option StaticString → Type 0
Valid r = (t : StaticString) × (r ≡ some t) × IsValid text_size t

safe_lem : (s : StaticString) → length s.storage ≡ text_size → Valid (safe s)
safe_lem s e =
    let (t, made, valid, _, _) =
      make_c_str_safe_lem text_size (sanitize text_size s)
        (sanitize-IsValid text_size s e (omega arith)).0 in
    (t, made, valid)

or_meter_lem :
    (s : StaticString)
    → IsValid text_size s
    → (t : StaticString) × (or_meter s ≡ some t) × IsValid text_size t × (0 < length (text t))
unfolding empty
or_meter_lem s v = elim (ℕ_discrete s.cur_size 0) [
  | yes e ↦
      let (m, filled, valid, shown) = fill_lem text_size s (codes "meter") v in
      let (t, made, valid', same, _) = make_c_str_safe_lem text_size m valid in
      (
        t,
        rw ((==_iff s.cur_size 0).1 e, filled) made,
        valid',
        omega (arith, ap length (same ∙ shown)),
      )
  | no ne ↦ (s, rw (ne→== s.cur_size 0 ne) refl, v, omega (arith, length-text v))
]

-- Whatever bytes and sizes the flash holds, loading stays in bounds and leaves valid texts, with a name for the device, which are to be
-- put to use.
pub load_from_persistent_storage-IsInOrder :
    (s : WifiStorage) (hostname ssid pwd : StaticString)
    → IsSound s
    → length hostname.storage ≡ text_size
    → length ssid.storage ≡ text_size
    → length pwd.storage ≡ text_size
    → (t : WifiStorage) × (load_from_persistent_storage s hostname ssid pwd ≡ some t)
      × IsInOrder t
      × (0 < length (text t.hostname))
      × (t.wifi_changed ≡ true)
      × (t.hostname_changed ≡ true)
unfolding load_from_persistent_storage
load_from_persistent_storage-IsInOrder s hostname ssid pwd sound eh es ep =
    let (h, made_h, valid_h) = safe_lem hostname eh in
    let (n, made_n, valid_n, named) = or_meter_lem h valid_h in
    let (i, made_i, valid_i) = safe_lem ssid es in
    let (w, made_w, valid_w) = safe_lem pwd ep in
    (
      record s {
        hostname = n;
        ssid_wifi = i;
        pwd_wifi = w;
        wifi_changed = true;
        hostname_changed = true;
      },
      rw (made_h, made_n, made_i, made_w) refl,
      record {
        sound = record { slots = sound.slots; within = sound.within; names = sound.names };
        ssid = valid_i;
        pwd = valid_w;
        name = valid_n;
      },
      named,
      refl,
      refl,
    )
