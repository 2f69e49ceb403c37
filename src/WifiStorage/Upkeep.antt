-- ===== src/WifiStorage/Upkeep.antt =====
-- The operations of the WiFi storage, on a storage that is in order: they have a result, and it is in order.
use pico_modbus_meter.Base.{
  ℕ, ◌+◌, ◌-◌, ◌/◌, ◌%◌, ◌^◌, ◌≡◌, refl, ap, ◌∙◌, inl, inr, Bool, true, false, not, ◌&&◌, ◌||◌,
  Option, none, some, arith, ltb, ◌==◌, if◌then◌else◌, length,
}
use pico_modbus_meter.Base.Memory.{◌>>=◌}
use pico_modbus_meter.StaticString.Bounds.{IsValid, text, sv-text}
use pico_modbus_meter.StaticVector.{contents, int_lt, remove_if}
use pico_modbus_meter.StaticVector.RemoveIf.{remove_if_lem}
use pico_modbus_meter.StaticVector.Each.{Each-take, remove_if-Each}
use pico_modbus_meter.WifiStorage.{
  WifiStorage, text_size, max_wifis, is_old, is_found, find_ssid, update_scanned,
  update_wifi_connection, update_hostname,
}
use pico_modbus_meter.WifiStorage.Results.{IsSound, HasName, find_ssid_lem}

-- The networks and the three texts are in order.
pub record IsInOrder (s : WifiStorage) : Type 0 where
  pub sound : IsSound s
  pub ssid : IsValid text_size s.ssid_wifi
  pub pwd : IsValid text_size s.pwd_wifi
  pub name : IsValid text_size s.hostname

-- Networks and texts that are the same are in order too.
pub same-IsInOrder :
    (s t : WifiStorage)
    → t.wifis ≡ s.wifis
    → t.ssid_wifi ≡ s.ssid_wifi
    → t.pwd_wifi ≡ s.pwd_wifi
    → t.hostname ≡ s.hostname
    → IsInOrder s
    → IsInOrder t
same-IsInOrder s t wifis ssid pwd name v = record {
  sound = record {
    slots = ap (λ x. length x.storage) wifis ∙ v.sound.slots;
    within = rw wifis v.sound.within;
    names = rw wifis v.sound.names;
  };
  ssid = rw ssid v.ssid;
  pwd = rw pwd v.pwd;
  name = rw name v.name;
}

pub update_hostname-IsInOrder :
    (s : WifiStorage) (nif : Bool) → IsInOrder s → IsInOrder (update_hostname s nif).0
unfolding update_hostname
update_hostname-IsInOrder s nif v =
    same-IsInOrder s (update_hostname s nif).0 (ground arith) (ground arith) (ground arith)
      (ground arith) v

find_ssid_total :
    (s : WifiStorage)
    → IsInOrder s
    → (r : Option ℕ) × (find_ssid (text s.ssid_wifi) (contents s.wifis) 0 ≡ some r)
find_ssid_total s v =
    elim (find_ssid_lem (text s.ssid_wifi) (contents s.wifis) 0
      (Each-take HasName s.wifis.cur_size s.wifis.storage v.sound.names)) [
        | inl e ↦ (none, e.0)
        | inr (k, w, e, n) ↦ (some (0 + k), e)
      ]

-- The operation has a result, in order, with this state of the connection.
abbrev pub Keeps : Bool → Option (Bool × WifiStorage) → Type 0
Keeps connected r =
    (b : Bool) × (t : WifiStorage) × (r ≡ some (b, t))
    × IsInOrder t
    × (t.wifi_connected ≡ connected)

if_Keeps :
    (connected b : Bool) {x y : Bool × WifiStorage}
    → Keeps connected (some x)
    → Keeps connected (some y)
    → Keeps connected (if b then some x else some y)
if_Keeps connected true p q = p
if_Keeps connected false p q = q

pub update_wifi_connection-Keeps :
    (s : WifiStorage) (link_up accepted : Bool)
    → IsInOrder s
    → Keeps link_up (update_wifi_connection s link_up accepted)
unfolding update_wifi_connection
update_wifi_connection-Keeps s link_up accepted v =
    let (r, found) = find_ssid_total s v in
    let linked : WifiStorage = record s { wifi_connected = link_up } in
    let ready : WifiStorage = record linked { wifi_changed = false } in
    let in_order : IsInOrder linked = same-IsInOrder s linked refl refl refl refl v in
    rw (sv-text v.ssid, found)
      (if_Keeps link_up
        (not s.wifi_changed
          || (s.ssid_wifi.cur_size == 0 || (int_lt s.pwd_wifi.cur_size 8 || not (is_found r))))
        (false, linked, refl, in_order, refl) (by_answer accepted))
  where
    by_answer :
        (b : Bool)
        → Keeps link_up (
            some (
              true,
              if b
                  then record s { wifi_connected = link_up; wifi_changed = false }
                  else record s { wifi_connected = link_up },
            ))
    by_answer true = (
      true,
      record s { wifi_connected = link_up; wifi_changed = false },
      refl,
      same-IsInOrder s (record s { wifi_connected = link_up; wifi_changed = false }) refl refl refl
          refl v,
      refl,
    )
    by_answer false = (
      true,
      record s { wifi_connected = link_up },
      refl,
      same-IsInOrder s (record s { wifi_connected = link_up }) refl refl refl refl v,
      refl,
    )

pub update_scanned-Keeps :
    (s : WifiStorage) (active starts : Bool) (now later : ℕ)
    → IsInOrder s
    → Keeps s.wifi_connected (update_scanned s active starts now later)
unfolding update_scanned
update_scanned-Keeps s active starts now later v =
    by_tests (active && ltb ((s.last_scanned + 2 ^ 32 - now / 1_000_000 % 2 ^ 32) % 2 ^ 32) 10)
      starts
  where
    cur : ℕ
    cur = now / 1_000_000 % 2 ^ 32

    by_tests :
        (a b : Bool)
        → Keeps s.wifi_connected (
            if a
            then some (false, s)
            else if b
            then (remove_if (is_old later) s.wifis >>= λ wifis.
                some (true, record s { last_scanned = cur; wifis = wifis }))
            else some (true, record s { last_scanned = cur }))
    by_tests true b = (false, s, refl, v, refl)
    by_tests false true =
        let (w, done, valid, _) =
          remove_if_lem max_wifis (is_old later) s.wifis
            (record { capacity = v.sound.slots; small = omega arith; within = v.sound.within }) in
        rw done (
          true,
          record s { last_scanned = cur; wifis = w },
          refl,
          record {
            sound = record {
              slots = valid.capacity;
              within = valid.within;
              names = remove_if-Each HasName (is_old later) s.wifis w v.sound.names done;
            };
            ssid = v.ssid;
            pwd = v.pwd;
            name = v.name;
          },
          refl,
        )
    by_tests false false = (
      true,
      record s { last_scanned = cur },
      refl,
      same-IsInOrder s (record s { last_scanned = cur }) refl refl refl refl v,
      refl,
    )
