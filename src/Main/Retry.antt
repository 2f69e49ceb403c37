-- ===== src/Main/Retry.antt =====
-- When the task tries to connect again.
use pico_modbus_meter.Base.{
  ℕ, ◌+◌, ◌-◌, ◌*◌, ◌/◌, ◌%◌, ◌^◌, ◌<◌, ◌≡◌, refl, ◌∙◌, Bool, true, false, ◌&&◌, some, List, [],
  ◌∷◌, arith, ltb, ◌==◌, length, ne→==,
}
use pico_modbus_meter.Base.Yields.{Yields, result, Yields-bind, Yields-at, >>=-Yields, if_Yields}
use pico_modbus_meter.AccessPoint.{Setup}
use pico_modbus_meter.StaticString.{sv}
use pico_modbus_meter.StaticVector.{contents, remove_if}
use pico_modbus_meter.WifiStorage.{
  WifiStorage, is_old, find_ssid, update_hostname, update_wifi_connection, update_scanned,
}
use pico_modbus_meter.WifiStorage.Upkeep.{IsInOrder}
use pico_modbus_meter.Main.{
  SearchTask, Answers, Actions, since, enable_retry, search_round, search_rounds,
}
use pico_modbus_meter.Main.Round.{search_round-Rounded}

update_wifi_connection-Idle :
    (s : WifiStorage) (link_up accepted : Bool)
    → s.wifi_changed ≡ false
    → Yields
        (λ r. (r.0 ≡ false) × (r.1.wifi_changed ≡ false))
        (update_wifi_connection s link_up accepted)
unfolding update_wifi_connection
update_wifi_connection-Idle s link_up accepted idle = Yields-bind (sv s.ssid_wifi) _ (λ ssid.
    Yields-bind (find_ssid ssid (contents s.wifis) 0) _ (λ found. rw idle (result (refl, refl))))

update_scanned-Idle :
    (s : WifiStorage) (active starts : Bool) (now later : ℕ)
    → s.wifi_changed ≡ false
    → Yields (λ r. r.1.wifi_changed ≡ false) (update_scanned s active starts now later)
unfolding update_scanned
update_scanned-Idle s active starts now later idle =
    if_Yields (active && ltb ((s.last_scanned + 2 ^ 32 - now / 1_000_000 % 2 ^ 32) % 2 ^ 32) 10)
      (result idle)
      (if_Yields starts (Yields-bind (remove_if (is_old later) s.wifis) _ (λ wifis. result idle))
        (result idle))

update_hostname-Idle :
    (s : WifiStorage) (nif : Bool)
    → s.wifi_changed ≡ false
    → (update_hostname s nif).0.wifi_changed ≡ false
unfolding update_hostname
update_hostname-Idle s nif idle = ground arith

search_round-Idle :
    (setup : Setup) (s : SearchTask) (a : Answers)
    → s.app.wifi.wifi_changed ≡ false
    → (since s a % 30 == 5) ≡ false
    → Yields
        (λ r. (r.1.connects ≡ false) × (r.0.app.wifi.wifi_changed ≡ false))
        (search_round setup s a)
unfolding search_round
search_round-Idle setup s a idle off =
    >>=-Yields (update_wifi_connection (update_hostname s.app.wifi true).0 a.link_up a.accepted) _
      (update_wifi_connection-Idle (update_hostname s.app.wifi true).0 a.link_up a.accepted
        (update_hostname-Idle s.app.wifi true idle))
      (λ r h.
        >>=-Yields
          (update_scanned (enable_retry (since s a) r.1) a.scanning a.scan_starts a.scan_now
            a.scan_later)
          _
          (update_scanned-Idle (enable_retry (since s a) r.1) a.scanning a.scan_starts a.scan_now
            a.scan_later (rw off h.1))
          (λ q g. result (h.0, g)))

-- Rounds without a link that start one and a half seconds after another, the first one `k` times that after `begin`.
abbrev pub Paced : ℕ → ℕ → List Answers → Type 0
Paced begin k [] = Unit {0}
Paced begin k (a ∷ answers) =
    (a.now ≡ begin + 1_500_000 * k) × (a.link_up ≡ false) × Paced begin (k + 1) answers

-- no round tried to connect
abbrev pub NoAttempt : List Actions → Type 0
NoAttempt [] = Unit {0}
NoAttempt (act ∷ actions) = (act.connects ≡ false) × NoAttempt actions

-- With the WiFi storage in order, no change pending and the last connection at `begin`, in the first half of a second, rounds
-- of one and a half seconds without a link never come to a retry, for fewer than 2 ^ 31 of them: no round tries to connect.
pub search_rounds-NoAttempt :
    (setup : Setup) (s : SearchTask) (begin k : ℕ) (answers : List Answers)
    → IsInOrder s.app.wifi
    → s.app.wifi.wifi_changed ≡ false
    → begin % 1_000_000 < 500_000
    → s.last_conn ≡ begin / 1_000_000 % 2 ^ 32
    → k + length answers < 2 ^ 31
    → Paced begin k answers
    → (t : SearchTask) × (actions : List Actions) × (search_rounds setup s answers
        ≡ some (t, actions))
      × NoAttempt actions
unfolding search_rounds
search_rounds-NoAttempt setup s begin k [] v idle phase last few paced = (s, [], refl, tt)
search_rounds-NoAttempt setup s begin k (a ∷ answers) v idle phase last few paced =
    let (t, act, done, r) = search_round-Rounded setup s a v in
    let off : (since s a % 30 == 5) ≡ false =
      ne→== (since s a % 30) 5 (λ e. omega (arith, e, paced.0, phase, last, few)) in
    let (quiet, idle') =
      Yields-at (search_round setup s a) (t, act) (search_round-Idle setup s a idle off) done in
    let same : t.last_conn ≡ s.last_conn = r.last ∙ rw (paced.1) refl in
    let (u, acts, rest, quiet_rest) =
      search_rounds-NoAttempt setup t begin (k + 1) answers r.in_order idle' phase (same ∙ last)
        (omega (arith, few)) paced.2 in
    (u, act ∷ acts, rw (done, rest) refl, (quiet, quiet_rest))
