-- ===== src/Main/Round.antt =====
-- What a round of the task does, when the WiFi storage is in order.
use pico_modbus_meter.Base.{
  ℕ, ◌+◌, ◌-◌, ◌/◌, ◌%◌, ◌^◌, ◌<◌, ◌≡◌, refl, ◌∙◌, Bool, true, false, ◌||◌, some, List, [], ◌∷◌,
  ◌++◌, arith, ltb, ◌==◌, if◌then◌else◌, lt→ltb,
}
use pico_modbus_meter.AccessPoint
use pico_modbus_meter.AccessPoint.{AccessPoint, Setup}
use pico_modbus_meter.StaticVector.Each.{Each}
use pico_modbus_meter.WebServer.{App}
use pico_modbus_meter.WifiStorage.{WifiStorage, update_hostname}
use pico_modbus_meter.WifiStorage.Upkeep.{
  IsInOrder, same-IsInOrder, update_hostname-IsInOrder, update_wifi_connection-Keeps,
  update_scanned-Keeps,
}
use pico_modbus_meter.Main.{
  SearchTask, Answers, Actions, time_s, since, ap_timeout, open_ap, update_clock, enable_retry,
  search_round, search_rounds,
}

init-active : (setup : Setup) (a : AccessPoint) → (AccessPoint.init setup a).0.active ≡ true
unfolding AccessPoint.init
init-active setup a = ground arith

open_ap-active :
    (setup : Setup) (wanted : Bool) (app : App)
    → (open_ap setup wanted app).ap.active ≡ (wanted || app.ap.active)
open_ap-active setup true app = init-active setup app.ap
open_ap-active setup false app = refl

enable_retry-IsInOrder : (dt : ℕ) (w : WifiStorage) → IsInOrder w → IsInOrder (enable_retry dt w)
enable_retry-IsInOrder dt w v =
    same-IsInOrder w (enable_retry dt w) (ground arith) (ground arith) (ground arith) (ground arith)
      v

enable_retry-connected :
    (dt : ℕ) (w : WifiStorage) → (enable_retry dt w).wifi_connected ≡ w.wifi_connected
enable_retry-connected dt w = ground arith

-- The round has a result: the storage stays in order, the access point is opened after the time without a connection and never closed,
-- and the time of the last connection moves on with the link.
pub record Rounded (s : SearchTask) (a : Answers) (t : SearchTask) : Type 0 where
  pub in_order : IsInOrder t.app.wifi
  pub active : t.app.ap.active ≡ (ltb ap_timeout (since s a) || s.app.ap.active)
  pub last : t.last_conn ≡ (if a.link_up then time_s a.now else s.last_conn)

pub search_round-Rounded :
    (setup : Setup) (s : SearchTask) (a : Answers)
    → IsInOrder s.app.wifi
    → (t : SearchTask) × (actions : Actions) × (search_round setup s a ≡ some (t, actions))
      × Rounded s a t
unfolding search_round
search_round-Rounded setup s a v =
    let dt = since s a in
    let named = (update_hostname s.app.wifi true).0 in
    let (connects, linked, tried, linked_v, up) =
      update_wifi_connection-Keeps named a.link_up a.accepted
        (update_hostname-IsInOrder s.app.wifi true v) in
    let (scans, scanned, done, scanned_v, _) =
      update_scanned-Keeps (enable_retry dt linked) a.scanning a.scan_starts a.scan_now a.scan_later
        (enable_retry-IsInOrder dt linked linked_v) in
    let clock = update_clock a scanned.wifi_connected s.app.ntp in
    (
      record {
        app = open_ap setup (ltb ap_timeout dt) (record s.app { wifi = scanned; ntp = clock.0 });
        last_conn = if linked.wifi_connected then time_s a.now else s.last_conn;
      },
      record {
        host = (update_hostname s.app.wifi true).1;
        connects = connects;
        led = if ltb ap_timeout dt then time_s a.now % 2 == 1 else linked.wifi_connected;
        scans = scans;
        looks_up = clock.1;
      },
      rw (tried, done) refl,
      record {
        in_order = scanned_v;
        active =
            open_ap-active setup (ltb ap_timeout dt)
              (record s.app { wifi = scanned; ntp = clock.0 });
        last = rw up refl;
      },
    )

-- no link in any of these rounds
abbrev pub AllDown : List Answers → Type 0
AllDown answers = Each (λ a. a.link_up ≡ false) answers

-- any rounds, from objects that are in order
search_rounds_total :
    (setup : Setup) (s : SearchTask) (answers : List Answers)
    → IsInOrder s.app.wifi
    → s.app.ap.active ≡ true
    → (t : SearchTask) × (actions : List Actions) × (search_rounds setup s answers
        ≡ some (t, actions))
      × (t.app.ap.active ≡ true)
unfolding search_rounds
search_rounds_total setup s [] v on = (s, [], refl, on)
search_rounds_total setup s (a ∷ answers) v on =
    let (t, act, done, r) = search_round-Rounded setup s a v in
    let still : t.app.ap.active ≡ true = r.active ∙ rw on (or_true (ltb ap_timeout (since s a))) in
    let (u, acts, rest, active) = search_rounds_total setup t answers r.in_order still in
    (u, act ∷ acts, rw (done, rest) refl, active)
  where
    or_true : (b : Bool) → (b || true) ≡ true
    or_true true = refl
    or_true false = refl

-- From a WiFi storage that is in order, the task runs on through any rounds. Once a round starts more than ten seconds after the last
-- connection, no round before it having a link, the access point is open, and it stays open in all later rounds.
pub search_rounds-opens :
    (setup : Setup) (s : SearchTask) (early : List Answers) (a : Answers) (late : List Answers)
    → IsInOrder s.app.wifi
    → AllDown early
    → 10 < (a.now / 1_000_000 % 2 ^ 32 + 2 ^ 32 - s.last_conn) % 2 ^ 32
    → (t : SearchTask) × (actions : List Actions) × (search_rounds setup s (early ++ a ∷ late)
        ≡ some (t, actions))
      × (t.app.ap.active ≡ true)
unfolding search_rounds
search_rounds-opens setup s [] a late v down gone =
    let (t, act, done, r) = search_round-Rounded setup s a v in
    let opened : t.app.ap.active ≡ true = r.active ∙ rw (lt→ltb 10 (since s a) gone) refl in
    let (u, acts, rest, active) = search_rounds_total setup t late r.in_order opened in
    (u, act ∷ acts, rw (done, rest) refl, active)
search_rounds-opens setup s (b ∷ early) a late v down gone =
    let (t, act, done, r) = search_round-Rounded setup s b v in
    let same : t.last_conn ≡ s.last_conn = r.last ∙ rw down.0 refl in
    let (u, acts, rest, active) =
      search_rounds-opens setup t early a late r.in_order down.1 (rw same gone) in
    (u, act ∷ acts, rw (done, rest) refl, active)
