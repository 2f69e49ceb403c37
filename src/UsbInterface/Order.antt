-- ===== src/UsbInterface/Order.antt =====
-- The console has a result for every command, if the log is valid where the command prints it, and keeps the objects of the
-- program in order.
use pico_modbus_meter.Base.{
  ℕ, ◌≡◌, refl, sym, ap, subst, Option, none, some, List, [], ◌∷◌, ◌++◌, append_assoc, arith, Bool,
  false, true,
}
use pico_modbus_meter.Base.Memory.{◌>>=◌}
use pico_modbus_meter.Base.Yields.{Yields, result, Yields-bind}
use pico_modbus_meter.Stream.{Stream, read_word}
use pico_modbus_meter.StaticString.{sv}
use pico_modbus_meter.StaticString.Bounds.{text, sv-text, fill_lem}
use pico_modbus_meter.RingBuffer.{size}
use pico_modbus_meter.RingBuffer.Iterate.{for_each_lem}
use pico_modbus_meter.LogStorage.{LogStorage, LogSeverity, LogEntry, label, max_logs}
use pico_modbus_meter.LogStorage.Push
use pico_modbus_meter.LogStorage.Push.{entries, blank}
use pico_modbus_meter.LogStorage.Print.{AllValid, nil, cons, lines, window-AllValid}
use pico_modbus_meter.WifiStorage.{WifiStorage, text_size}
use pico_modbus_meter.WifiStorage.Upkeep.{IsInOrder}
use pico_modbus_meter.WebServer.{App}
use pico_modbus_meter.WebServer.Settings.{credentials}
use pico_modbus_meter.WebServer.Order.{IsOrdered, with_severity-IsOrdered, credentials-IsOrdered}
use pico_modbus_meter.UsbInterface.{
  Console, Terminal, Command, connect_wifi, set_log_level, Outcome, set_level, level_of, log_lines,
  print_logs, wifi_text, connect_with, command_of, run, handle_usb_command,
}

-- The command has a result, and the objects are in order then.
abbrev pub Ordered : Outcome → Type 0
Ordered r =
    (rest : Stream) × (c : Console) × (out : List ℕ) × (r ≡ some (rest, c, out)) × IsOrdered c.app

-- the commands that print the log
abbrev pub reads_log : Command → Bool
reads_log Command.show_log = true
reads_log Command.show_logs = true
reads_log Command.help = false
reads_log Command.status = false
reads_log Command.set_value = false
reads_log Command.enable_wifi = false
reads_log Command.disable_wifi = false
reads_log Command.enable_ap = false
reads_log Command.disable_ap = false
reads_log connect_wifi = false
reads_log set_log_level = false
reads_log Command.separator = false
reads_log Command.follow = false
reads_log Command.unknown = false

-- the objects are in order in this result
abbrev pub Kept : Stream × Console × List ℕ → Type 0
Kept (rest, c, out) = IsOrdered c.app

Ordered-Yields : {r : Outcome} → Ordered r → Yields Kept r
Ordered-Yields (rest, c, out, done, v) = subst (Yields Kept) (sym done) (result v)

log_lines_lem : (es : List LogEntry) → AllValid es → log_lines es ≡ some (lines es)
log_lines_lem [] nil = refl
log_lines_lem (e ∷ es) (cons w ws) =
    rw (sv-text w, log_lines_lem es ws)
      (ap some (sym (append_assoc (label e.severity ++ text e.message) (10 ∷ []) (lines es))))

-- The console prints the lines that `print_errors` does.
pub print_logs_lem : (s : LogStorage) → Push.IsValid s → print_logs s ≡ some (lines (entries s))
unfolding print_logs
print_logs_lem s v = rw (for_each_lem max_logs blank s.logs v.ring) (
    log_lines_lem (entries s) (
      window-AllValid s.logs.storage s.logs.cur_start (size max_logs s.logs) v.ring.start_in
        v.messages))

total-bind :
    {A B : Type 0} (m : Option A) (f : A → Option B) {a : A}
    → m ≡ some a
    → (b : B) × (f a ≡ some b)
    → (b : B) × ((m >>= f) ≡ some b)
total-bind m f e (b, h) = (b, rw e h)

wifi_text_total :
    (t : Terminal) (w : WifiStorage) → IsInOrder w → (out : List ℕ) × (wifi_text t w ≡ some out)
unfolding wifi_text
wifi_text_total t w v =
    total-bind (sv w.ssid_wifi) _ (sv-text v.ssid)
      (total-bind (sv w.hostname) _ (sv-text v.name) (_, refl))

Ordered-bind :
    {A : Type 0} (m : Option A) (f : A → Outcome) {a : A}
    → m ≡ some a
    → Ordered (f a)
    → Ordered (m >>= f)
Ordered-bind m f e h = rw e h

set_level-Ordered :
    (input : Stream) (c : Console) (w : List ℕ) (o : Option LogSeverity)
    → IsOrdered c.app
    → Ordered (set_level input c w o)
set_level-Ordered input c w none v = (input, c, _, refl, v)
set_level-Ordered input c w (some s) v =
    (input, _, [], refl, with_severity-IsOrdered c.app (some s) v)

connect_with-Ordered :
    (c : Console) (ssid pwd : List ℕ) (last : Stream)
    → IsOrdered c.app
    → Ordered (connect_with c ssid (pwd, last))
unfolding connect_with
connect_with-Ordered c ssid pwd last v =
    let (s, made_s, valid_s, _) = fill_lem text_size c.app.wifi.ssid_wifi ssid v.wifi.ssid in
    let (w, made_w, valid_w, _) = fill_lem text_size c.app.wifi.pwd_wifi pwd v.wifi.pwd in
    (
      last,
      record c { app = credentials c.app s w },
      [],
      rw (made_s, made_w) refl,
      credentials-IsOrdered c.app s w valid_s valid_w v,
    )

-- a change of the access point
moved-IsOrdered :
    (app app' : App)
    → app'.wifi ≡ app.wifi
    → app'.addr ≡ app.addr
    → app'.crypto ≡ app.crypto
    → IsOrdered app
    → IsOrdered app'
moved-IsOrdered app app' wifi addr crypto v = record {
  wifi = subst IsInOrder (sym wifi) v.wifi;
  positive = omega (arith, addr, v.positive);
  small = omega (arith, addr, v.small);
  password = rw crypto v.password;
}

run-Ordered :
    (t : Terminal) (k : Command) (w : List ℕ) (input : Stream) (c : Console)
    → (reads_log k ≡ true → Push.IsValid c.app.log)
    → IsOrdered c.app
    → Ordered (run t k w input c)
unfolding run
run-Ordered t Command.help w input c logged v = (input, c, _, refl, v)
run-Ordered t Command.status w input c logged v =
    Ordered-bind (wifi_text t c.app.wifi) _ (wifi_text_total t c.app.wifi v.wifi).1
      (input, c, _, refl, v)
run-Ordered t Command.set_value w input c logged v = (_, _, _, refl, v)
run-Ordered t Command.enable_wifi w input c logged v = (input, _, [], refl, v)
run-Ordered t Command.disable_wifi w input c logged v = (input, _, [], refl, v)
run-Ordered t Command.enable_ap w input c logged v =
    (input, _, [], refl, moved-IsOrdered c.app _ refl refl refl v)
run-Ordered t Command.disable_ap w input c logged v =
    (input, _, [], refl, moved-IsOrdered c.app _ refl refl refl v)
run-Ordered t connect_wifi w input c logged v =
    connect_with-Ordered c (read_word input).0 (read_word (read_word input).1).0
      (read_word (read_word input).1).1 v
run-Ordered t set_log_level w input c logged v =
    set_level-Ordered (read_word input).1 c (read_word input).0 (level_of (read_word input).0) v
run-Ordered t Command.show_log w input c logged v =
    Ordered-bind (print_logs c.app.log) _ (print_logs_lem c.app.log (logged refl))
      (input, c, _, refl, v)
run-Ordered t Command.show_logs w input c logged v =
    Ordered-bind (print_logs c.app.log) _ (print_logs_lem c.app.log (logged refl))
      (input, c, _, refl, v)
run-Ordered t Command.separator w input c logged v = (input, c, _, refl, v)
run-Ordered t Command.follow w input c logged v = (
  input,
  _,
  [],
  refl,
  record { wifi = v.wifi; positive = v.positive; small = v.small; password = v.password },
)
run-Ordered t Command.unknown w input c logged v = (input, c, _, refl, v)

unlogged-keeps :
    (t : Terminal) (k : Command) (w : List ℕ) (input : Stream) (c : Console)
    → reads_log k ≡ false
    → IsOrdered c.app
    → Yields Kept (run t k w input c)
unlogged-keeps t k w input c silent v = Ordered-Yields (run-Ordered t k w input c (λ e. cc) v)

-- whatever the log holds, a command that has a result leaves the objects in order
run-keeps :
    (t : Terminal) (k : Command) (w : List ℕ) (input : Stream) (c : Console)
    → IsOrdered c.app
    → Yields Kept (run t k w input c)
unfolding run
run-keeps t Command.show_log w input c v = Yields-bind (print_logs c.app.log) _ (λ out. result v)
run-keeps t Command.show_logs w input c v = Yields-bind (print_logs c.app.log) _ (λ out. result v)
run-keeps t Command.help w input c v = unlogged-keeps t Command.help w input c refl v
run-keeps t Command.status w input c v = unlogged-keeps t Command.status w input c refl v
run-keeps t Command.set_value w input c v = unlogged-keeps t Command.set_value w input c refl v
run-keeps t Command.enable_wifi w input c v = unlogged-keeps t Command.enable_wifi w input c refl v
run-keeps t Command.disable_wifi w input c v =
    unlogged-keeps t Command.disable_wifi w input c refl v
run-keeps t Command.enable_ap w input c v = unlogged-keeps t Command.enable_ap w input c refl v
run-keeps t Command.disable_ap w input c v = unlogged-keeps t Command.disable_ap w input c refl v
run-keeps t connect_wifi w input c v = unlogged-keeps t connect_wifi w input c refl v
run-keeps t set_log_level w input c v = unlogged-keeps t set_log_level w input c refl v
run-keeps t Command.separator w input c v = unlogged-keeps t Command.separator w input c refl v
run-keeps t Command.follow w input c v = unlogged-keeps t Command.follow w input c refl v
run-keeps t Command.unknown w input c v = unlogged-keeps t Command.unknown w input c refl v

-- With the objects in order, and the log valid if the command prints it, an input to the console has a result, and the objects stay
-- in order.
pub handle_usb_command-Ordered :
    (t : Terminal) (input : Stream) (c : Console)
    → (reads_log (command_of (read_word input).0) ≡ true → Push.IsValid c.app.log)
    → IsOrdered c.app
    → Ordered (handle_usb_command t input c)
unfolding handle_usb_command
handle_usb_command-Ordered t input c logged v =
    run-Ordered t (command_of (read_word input).0) (read_word input).0 (read_word input).1 c logged
      v

-- Whatever the log holds, the objects are in order after an input to the console that has a result.
pub handle_usb_command-keeps :
    (t : Terminal) (input : Stream) (c : Console)
    → IsOrdered c.app
    → Yields Kept (handle_usb_command t input c)
unfolding handle_usb_command
handle_usb_command-keeps t input c v =
    run-keeps t (command_of (read_word input).0) (read_word input).0 (read_word input).1 c v
