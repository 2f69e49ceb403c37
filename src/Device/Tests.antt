-- ===== src/Device/Tests.antt =====
-- A device at its start, to which a network is shown, a round of the search task and a command.
use mathlib.Core.Bool.{false≢true}
use pico_modbus_meter.Base.{
  refl, sym, ◌∙◌, ◌≡◌, ℕ, ◌+◌, ◌*◌, ◌/◌, false, arith, codes, true, bytes_eq,
}
use pico_modbus_meter.Main.Samples.{silent}
use pico_modbus_meter.Stream.{Stream, read_word}
use pico_modbus_meter.UsbInterface.{command_of}
use pico_modbus_meter.UsbInterface.Order.{reads_log}
use pico_modbus_meter.LogStorage.Push
use pico_modbus_meter.UsbInterface.Samples.{terminal}
use pico_modbus_meter.WebServer.Samples.{platform}
use pico_modbus_meter.Device.{Device, with_app, after_round, Reach, here, next, searches, finds}
use pico_modbus_meter.Device.Safety.{IsSafe, Reach-IsSafe}
use pico_modbus_meter.Device.Samples.{started, started-IsOrdered}

abbrev mean : ℕ → ℕ → ℕ
mean a b = (4 * a + b) / 5

abbrev entered : Stream
entered = record { chars = codes "cw home 12345678"; fail = false }

first-IsSafe : IsSafe started
first-IsSafe = Reach-IsSafe started-IsOrdered here

-- a network in reach
abbrev shown : Device
shown = with_app started (record started.console.app {
  wifi = (first-IsSafe.scan mean (codes "home") 40 17 (omega arith)).0;
})

shown-Reach : Reach started shown
shown-Reach =
    let (w, done) = first-IsSafe.scan mean (codes "home") 40 17 (omega arith) in
    next here (finds mean (codes "home") 40 17 w (omega arith) done)

shown-IsSafe : IsSafe shown
shown-IsSafe = Reach-IsSafe started-IsOrdered shown-Reach

-- the search task opens the access point
abbrev opened : Device
opened = after_round shown (shown-IsSafe.search platform.setup (silent 12_000_000)).0

opened-Reach : Reach started opened
opened-Reach =
    let (t, actions, done) = shown-IsSafe.search platform.setup (silent 12_000_000) in
    next shown-Reach (searches platform.setup (silent 12_000_000) t actions done)

opened-IsSafe : IsSafe opened
opened-IsSafe = Reach-IsSafe started-IsOrdered opened-Reach

-- the command does not print the log
entered-silent : reads_log (command_of (read_word entered).0) ≡ false
unfolding command_of read_word bytes_eq
entered-silent = refl

entered-unlogged :
    reads_log (command_of (read_word entered).0) ≡ true → Push.IsValid opened.console.app.log
entered-unlogged e = absurd (false≢true (sym entered-silent ∙ e))

abbrev entered_device : Device
entered_device = record opened {
  console = (opened-IsSafe.console terminal entered entered-unlogged).1;
}
