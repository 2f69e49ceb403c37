-- ===== src/Main/Samples.antt =====
-- The search task without a network in reach.
use pico_modbus_meter.Base.{ℕ, true, false, none}
use pico_modbus_meter.WebServer.Samples.{device}
use pico_modbus_meter.WifiStorage.Samples.{fresh}
use pico_modbus_meter.Main.{SearchTask, Answers}

abbrev pub searching : SearchTask
searching = record {
  app = record device { wifi = fresh; ap = record device.ap { active = false } };
  last_conn = 0;
}

-- the answers at a time in microseconds, without a link
abbrev pub silent : ℕ → Answers
silent now = record {
  now = now;
  link_up = false;
  accepted = true;
  scanning = false;
  scan_starts = true;
  scan_now = now;
  scan_later = now;
  ntp_pcb = none;
  ntp_address = none;
}
