-- ===== src/LogStorage/Samples.antt =====
-- The log at its start.
use pico_modbus_meter.Base.{
  sym, subst, true, false, replicate, length-replicate, get_or-replicate, arith,
}
use pico_modbus_meter.StaticString.{empty_string}
use pico_modbus_meter.StaticString.Bounds.{empty_string-IsValid}
use pico_modbus_meter.StaticString.Bounds
use pico_modbus_meter.LogStorage.{info, warning, LogEntry, LogStorage}
use pico_modbus_meter.LogStorage.Push.{IsValid, blank}

abbrev pub start_entry : LogEntry
start_entry = record { severity = info; message = empty_string 64 }

-- the empty log, which keeps warnings and errors and prints them
abbrev pub log : LogStorage
log = record {
  logs = record { storage = replicate 128 start_entry; cur_start = 0; cur_write = 0; full = false };
  cur_severity = warning;
  print_to_cout = true;
}

pub log-IsValid : IsValid log
log-IsValid = record {
  ring = record {
    capacity = length-replicate 128 start_entry;
    positive = omega arith;
    start_in = omega arith;
    write_in = omega arith;
    full_meets = λ e. cc;
  };
  messages = λ i h.
      subst (λ (x : LogEntry). Bounds.IsValid 64 x.message)
        (sym (get_or-replicate 128 start_entry blank i h)) (empty_string-IsValid 64 (omega arith));
}
