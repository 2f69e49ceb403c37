-- ===== src/LogStorage/Tests.antt =====
-- The theorems on the log, applied to it as it is at its start.
use pico_modbus_meter.Base.{ℕ, ◌+◌, ◌≡◌, refl, none, some, ◌++◌, replicate, take, arith}
use pico_modbus_meter.StaticString.{StaticString, empty_string}
use pico_modbus_meter.StaticString.Bounds.{text, empty_string-IsValid}
use pico_modbus_meter.StaticString.Bounds
use pico_modbus_meter.LogStorage.{error, log_formatted, print_errors}
use pico_modbus_meter.LogStorage.Push.{entries, log_formatted-overlong}
use pico_modbus_meter.LogStorage.Print.{lines, print_errors_lem}
use pico_modbus_meter.LogStorage.Samples.{log, log-IsValid}

log_formatted-overlong_example : log_formatted log error (replicate 65 7) ≡ none
log_formatted-overlong_example =
    log_formatted-overlong log error (replicate 65 7) log-IsValid refl (omega arith) (omega arith)
      refl

print_errors_lem_example :
    (t : StaticString) × (k : ℕ) × (print_errors 100 log (empty_string 100) ≡ some (t, k))
    × Bounds.IsValid 100 t
    × (text t ≡ take 100 (text (empty_string 100) ++ lines (entries log)))
    × (k + 0 ≡ t.cur_size)
unfolding empty_string
print_errors_lem_example =
    print_errors_lem 100 log (empty_string 100) log-IsValid (empty_string-IsValid 100 (omega arith))
