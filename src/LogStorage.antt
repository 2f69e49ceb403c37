-- ===== src/LogStorage.antt =====
-- include/log_storage.h and src/log_storage.cpp: the log, a ring buffer of 128 entries of at most 64
-- bytes. A text that `std::format` produces is an argument; what goes to `std::cout` is a result. A
-- pointer to an entry is its index.
pub mod Push
pub mod Print
pub mod Samples
mod Tests
use pico_modbus_meter.Base.{
  ℕ, ◌+◌, Bool, ◌&&◌, not, Option, none, some, List, [], ◌∷◌, ◌++◌, length, ltb, ◌==◌,
  if◌then◌else◌, get_elem?, set, codes,
}
use pico_modbus_meter.Base.Memory.{◌>>=◌}
use pico_modbus_meter.StaticString.{StaticString, sv, fill, fill_formatted, append_formatted}
use pico_modbus_meter.RingBuffer.{RingBuffer, push_slot, for_each}

abbrev pub max_logs : ℕ
max_logs = 128

abbrev pub max_log_length : ℕ
max_log_length = 64

pub data LogSeverity : Type 0 where
  info : LogSeverity
  warning : LogSeverity
  error : LogSeverity
  fatal : LogSeverity

-- the value of the enumerator
abbrev pub rank : LogSeverity → ℕ
rank info = 0
rank warning = 1
rank error = 2
rank fatal = 3

pub record LogEntry : Type 0 where
  pub severity : LogSeverity
  pub message : StaticString

pub record LogStorage : Type 0 where
  pub logs : RingBuffer LogEntry
  pub cur_severity : LogSeverity
  pub print_to_cout : Bool

-- `entry = e`, through the pointer that `push` returned
abbrev pub set_entry : LogStorage → ℕ → LogEntry → LogStorage
set_entry s slot e = record s { logs = record s.logs { storage = set s.logs.storage slot e } }

-- The entry that is handed out, the log after it, and what is printed.
abbrev pub Pushed : Type 0
Pushed = Option ℕ × LogStorage × List (List ℕ)

unfoldable pub push : LogStorage → LogSeverity → List ℕ → Option Pushed
push s severity static_message =
    if ltb (rank severity) (rank s.cur_severity)
    then some (none, s, [])
    else (let shown =
          (if s.print_to_cout && not (length static_message == 0)
            then static_message ∷ []
            else []) in
        let (slot, logs') = push_slot max_logs s.logs in
        get_elem? logs'.storage slot >>= λ old.
        (if length static_message == 0
          then some old.message
          else fill max_log_length old.message static_message)
        >>= λ m. some (
          some slot,
          set_entry (record s { logs = logs' }) slot (record { severity = severity; message = m }),
          shown,
        ))

-- `LogInfo`, `LogWarning`, `LogError` and `LogFatal` with a message: the log, and what is printed.
unfoldable pub log_static : LogStorage → LogSeverity → List ℕ → Option (LogStorage × List (List ℕ))
log_static s severity message = push s severity message >>= λ (slot, s', shown). some (s', shown)

-- What the formatting functions do with the entry that they get.
abbrev pub fill_entry : LogStorage → ℕ → List ℕ → Option (LogStorage × List (List ℕ))
fill_entry s slot text = get_elem? s.logs.storage slot >>= λ e.
    fill_formatted max_log_length e.message text >>= λ (m, size).
    let s' = set_entry s slot (record e { message = m }) in
    if s.print_to_cout then (sv m >>= λ shown. some (s', shown ∷ [])) else some (s', [])

-- The same four functions with a format; `text` is the formatted text.
unfoldable pub log_formatted :
    LogStorage → LogSeverity → List ℕ → Option (LogStorage × List (List ℕ))
log_formatted s severity text = push s severity [] >>= λ (slot, s', shown). elim slot [
  | none ↦ some (s', [])
  | some i ↦ fill_entry s' i text
]

abbrev pub label : LogSeverity → List ℕ
label info = codes "[Info   ]: "
label warning = codes "[Warning]: "
label error = codes "[Error  ]: "
label fatal = codes "[Fatal  ]: "

-- One round of the loop of `print_errors`, into a string of `n` bytes: the string and the sum.
abbrev pub print_entry : ℕ → LogEntry → StaticString × ℕ → Option (StaticString × ℕ)
print_entry n e (dst, s) = sv e.message >>= λ message.
    append_formatted n dst (label e.severity ++ message ++ 10 ∷ []) >>= λ (dst', k).
    some (dst', s + k)

abbrev pub print_entries : ℕ → List LogEntry → StaticString × ℕ → Option (StaticString × ℕ)
print_entries n [] r = some r
print_entries n (e ∷ es) r = print_entry n e r >>= λ r'. print_entries n es r'

unfoldable pub print_errors : ℕ → LogStorage → StaticString → Option (StaticString × ℕ)
print_errors n s dst = for_each max_logs s.logs >>= λ es. print_entries n es (dst, 0)
