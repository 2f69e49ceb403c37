-- ===== src/LogStorage/Print.antt =====
-- What `print_errors` writes.
use pico_modbus_meter.Base.{
  ℕ, zero, suc, ◌+◌, ◌-◌, ◌%◌, ◌<◌, min, ◌≡◌, refl, sym, ap, ◌∙◌, some, List, [], ◌∷◌, ◌++◌, length,
  take, get_or, arith, append_assoc, append-nil, length-append, length-take, take_all,
  take-take_append,
}
use pico_modbus_meter.StaticString.{StaticString}
use pico_modbus_meter.StaticString.Bounds.{text, sv-text, length-text, append_formatted_lem}
use pico_modbus_meter.StaticString.Bounds
use pico_modbus_meter.RingBuffer.{size}
use pico_modbus_meter.RingBuffer.Window.{window}
use pico_modbus_meter.RingBuffer.Iterate.{for_each_lem}
use pico_modbus_meter.LogStorage.{
  LogEntry, LogStorage, max_logs, max_log_length, label, print_entries, print_errors,
}
use pico_modbus_meter.LogStorage.Push.{IsValid, entries, blank}

-- one line of the output, and the output
abbrev pub line : LogEntry → List ℕ
line e = label e.severity ++ text e.message ++ 10 ∷ []

abbrev pub lines : List LogEntry → List ℕ
lines [] = []
lines (e ∷ es) = line e ++ lines es

-- every message is a valid string
pub data AllValid : List LogEntry → Type 0 where
  nil : AllValid []
  cons :
      {e : LogEntry} {es : List LogEntry}
      → Bounds.IsValid max_log_length e.message
      → AllValid es
      → AllValid (e ∷ es)

pub window-AllValid :
    (xs : List LogEntry) (h k : ℕ)
    → h < max_logs
    → ((i : ℕ) → i < max_logs → Bounds.IsValid max_log_length (get_or xs i blank).message)
    → AllValid (window max_logs blank xs h k)
window-AllValid xs h zero l v = nil
window-AllValid xs h (suc k) l v =
    cons (v h l) (window-AllValid xs ((h + 1) % max_logs) k (omega arith) v)

entries_from :
    (n : ℕ) (es : List LogEntry) (dst : StaticString) (s : ℕ)
    → AllValid es
    → Bounds.IsValid n dst
    → (t : StaticString) × (k : ℕ) × (print_entries n es (dst, s) ≡ some (t, k))
      × Bounds.IsValid n t
      × (text t ≡ take n (text dst ++ lines es))
      × (k + dst.cur_size ≡ s + t.cur_size)
entries_from n [] dst s nil v = (
  dst,
  s,
  refl,
  v,
  rw append-nil (sym (take_all n (text dst) (omega (arith, length-text v, v.within)))),
  refl,
)
entries_from n (e ∷ es) dst s (cons w ws) v =
    let (t, appended, valid, shown) = append_formatted_lem n dst (line e) v in
    let (t', k, rest, valid', shown', sum) =
      entries_from n es t (s + min (length (line e)) (n - dst.cur_size)) ws valid in
    (
      t',
      k,
      rw (sv-text w, appended) rest,
      valid',
      shown'
          ∙ (ap (λ x. take n (x ++ lines es)) shown
              ∙ (take-take_append n (text dst ++ line e) (lines es) ∙ rw append_assoc)),
      omega (
        arith,
        sum,
        ap length shown,
        length-text valid,
        length-take n (text dst ++ line e),
        length-append (text dst) (line e),
        length-text v,
        v.within,
      ),
    )

-- On a valid log and a valid string of `n` bytes, `print_errors` stays in bounds, appends one line for
-- each entry, oldest first, as far as they fit, and returns how many bytes it added.
pub print_errors_lem :
    (n : ℕ) (s : LogStorage) (dst : StaticString)
    → IsValid s
    → Bounds.IsValid n dst
    → (t : StaticString) × (k : ℕ) × (print_errors n s dst ≡ some (t, k))
      × Bounds.IsValid n t
      × (text t ≡ take n (text dst ++ lines (entries s)))
      × (k + dst.cur_size ≡ t.cur_size)
unfolding print_errors
print_errors_lem n s dst v w =
    let (t, k, printed, valid, shown, sum) =
      entries_from n (entries s) dst 0
        (window-AllValid s.logs.storage s.logs.cur_start (size max_logs s.logs) v.ring.start_in
          v.messages)
        w in
    (t, k, rw (for_each_lem max_logs blank s.logs v.ring) printed, valid, shown, omega (arith, sum))
