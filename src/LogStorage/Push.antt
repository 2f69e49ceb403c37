-- ===== src/LogStorage/Push.antt =====
-- What logging a message does to the entries of the log.
use pico_modbus_meter.Base.{
  ℕ, ◌^◌, ◌≤◌, ◌<◌, ◌≡◌, refl, sym, ap, ◌∙◌, subst, Bool, true, false, ◌&&◌, Option, none, some,
  List, [], ◌∷◌, ◌++◌, length, take, drop, get_or, get_elem?, set, ltb, ◌==◌, if◌then◌else◌, arith,
  ℕ_discrete, ne→==, Bool-cases, inl, inr, get_elem?-eq-get_or, get_or-set_self, get_or-set_ne,
  get_elem?-set_self, set-set,
}
use pico_modbus_meter.StaticString.{StaticString}
use pico_modbus_meter.StaticString.Bounds.{text, sv-text, fill_lem, fill_formatted_lem}
use pico_modbus_meter.StaticString.Bounds
use pico_modbus_meter.RingBuffer.{RingBuffer, push_slot}
use pico_modbus_meter.RingBuffer
use pico_modbus_meter.RingBuffer.Window.{contents, push_room, push_full, push-IsValid}
use pico_modbus_meter.RingBuffer.Window
use pico_modbus_meter.LogStorage.{
  LogSeverity, info, LogEntry, LogStorage, rank, max_logs, max_log_length, set_entry, push,
  log_static, log_formatted, fill_entry,
}

-- stands for no entry
abbrev pub blank : LogEntry
blank = record { severity = info; message = record { storage = []; cur_size = 0 } }

pub record IsValid (s : LogStorage) : Type 0 where
  pub ring : Window.IsValid max_logs s.logs
  pub messages :
      (i : ℕ) → i < max_logs → Bounds.IsValid max_log_length (get_or s.logs.storage i blank).message

-- the entries, oldest first
abbrev pub entries : LogStorage → List LogEntry
entries s = contents max_logs blank s.logs

-- the entries that stay when one is added
abbrev pub recent : LogStorage → List LogEntry
recent s = if s.logs.full then drop 1 (entries s) else entries s

-- The log has become `s'` by one new entry, which has the severity and the text; the others stay,
-- but for the oldest in a full log.
pub record Logged (s s' : LogStorage) (severity : LogSeverity) (t : List ℕ) : Type 0 where
  pub valid : IsValid s'
  pub entry : LogEntry
  pub added : entries s' ≡ recent s ++ entry ∷ []
  pub has_severity : entry.severity ≡ severity
  pub has_text : text entry.message ≡ t

-- the log after `push`, with `e` in the slot
abbrev put : LogStorage → LogEntry → LogStorage
put s e =
    set_entry (record s { logs = (push_slot max_logs s.logs).1 }) (push_slot max_logs s.logs).0 e

put-Logged :
    (s : LogStorage) (e : LogEntry)
    → IsValid s
    → Bounds.IsValid max_log_length e.message
    → Logged s (put s e) e.severity (text e.message)
unfolding RingBuffer.push push_slot
put-Logged s e v w = record {
  valid = record {
    ring = push-IsValid max_logs s.logs e v.ring;
    messages = λ i h. elim (ℕ_discrete s.logs.cur_write i) [
      | yes q ↦
          subst (λ (x : LogEntry). Bounds.IsValid max_log_length x.message)
            (sym (get_or-set_self s.logs.storage i e blank (omega (arith, v.ring.capacity)))
              ∙ ap (λ j. get_or (set s.logs.storage j e) i blank) (sym q))
            w
      | no q ↦
          subst (λ (x : LogEntry). Bounds.IsValid max_log_length x.message)
            (sym (get_or-set_ne s.logs.storage s.logs.cur_write i e blank q)) (v.messages i h)
    ];
  };
  entry = e;
  added = elim (Bool-cases s.logs.full) [
    | inl full ↦
        push_full max_logs blank s.logs e v.ring full ∙ ap (λ b. kept b ++ e ∷ []) (sym full)
    | inr room ↦
        push_room max_logs blank s.logs e v.ring room ∙ ap (λ b. kept b ++ e ∷ []) (sym room)
  ];
  has_severity = refl;
  has_text = refl;
}
  where
    kept : Bool → List LogEntry
    kept b = if b then drop 1 (entries s) else entries s

and_true : (b : Bool) → (b && true) ≡ b
and_true true = refl
and_true false = refl

push_slot-old :
    (s : LogStorage)
    → IsValid s
    → get_elem? (push_slot max_logs s.logs).1.storage (push_slot max_logs s.logs).0
      ≡ some (get_or s.logs.storage s.logs.cur_write blank)
unfolding push_slot
push_slot-old s v =
    get_elem?-eq-get_or s.logs.storage s.logs.cur_write blank
      (omega (arith, v.ring.capacity, v.ring.write_in))

-- A message of at least one byte whose severity is not below the threshold becomes the newest entry
-- of a valid log, cut to 64 bytes. It is printed if printing is on.
pub log_static-Logged :
    (s : LogStorage) (severity : LogSeverity) (message : List ℕ)
    → IsValid s
    → ltb (rank severity) (rank s.cur_severity) ≡ false
    → 0 < length message
    → (s' : LogStorage) × (log_static s severity message
        ≡ some (s', if s.print_to_cout then message ∷ [] else []))
      × Logged s s' severity (take max_log_length message)
unfolding log_static push
log_static-Logged s severity message v pass some_text =
    let old = get_or s.logs.storage s.logs.cur_write blank in
    let (m, filled, valid, shown) =
      fill_lem max_log_length old.message message
        (v.messages s.logs.cur_write (omega (arith, v.ring.write_in))) in
    let nonempty : (length message == 0) ≡ false = ne→== (length message) 0 (omega arith) in
    (
      put s (record { severity = severity; message = m }),
      rw (pass, nonempty, push_slot-old s v, filled) (rw (and_true s.print_to_cout)),
      subst (Logged s _ severity) shown
          (put-Logged s (record { severity = severity; message = m }) v valid),
    )

-- A message below the threshold changes nothing and prints nothing.
pub log_below :
    (s : LogStorage) (severity : LogSeverity) (message : List ℕ)
    → ltb (rank severity) (rank s.cur_severity) ≡ true
    → (log_static s severity message ≡ some (s, []))
      × (log_formatted s severity message ≡ some (s, []))
unfolding log_static log_formatted push
log_below s severity message below = (rw below, rw below)

formatted_entry :
    (s : LogStorage) (severity : LogSeverity) (t : List ℕ)
    → IsValid s
    → ltb (rank severity) (rank s.cur_severity) ≡ false
    → log_formatted s severity t
      ≡ fill_entry
          (put s (record {
            severity = severity;
            message = (get_or s.logs.storage s.logs.cur_write blank).message;
          }))
          s.logs.cur_write
          t
unfolding log_formatted push push_slot
formatted_entry s severity t v pass = rw (pass, push_slot-old s v)

refilled :
    (s : LogStorage) (e : LogEntry) (m : StaticString)
    → set_entry (put s e) s.logs.cur_write (record e { message = m })
      ≡ put s (record e { message = m })
unfolding push_slot
refilled s e m =
    ap (λ xs. record s { logs = record (push_slot max_logs s.logs).1 { storage = xs } })
      (set-set s.logs.storage s.logs.cur_write e (record e { message = m }))

put-same :
    (s : LogStorage) (e : LogEntry)
    → IsValid s
    → get_elem? (put s e).logs.storage s.logs.cur_write ≡ some e
unfolding push_slot
put-same s e v =
    get_elem?-set_self s.logs.storage s.logs.cur_write e
      (omega (arith, v.ring.capacity, v.ring.write_in))

module _ (s : LogStorage) (severity : LogSeverity) (t : List ℕ) (v : IsValid s)
    (pass : ltb (rank severity) (rank s.cur_severity) ≡ false) where
  abbrev old_message : StaticString
  old_message = (get_or s.logs.storage s.logs.cur_write blank).message

  abbrev old : LogEntry
  old = record { severity = severity; message = old_message }

  abbrev result : LogStorage → List (List ℕ) → Option (LogStorage × List (List ℕ))
  result s' shown = some (s', shown)

  shows_if :
      (b : Bool) (s' : LogStorage)
      → (if b then result s' (t ∷ []) else result s' []) ≡ result s' (if b then t ∷ [] else [])
  shows_if true s' = refl
  shows_if false s' = refl

  -- The formatted text of a message that passes the threshold becomes the newest entry of a valid
  -- log if it has at most 64 bytes. It is printed if printing is on.
  pub log_formatted-Logged :
      length t ≤ max_log_length
      → (s' : LogStorage) × (log_formatted s severity t
          ≡ some (s', if s.print_to_cout then t ∷ [] else []))
        × Logged s s' severity t
  log_formatted-Logged short =
      let (m, filled, _, fits, _) =
        fill_formatted_lem max_log_length old_message t
          (v.messages s.logs.cur_write (omega (arith, v.ring.write_in))) (omega arith) in
      let (valid, shown) = fits short in
      (
        put s (record { severity = severity; message = m }),
        formatted_entry s severity t v pass
            ∙ rw (put-same s old v, filled, refilled s old m, sv-text valid, shown)
                (shows_if s.print_to_cout (put s (record { severity = severity; message = m }))),
        subst (Logged s _ severity) shown
            (put-Logged s (record { severity = severity; message = m }) v valid),
      )

  -- In a valid log that prints, a message that passes the threshold and whose text has more than 64
  -- bytes, and less than 2 ^ 32, makes the log read past the stored message.
  pub log_formatted-overlong :
      max_log_length < length t
      → length t < 2 ^ 32
      → s.print_to_cout ≡ true
      → log_formatted s severity t ≡ none
  log_formatted-overlong long small prints =
      let (m, filled, _, _, past) =
        fill_formatted_lem max_log_length old_message t
          (v.messages s.logs.cur_write (omega (arith, v.ring.write_in))) (omega arith) in
      formatted_entry s severity t v pass ∙ rw (put-same s old v, filled, prints, past long)
