-- ===== src/HttpServer/Sending.antt =====
-- What `send_data` hands to lwIP.
use pico_modbus_meter.Base.{
  ℕ, suc, ◌+◌, ◌-◌, ◌≤◌, ◌<◌, min, ◌≡◌, refl, sym, ap, ◌∙◌, inl, inr, true, false, ◌&&◌, Option,
  some, List, [], ◌∷◌, ◌++◌, append-nil, append_assoc, arith, ltb, ◌==◌, if◌then◌else◌, length,
  take, drop, Bool-cases, length-drop, ==_iff, take-append-drop, lt→ltb,
}
use pico_modbus_meter.HttpServer.{
  Err, err_ok, is_ok, Event, tcp_write, tcp_output, task_delay, set_callbacks, clear_callbacks,
  tcp_close, tcp_abort, tcp_listen, pbuf_free, Round, Net, note, again, next_retry, send_round,
  send_rounds, send_data,
}

-- the bytes that lwIP took for a client, in their order
abbrev pub written_by : ℕ → Event → List ℕ
written_by client (tcp_write pcb bytes) = if pcb == client then bytes else []
written_by client (tcp_output pcb) = []
written_by client task_delay = []
written_by client (set_callbacks pcb) = []
written_by client (clear_callbacks pcb) = []
written_by client (tcp_close pcb) = []
written_by client (tcp_abort pcb) = []
written_by client (tcp_listen pcb) = []
written_by client pbuf_free = []

abbrev pub written : ℕ → List Event → List ℕ
written client [] = []
written client (e ∷ es) = written_by client e ++ written client es

pub written-append :
    (client : ℕ) (es fs : List Event)
    → written client (es ++ fs) ≡ written client es ++ written client fs
written-append client [] fs = refl
written-append client (e ∷ es) fs =
    ap (◌++◌ (written_by client e)) (written-append client es fs)
    ∙ sym (append_assoc (written_by client e) (written client es) (written client fs))

-- the rounds in which a write fails
abbrev pub failures : List Round → ℕ
failures [] = 0
failures (r ∷ rs) = if is_ok r.write_err then failures rs else suc (failures rs)

-- the rounds in which a write succeeds and there is room for a byte
abbrev pub progress : List Round → ℕ
progress [] = 0
progress (r ∷ rs) = if is_ok r.write_err && ltb 0 r.sndbuf then suc (progress rs) else progress rs

pub data Outputs : List Round → Type 0 where
  no_rounds : Outputs []
  round : {r : Round} {rs : List Round} → is_ok r.output_err ≡ true → Outputs rs → Outputs (r ∷ rs)

-- Every `tcp_output` of the rounds succeeds, fewer than ten writes are refused, and at least `k` writes succeed with room
-- for a byte or more.
pub record Serves (k : ℕ) (rounds : List Round) : Type 0 where
  pub outputs : Outputs rounds
  pub few : failures rounds < 10
  pub enough : k ≤ progress rounds

-- a call of `tcp_write` and `tcp_output` for the client
abbrev pub after_write : ℕ → List ℕ → Net → Net
after_write client bytes net = note (tcp_output client) (note (tcp_write client bytes) net)

pub written-after_write :
    (client : ℕ) (bytes : List ℕ) (net : Net)
    → written client (after_write client bytes net).events ≡ written client net.events ++ bytes
unfolding note
written-after_write client bytes net =
    let own : (client == client) ≡ true = (==_iff client client).1 refl in
    written-append client (net.events ++ (tcp_write client bytes ∷ [])) (tcp_output client ∷ [])
    ∙ (append-nil _
        ∙ (written-append client net.events (tcp_write client bytes ∷ [])
            ∙ rw own (ap (◌++◌ (written client net.events)) (append-nil bytes))))

progress-taken :
    (r : Round) (rs : List Round)
    → is_ok r.write_err ≡ true
    → progress (r ∷ rs) ≤ progress rs + min r.sndbuf 1
progress-taken r rs taken = rw taken (ground arith)

-- The call ends with success: `bytes` were written after what `net` has, the slots stay, and `k`
-- more bytes can be taken in the rounds that are left.
abbrev pub Sends : Option (Err × Net) → List Round → ℕ → List ℕ → ℕ → Net → Type 0
Sends result rounds k bytes client net =
    (net' : Net) × (result ≡ some (err_ok, net'))
    × Outputs net'.rounds
    × (failures net'.rounds ≤ failures rounds)
    × (k ≤ progress net'.rounds)
    × (written client net'.events ≡ written client net.events ++ bytes)
    × (net'.client_pcbs ≡ net.client_pcbs)

-- a write of the first bytes, and a call for the others
Sends-after_write :
    (result : Option (Err × Net)) (rs : List Round) (k n : ℕ) (bytes : List ℕ) (client : ℕ)
    (net : Net)
    → Sends result rs k (drop n bytes) client (after_write client (take n bytes) net)
    → Sends result rs k bytes client net
unfolding note
Sends-after_write result rs k n bytes client net (net', e, o, f, p, w, c) = (
  net',
  e,
  o,
  f,
  p,
  w
      ∙ (ap (λ x. x ++ drop n bytes) (written-after_write client (take n bytes) net)
          ∙ (append_assoc (written client net.events) (take n bytes) (drop n bytes)
              ∙ ap (◌++◌ (written client net.events)) (take-append-drop n bytes))),
  c,
)

-- a round in which a write fails
Sends-delay :
    (result : Option (Err × Net)) (rs : List Round) (k : ℕ) (bytes : List ℕ) (client : ℕ)
    (net : Net)
    → Sends result rs k bytes client (note task_delay net)
    → Sends result rs k bytes client net
unfolding note
Sends-delay result rs k bytes client net (net', e, o, f, p, w, c) = (
  net',
  e,
  o,
  f,
  p,
  w ∙ ap (λ x. x ++ bytes) (written-append client net.events (task_delay ∷ []) ∙ append-nil _),
  c,
)

Sends-step :
    (result' : Option (Err × Net)) (rs rounds : List Round) (k : ℕ) (bytes : List ℕ) (client : ℕ)
    (net : Net) {result : Option (Err × Net)}
    → result' ≡ result
    → failures rs ≤ failures rounds
    → Sends result rs k bytes client net
    → Sends result' rounds k bytes client net
Sends-step result' rs rounds k bytes client net same h (net', e, o, f, p, w, c) =
    (net', same ∙ e, o, omega (arith, f, h), p, w, c)

send_round-taken :
    (r : Round) (retry : ℕ) (bytes : List ℕ) (client : ℕ) (net : Net)
    → is_ok r.write_err ≡ true
    → is_ok r.output_err ≡ true
    → send_round r retry bytes client net
      ≡ again retry
          (drop (min r.sndbuf (length bytes)) bytes)
          (after_write client (take (min r.sndbuf (length bytes)) bytes) net)
unfolding send_round
send_round-taken r retry bytes client net taken out = rw (taken, out) refl

send_round-refused :
    (r : Round) (retry : ℕ) (bytes : List ℕ) (client : ℕ) (net : Net)
    → is_ok r.write_err ≡ false
    → 1 < retry
    → send_round r retry bytes client net ≡ again (retry - 1) bytes (note task_delay net)
unfolding send_round next_retry
send_round-refused r retry bytes client net refused h = rw (refused, lt→ltb 1 retry h) refl

-- The rounds from some round on send what is left.
sends :
    (close_err : List Event → ℕ → Err) (rounds : List Round) (retry k : ℕ) (bytes : List ℕ)
    (client : ℕ) (net : Net)
    → Outputs rounds
    → failures rounds < retry
    → length bytes + k ≤ progress rounds
    → Sends (send_rounds close_err rounds retry bytes client net) rounds k bytes client net
unfolding send_rounds
sends close_err rounds retry k [] client net o f p = (
  record net { rounds = rounds },
  refl,
  o,
  omega arith,
  omega (arith, p),
  sym (append-nil _),
  refl,
)
sends close_err [] retry k (b ∷ bytes) client net o f p = absurd (omega (arith, p))
sends close_err (r ∷ rs) retry k (b ∷ bytes) client net (round out o) f p =
    elim (Bool-cases (is_ok r.write_err)) [
      | inl taken ↦
          let n : ℕ = min r.sndbuf (suc (length bytes)) in
          Sends-step _ rs (r ∷ rs) k (b ∷ bytes) client net
            (rw (send_rounds, send_round-taken r retry (b ∷ bytes) client net taken out) refl)
            (rw taken (omega arith))
            (Sends-after_write _ rs k n (b ∷ bytes) client net (
              sends close_err rs retry k (drop n (b ∷ bytes)) client
                (after_write client (take n (b ∷ bytes)) net) o (rw taken at f)
                (omega (arith, progress-taken r rs taken, length-drop n (b ∷ bytes), p))))
      | inr refused ↦
          let few : suc (failures rs) < retry = rw refused at f in
          Sends-step _ rs (r ∷ rs) k (b ∷ bytes) client net
            (rw
              (
                send_rounds,
                send_round-refused r retry (b ∷ bytes) client net refused (omega (arith, few)),
              )
              refl)
            (rw refused (omega arith))
            (Sends-delay _ rs k (b ∷ bytes) client net (
              sends close_err rs (retry - 1) k (b ∷ bytes) client (note task_delay net) o
                (omega (arith, few)) (rw refused at p)))
    ]

-- If in the rounds of lwIP every `tcp_output` succeeds, fewer than ten writes are refused, and at least as many writes succeed
-- with room for a byte or more as the text has bytes and `k` besides, then `send_data` ends with success, lwIP was given
-- the whole text, in order, for this client, the slots stay, and the rounds that are left are such rounds for `k` bytes.
pub send_data-completes :
    (close_err : List Event → ℕ → Err) (bytes : List ℕ) (client k : ℕ) (net : Net)
    → Serves (length bytes + k) net.rounds
    → (net' : Net) × (send_data close_err bytes client net ≡ some (err_ok, net'))
      × Serves k net'.rounds
      × (written client net'.events ≡ written client net.events ++ bytes)
      × (net'.client_pcbs ≡ net.client_pcbs)
unfolding send_data
send_data-completes close_err bytes client k net s =
    let (net', e, o, f, p, w, c) =
      sends close_err net.rounds 10 k bytes client net s.outputs s.few s.enough in
    (net', e, record { outputs = o; few = omega (arith, f, s.few); enough = p }, w, c)
