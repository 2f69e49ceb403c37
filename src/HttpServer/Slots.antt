-- ===== src/HttpServer/Slots.antt =====
-- The slots of the clients: who gets one, who loses one, and what `stop` does with them.
use pico_modbus_meter.Base.{
  ℕ, ◌-◌, min, ◌≡◌, refl, sym, ap, ◌∙◌, subst, ◌≢◌, ◌⊎◌, inl, inr, Bool, true, false, not, ◌&&◌,
  ◌||◌, Option, some, List, [], ◌∷◌, ◌++◌, append-nil, append_assoc, arith, ℕ_discrete, ltb, ◌==◌,
  if◌then◌else◌, length, take, drop, Bool-cases, take-append-drop,
}
use pico_modbus_meter.HttpServer.{
  Step, Err, err_ok, err_other, is_ok, Event, task_delay, clear_callbacks, tcp_close, tcp_abort,
  Round, Net, note, send_round, send_rounds, send_data, again, failed, next_retry, clear_client_pcb,
  close_clients, tcp_server_result,
}
use pico_modbus_meter.HttpServer.Sending.{
  written_by, written, written-append, after_write, written-after_write,
}

-- A call that writes nothing for the client.
written-note :
    (client : ℕ) (e : Event) (net : Net)
    → written_by client e ≡ []
    → written client (note e net).events ≡ written client net.events
unfolding note
written-note client e net h =
    written-append client net.events (e ∷ [])
    ∙ (ap (λ x. written client net.events ++ (x ++ [])) h ∙ append-nil _)

-- no slot holds the client
pub data Absent (client : ℕ) : List ℕ → Type 0 where
  no_slots : Absent client []
  other_slot :
      {pcb : ℕ} {pcbs : List ℕ} → pcb ≢ client → Absent client pcbs → Absent client (pcb ∷ pcbs)

module _ (close_err : List Event → ℕ → Err) where
  clear_client_pcb-written :
      (client pcb : ℕ) (net : Net)
      → written client (clear_client_pcb close_err pcb net).1.events ≡ written client net.events
  unfolding clear_client_pcb
  clear_client_pcb-written client pcb net = elim (Bool-cases (is_ok (close_err net.events pcb))) [
    | inl closed ↦ rw closed closing
    | inr left ↦ rw left (
        written-note client (tcp_abort pcb) (note (tcp_close pcb) (note (clear_callbacks pcb) net))
          refl
        ∙ closing)
  ]
    where
      closing :
          written client (note (tcp_close pcb) (note (clear_callbacks pcb) net)).events
          ≡ written client net.events
      closing =
          written-note client (tcp_close pcb) (note (clear_callbacks pcb) net) refl
          ∙ written-note client (clear_callbacks pcb) net refl

  -- Closing a client that is not null writes nothing, and leaves it no slot.
  close_clients-Absent :
      (pcbs : List ℕ) (client : ℕ) (err : Err) (net : Net)
      → client ≢ 0
      → Absent client (close_clients close_err pcbs client err net).0
        × (written client (close_clients close_err pcbs client err net).2.events
            ≡ written client net.events)
  unfolding close_clients
  close_clients-Absent [] client err net h = (no_slots, refl)
  close_clients-Absent (pcb ∷ pcbs) client err net h = elim (ℕ_discrete pcb client) [
    | yes same ↦
        let here : (pcb == 0 || (not (client == 0) && not (pcb == client))) ≡ false =
          ground arith in
        let (absent, w) =
          close_clients-Absent pcbs client (clear_client_pcb close_err pcb net).0
            (clear_client_pcb close_err pcb net).1 h in
        rw here (other_slot (λ z. h (sym z)) absent, w ∙ clear_client_pcb-written client pcb net)
    | no other ↦
        let there : (pcb == 0 || (not (client == 0) && not (pcb == client))) ≡ true =
          ground arith in
        let (absent, w) = close_clients-Absent pcbs client err net h in
        rw there (other_slot other absent, w)
  ]

  -- What a call of `send_data` may do: lwIP has a first part of the bytes, and either it is all or the client
  -- has lost its slot.
  abbrev pub Partial : ℕ → List ℕ → Net → Option (Err × Net) → Type 0
  Partial client bytes net result =
      (err : Err) (net' : Net)
      → result ≡ some (err, net')
      → (sent : List ℕ) × (rest : List ℕ) × (bytes ≡ sent ++ rest)
        × (written client net'.events ≡ written client net.events ++ sent)
        × ((rest ≡ []) ⊎ Absent client net'.client_pcbs)

  tcp_server_result-Partial :
      (client : ℕ) (bytes : List ℕ) (net : Net)
      → client ≢ 0
      → Partial client bytes net (some (tcp_server_result close_err err_other client net))
  unfolding tcp_server_result is_ok
  tcp_server_result-Partial client bytes net h err net' e =
      let (absent, w) = close_clients-Absent net.client_pcbs client err_ok net h in
      let same : (record (close_clients close_err net.client_pcbs client err_ok net).2 {
        client_pcbs = (close_clients close_err net.client_pcbs client err_ok net).0;
      })
          ≡ net' =
        cc in
      (
        [],
        bytes,
        refl,
        ap (λ n. written client n.events) (sym same) ∙ (w ∙ sym (append-nil _)),
        inr (subst (λ n. Absent client n.client_pcbs) same absent),
      )

-- What a round of `send_data` comes to: some first bytes are written, or none; then the loop goes on or fails.
data Comes (bytes : List ℕ) (client : ℕ) (net : Net) : Step → Type 0 where
  wrote :
      (n retry : ℕ)
      → Comes bytes client net (again retry (drop n bytes) (after_write client (take n bytes) net))
  wrote_last : (n : ℕ) → Comes bytes client net (failed (after_write client (take n bytes) net))
  waits : (retry : ℕ) → Comes bytes client net (again retry bytes (note task_delay net))
  gives_up : Comes bytes client net (failed net)

send_round-Comes :
    (r : Round) (retry : ℕ) (bytes : List ℕ) (client : ℕ) (net : Net)
    → Comes bytes client net (send_round r retry bytes client net)
unfolding send_round next_retry
send_round-Comes r retry bytes client net =
    by_write (is_ok r.write_err) (is_ok r.output_err) (ltb 1 retry)
  where
    n : ℕ
    n = min r.sndbuf (length bytes)

    written_net : Net
    written_net = after_write client (take n bytes) net

    by_write :
        (taken out more : Bool)
        → Comes bytes client net (
            if taken
            then (if out then again retry (drop n bytes) written_net else failed written_net)
            else (if more then again (retry - 1) bytes (note task_delay net) else failed net))
    by_write true true more = wrote n retry
    by_write true false more = wrote_last n
    by_write false out true = waits (retry - 1)
    by_write false out false = gives_up

module _ (close_err : List Event → ℕ → Err) where
  Partial-after_write :
      (client n : ℕ) (bytes : List ℕ) (net : Net) (result : Option (Err × Net))
      → Partial close_err client (drop n bytes) (after_write client (take n bytes) net) result
      → Partial close_err client bytes net result
  Partial-after_write client n bytes net result p err net' e =
      let (sent, rest, whole, w, h) = p err net' e in
      (
        take n bytes ++ sent,
        rest,
        sym (take-append-drop n bytes)
            ∙ (ap (◌++◌ (take n bytes)) whole ∙ sym (append_assoc (take n bytes) sent rest)),
        w
            ∙ (ap (λ x. x ++ sent) (written-after_write client (take n bytes) net)
                ∙ append_assoc (written client net.events) (take n bytes) sent),
        h,
      )

  Partial-wait :
      (client : ℕ) (bytes : List ℕ) (net : Net) (result : Option (Err × Net))
      → Partial close_err client bytes (note task_delay net) result
      → Partial close_err client bytes net result
  Partial-wait client bytes net result p err net' e =
      let (sent, rest, whole, w, h) = p err net' e in
      (sent, rest, whole, w ∙ ap (λ x. x ++ sent) (written-note client task_delay net refl), h)

  -- the rest of the loop, given what a round comes to
  abbrev continue : List Round → ℕ → Step → Option (Err × Net)
  continue rounds client (again retry bytes net) =
      send_rounds close_err rounds retry bytes client net
  continue rounds client (failed net) =
      some (tcp_server_result close_err err_other client (record net { rounds = rounds }))

  continue-Partial :
      (rounds : List Round) (bytes : List ℕ) (client : ℕ) (net : Net) (s : Step)
      → client ≢ 0
      → ((retry : ℕ) (bytes : List ℕ) (net : Net)
          → Partial close_err client bytes net
              (send_rounds close_err rounds retry bytes client net))
      → Comes bytes client net s
      → Partial close_err client bytes net (continue rounds client s)
  continue-Partial rounds bytes client net s h rec (wrote n retry) =
      Partial-after_write client n bytes net _
        (rec retry (drop n bytes) (after_write client (take n bytes) net))
  continue-Partial rounds bytes client net s h rec (wrote_last n) =
      Partial-after_write client n bytes net _ (
        tcp_server_result-Partial close_err client (drop n bytes)
          (record (after_write client (take n bytes) net) { rounds = rounds }) h)
  continue-Partial rounds bytes client net s h rec (waits retry) =
      Partial-wait client bytes net _ (rec retry bytes (note task_delay net))
  continue-Partial rounds bytes client net s h rec gives_up =
      tcp_server_result-Partial close_err client bytes (record net { rounds = rounds }) h

  send_rounds-Partial :
      (rounds : List Round) (client : ℕ)
      → client ≢ 0
      → (retry : ℕ) (bytes : List ℕ) (net : Net)
      → Partial close_err client bytes net (send_rounds close_err rounds retry bytes client net)
  unfolding send_rounds
  send_rounds-Partial rounds client h retry [] net err net' e =
      let same : (record net { rounds = rounds }) ≡ net' = cc in
      ([], [], refl, ap (λ n. written client n.events) (sym same) ∙ sym (append-nil _), inl refl)
  send_rounds-Partial [] client h retry (b ∷ bytes) net err net' e = cc
  send_rounds-Partial (r ∷ rounds) client h retry (b ∷ bytes) net err net' e =
      continue-Partial rounds (b ∷ bytes) client net (send_round r retry (b ∷ bytes) client net) h
        (send_rounds-Partial rounds client h) (send_round-Comes r retry (b ∷ bytes) client net) err
        net' e

  -- Whatever lwIP answers, a call of `send_data` for a client that is not null gives lwIP a first part of the
  -- bytes, in order; unless that is all of them, no slot holds the client when the call returns.
  pub send_data-Partial :
      (bytes : List ℕ) (client : ℕ) (net : Net) (err : Err) (net' : Net)
      → client ≢ 0
      → send_data close_err bytes client net ≡ some (err, net')
      → (sent : List ℕ) × (rest : List ℕ) × (bytes ≡ sent ++ rest)
        × (written client net'.events ≡ written client net.events ++ sent)
        × ((rest ≡ []) ⊎ Absent client net'.client_pcbs)
  unfolding send_data
  send_data-Partial bytes client net err net' h e =
      send_rounds-Partial net.rounds client h 10 bytes net err net' e
