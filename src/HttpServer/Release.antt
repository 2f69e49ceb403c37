-- ===== src/HttpServer/Release.antt =====
-- Handling a packet leaves no message buffer in use.
use pico_modbus_meter.Base.{
  ℕ, zero, suc, ◌<◌, ◌≡◌, refl, sym, ap, ◌∙◌, subst, inl, inr, Bool, true, false, ◌||◌, Option,
  none, some, List, [], ◌∷◌, map, arith, ltb, leb, ◌==◌, if◌then◌else◌, length, get_elem?, set,
  Bool-cases, length-set, set-set,
}
use pico_modbus_meter.Base.Yields.{Yields, nothing, result, Yields-bind, Yields-at, if_Yields}
use pico_modbus_meter.HttpServer.{
  MessageBuffer, clear_message, Err, Event, send_data, note, pbuf_free, err_ok, buf_size,
}
use pico_modbus_meter.HttpServer.Request.{req_update_structured_views}
use pico_modbus_meter.HttpServer.Serve.{
  Server, claim, respond, process_request, recieve_packet, tcp_server_recv, select, process_with,
  recieve_into,
}
use pico_modbus_meter.Lwip.{Pbuf}
use pico_modbus_meter.StaticString.{sv}
use pico_modbus_meter.Base.Memory.{◌>>=◌, >>=-eq-some}

-- which buffers are in use
abbrev pub flags : List MessageBuffer → List Bool
flags ms = map (λ m. m.used) ms

flags-set :
    (ms : List MessageBuffer) (i : ℕ) (m : MessageBuffer)
    → flags (set ms i m) ≡ set (flags ms) i m.used
flags-set [] i m = refl
flags-set (x ∷ ms) zero m = refl
flags-set (x ∷ ms) (suc i) m = ap (◌∷◌ x.used) (flags-set ms i m)

set-same :
    (ms : List MessageBuffer) (i : ℕ) (m : MessageBuffer)
    → get_elem? ms i ≡ some m
    → set (flags ms) i m.used ≡ flags ms
set-same [] i m e = cc
set-same (x ∷ ms) zero m e = let same : x ≡ m = cc in ap (λ y. y.used ∷ flags ms) (sym same)
set-same (x ∷ ms) (suc i) m e = ap (◌∷◌ x.used) (set-same ms i m e)

-- There is a free buffer at the index.
abbrev Claimed : List MessageBuffer → ℕ → Type 0
Claimed ms i = (m : MessageBuffer) × (get_elem? ms i ≡ some m) × (m.used ≡ false) × (i < length ms)

claim-free : (ms : List MessageBuffer) (i : ℕ) → claim ms ≡ some i → Claimed ms i
unfolding claim
claim-free [] i e = cc
claim-free (x ∷ ms) i e = elim (Bool-cases x.used) [
  | inl busy ↦
      let (j, found, next) = >>=-eq-some (claim ms) (λ i. some (suc i)) (rw busy at e) in
      let (m, at, free, within) = claim-free ms j found in
      let place : suc j ≡ i = cc in
      subst (Claimed (x ∷ ms)) place (m, at, free, omega (arith, within))
  | inr free ↦
      let place : 0 ≡ i = cc (rw free at e) in
      subst (Claimed (x ∷ ms)) place (x, refl, free, omega arith)
]

-- The flags of a server are these.
abbrev Flagged : {A : Type 0} → List Bool → List Bool → Server A → Type 0
Flagged recieve send after =
    (flags after.recieve_buffers ≡ recieve) × (flags after.send_buffers ≡ send)

-- freeing the packet keeps the buffers
Yields-after :
    {A : Type 0} {recieve send : List Bool} (r : Option (Server A))
    → Yields (Flagged recieve send) r
    → Yields {A = Err × Server A}
        (λ after. Flagged recieve send after.1)
        (r >>= λ after. some (err_ok, record after { net = note pbuf_free after.net }))
Yields-after none h = nothing
Yields-after (some s) h = result (Yields-at _ s h refl)

module _ {A : Type 0} (close_err : List Event → ℕ → Err) where
  respond-flags :
      (server : Server A) (i : ℕ) (recieve : MessageBuffer) (j : ℕ) (send : MessageBuffer)
      (client : ℕ)
      → Yields
          (Flagged
            (set (flags server.recieve_buffers) i false)
            (set (flags server.send_buffers) j false))
          (respond close_err server i recieve j send client)
  unfolding respond clear_message
  respond-flags server i recieve j send client =
      Yields-bind (req_update_structured_views recieve) _ (λ request.
        Yields-bind
          (select server request request (record send { used = true; tpcb = client }) server.app
            server.net)
          _
          (λ (response, app, net). Yields-bind (sv response.buffer) _ (λ frame.
            Yields-bind (send_data close_err frame client net) _ (λ (err, net').
              result (flags-set server.recieve_buffers i _, flags-set server.send_buffers j _)))))

  process_with-flags :
      (server : Server A) (i client : ℕ) (recieve : MessageBuffer) (o : Option ℕ)
      → claim server.send_buffers ≡ o
      → Yields
          (Flagged (set (flags server.recieve_buffers) i false) (flags server.send_buffers))
          (process_with close_err server i client recieve o)
  unfolding process_with clear_message
  process_with-flags server i client recieve none e =
      result (flags-set server.recieve_buffers i _, refl)
  process_with-flags server i client recieve (some j) e =
      let (m, at, free, _) = claim-free server.send_buffers j e in
      let same : set (flags server.send_buffers) j false ≡ flags server.send_buffers =
        sym (ap (set (flags server.send_buffers) j) free) ∙ set-same server.send_buffers j m at in
      Yields-bind (get_elem? server.send_buffers j) _
        (λ send. rw same at (respond-flags server i recieve j send client))

  process_request-flags :
      (server : Server A) (i client : ℕ)
      → i < length server.recieve_buffers
      → Yields
          (Flagged (set (flags server.recieve_buffers) i false) (flags server.send_buffers))
          (process_request close_err server i client)
  unfolding process_request
  process_request-flags server i client h =
      let inside : leb (length server.recieve_buffers) i ≡ false = ground arith in
      rw inside (
        Yields-bind (get_elem? server.recieve_buffers i) _
          (λ recieve. process_with-flags server i client recieve (claim server.send_buffers) refl))

  recieve_into-flags :
      (server : Server A) (tpcb : ℕ) (p : Pbuf) (o : Option ℕ)
      → claim server.recieve_buffers ≡ o
      → Yields
          (Flagged (flags server.recieve_buffers) (flags server.send_buffers))
          (recieve_into close_err server tpcb p o)
  unfolding recieve_into
  recieve_into-flags server tpcb p none e = result (refl, refl)
  recieve_into-flags server tpcb p (some i) e =
      let (m, at, free, within) = claim-free server.recieve_buffers i e in
      let same : (m' : MessageBuffer)
          → set (flags (set server.recieve_buffers i m')) i false ≡ flags server.recieve_buffers =
        λ m'.
          ap (λ fs. set fs i false) (flags-set server.recieve_buffers i m')
          ∙ (set-set (flags server.recieve_buffers) i _ false
              ∙ (sym (ap (set (flags server.recieve_buffers) i) free)
                  ∙ set-same server.recieve_buffers i m at)) in
      Yields-bind (get_elem? server.recieve_buffers i) _ (λ m. rw (same _) at (
        process_request-flags
          (record server { recieve_buffers = set server.recieve_buffers i (recieve_packet p m) }) i
          tpcb (omega (arith, within, length-set server.recieve_buffers i (recieve_packet p m)))))

  recv-Yields :
      (server : Server A) (tpcb : ℕ) (p : Option Pbuf)
      → Yields
          (λ after. Flagged (flags server.recieve_buffers) (flags server.send_buffers) after.1)
          (tcp_server_recv close_err server tpcb p)
  unfolding tcp_server_recv
  recv-Yields server tpcb none = result (refl, refl)
  recv-Yields server tpcb (some p) =
      Yields-after
        (if ltb buf_size p.tot_len || p.tot_len == 0
          then some server
          else recieve_into close_err server tpcb p (claim server.recieve_buffers))
        (if_Yields (ltb buf_size p.tot_len || p.tot_len == 0) (result (refl, refl))
          (recieve_into-flags server tpcb p (claim server.recieve_buffers) refl))

  -- Whatever the packet, the endpoints and the answers of lwIP are: when `tcp_server_recv` returns, the same receive and send
  -- buffers are in use as before, so that an idle server can take the next request.
  pub tcp_server_recv-flags :
      (server : Server A) (tpcb : ℕ) (p : Option Pbuf) (err : Err) (after : Server A)
      → tcp_server_recv close_err server tpcb p ≡ some (err, after)
      → (flags after.recieve_buffers ≡ flags server.recieve_buffers)
        × (flags after.send_buffers ≡ flags server.send_buffers)
  unfolding tcp_server_recv
  tcp_server_recv-flags server tpcb p err after e =
      Yields-at _ (err, after) (recv-Yields server tpcb p) e
