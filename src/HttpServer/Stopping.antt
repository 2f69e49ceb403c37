-- ===== src/HttpServer/Stopping.antt =====
-- What `stop` does with the connections of the clients.
use pico_modbus_meter.Base.{
  ℕ, ◌+◌, ◌≡◌, refl, sym, ap, ◌∙◌, ◌≢◌, inl, inr, Bool, true, false, List, [], ◌∷◌, ◌++◌, arith,
  ◌==◌, if◌then◌else◌, length, replicate, Bool-cases, ne→==,
}
use pico_modbus_meter.HttpServer.{
  Err, is_ok, Event, tcp_write, tcp_output, task_delay, set_callbacks, clear_callbacks, tcp_close,
  tcp_abort, tcp_listen, pbuf_free, Net, note, clear_client_pcb,
}
use pico_modbus_meter.HttpServer.Serve.{Server}
use pico_modbus_meter.HttpServer.Lifecycle.{stop_clients, stop}

-- whether a call ends the connection of the pcb
abbrev pub ends : ℕ → Event → Bool
ends pcb (tcp_close p) = p == pcb
ends pcb (tcp_abort p) = p == pcb
ends pcb (tcp_write p bytes) = false
ends pcb (tcp_output p) = false
ends pcb task_delay = false
ends pcb (set_callbacks p) = false
ends pcb (clear_callbacks p) = false
ends pcb (tcp_listen p) = false
ends pcb pbuf_free = false

-- how often the connection of a pcb was ended
abbrev pub endings : ℕ → List Event → ℕ
endings pcb [] = 0
endings pcb (e ∷ es) = (if ends pcb e then 1 else 0) + endings pcb es

endings-append :
    (pcb : ℕ) (es fs : List Event) → endings pcb (es ++ fs) ≡ endings pcb es + endings pcb fs
endings-append pcb [] fs = omega arith
endings-append pcb (e ∷ es) fs = omega (arith, endings-append pcb es fs)

endings-note :
    (pcb : ℕ) (e : Event) (net : Net)
    → ends pcb e ≡ false
    → endings pcb (note e net).events ≡ endings pcb net.events
unfolding note
endings-note pcb e net h = endings-append pcb net.events (e ∷ []) ∙ rw h (omega arith)

module _ (close_err : List Event → ℕ → Err) where
  clear_null-endings :
      (pcb : ℕ) (net : Net)
      → pcb ≢ 0
      → endings pcb (clear_client_pcb close_err 0 net).1.events ≡ endings pcb net.events
  unfolding clear_client_pcb
  clear_null-endings pcb net h = elim (Bool-cases (is_ok (close_err net.events 0))) [
    | inl closed ↦ rw closed closing
    | inr left ↦ rw left (
        endings-note pcb (tcp_abort 0) (note (tcp_close 0) (note (clear_callbacks 0) net)) other
        ∙ closing)
  ]
    where
      other : (0 == pcb) ≡ false
      other = ne→== 0 pcb (λ e. h (sym e))

      closing :
          endings pcb (note (tcp_close 0) (note (clear_callbacks 0) net)).events
          ≡ endings pcb net.events
      closing =
          endings-note pcb (tcp_close 0) (note (clear_callbacks 0) net) other
          ∙ endings-note pcb (clear_callbacks 0) net refl

  stop_clients_lem :
      (pcb : ℕ) (pcbs : List ℕ) (net : Net)
      → pcb ≢ 0
      → ((stop_clients close_err pcbs net).0 ≡ replicate (length pcbs) 0)
        × (endings pcb (stop_clients close_err pcbs net).1.events ≡ endings pcb net.events)
  unfolding stop_clients
  stop_clients_lem pcb [] net h = (refl, refl)
  stop_clients_lem pcb (p ∷ pcbs) net h =
      let (zeros, same) = stop_clients_lem pcb pcbs (clear_client_pcb close_err 0 net).1 h in
      (ap (◌∷◌ 0) zeros, same ∙ clear_null-endings pcb net h)

  -- `stop` clears every slot and marks the server as closed, but it neither closes nor aborts any pcb but
  -- its own: a client that is connected stays so, and no slot holds it any more.
  pub stop-leaves_clients :
      {A : Type 0} (server : Server A) (pcb : ℕ)
      → pcb ≢ 0
      → pcb ≢ server.server_pcb
      → ((stop close_err server).1.net.client_pcbs ≡ replicate (length server.net.client_pcbs) 0)
        × ((stop close_err server).1.closed ≡ true)
        × (endings pcb (stop close_err server).1.net.events ≡ endings pcb server.net.events)
  unfolding stop
  stop-leaves_clients server pcb h g =
      let (zeros, same) = stop_clients_lem pcb server.net.client_pcbs server.net h in
      elim (Bool-cases (server.server_pcb == 0)) [
        | inl null ↦ rw null (zeros, refl, same)
        | inr listening ↦
            let other : (server.server_pcb == pcb) ≡ false =
              ne→== server.server_pcb pcb (λ e. g (sym e)) in
            let cleared : Net =
              record (stop_clients close_err server.net.client_pcbs server.net).1 {
                client_pcbs = (stop_clients close_err server.net.client_pcbs server.net).0;
              } in
            rw listening (
              zeros,
              refl,
              endings-note pcb (tcp_close server.server_pcb)
                    (note (clear_callbacks server.server_pcb) cleared) other
                  ∙ (endings-note pcb (clear_callbacks server.server_pcb) cleared refl ∙ same),
            )
      ]
