-- ===== src/HttpServer/Lifecycle.antt =====
-- include/tcp_server/tcp_server.h: starting and stopping the server, and the callbacks of its connections but the
-- one that receives.
use pico_modbus_meter.Base.{
  ℕ, suc, true, not, ◌||◌, Option, none, some, List, [], ◌∷◌, ◌==◌, if◌then◌else◌, set,
}
use pico_modbus_meter.Base.Memory.{◌>>=◌}
use pico_modbus_meter.HttpServer.{
  Event, tcp_close, tcp_abort, tcp_listen, set_callbacks, clear_callbacks, Err, err_ok, err_abrt,
  err_val, err_other, is_ok, Net, note, clear_client_pcb, tcp_server_result,
}
use pico_modbus_meter.HttpServer.Serve.{Server}

-- the first free slot of the clients
unfoldable pub free_slot : List ℕ → Option ℕ
free_slot [] = none
free_slot (pcb ∷ pcbs) = if pcb == 0 then some 0 else (free_slot pcbs >>= λ i. some (suc i))

-- The loop of `stop`. The condition assigns null, so that each slot is null when
-- `clear_client_pcb` is called on it. Nothing in the program calls `stop`, and as a member of a template it is never compiled:
-- the name `clear_client_pcb` is not qualified here, and a call would not find it.
unfoldable pub stop_clients : (List Event → ℕ → Err) → List ℕ → Net → List ℕ × Net
unfolding clear_client_pcb
stop_clients close_err [] net = ([], net)
stop_clients close_err (pcb ∷ pcbs) net =
    let (rest, net') = stop_clients close_err pcbs (clear_client_pcb close_err 0 net).1 in
    (0 ∷ rest, net')

module _ {A : Type 0} (close_err : List Event → ℕ → Err) where
  unfoldable pub tcp_server_poll : Server A → ℕ → Err × Server A
  unfolding tcp_server_result
  tcp_server_poll server tpcb =
      let (err, net) = tcp_server_result close_err err_other tpcb server.net in
      (err, record server { net = net })

  -- `err != ERR_ABRT`: every client is closed.
  unfoldable pub tcp_server_err : Server A → Err → Server A
  unfolding tcp_server_result
  tcp_server_err server err_abrt = server
  tcp_server_err server err = record server {
    net = (tcp_server_result close_err err 0 server.net).1;
  }

  unfoldable pub tcp_server_accept : Server A → ℕ → Err → Err × Server A
  unfolding is_ok tcp_server_result free_slot note
  tcp_server_accept server client_pcb err =
      if not (is_ok err) || client_pcb == 0
      then (err_val, record server { net = (tcp_server_result close_err err 0 server.net).1 })
      else elim (free_slot server.net.client_pcbs) [
        | none ↦
            let closed = note (tcp_close client_pcb) server.net in
            if is_ok (close_err server.net.events client_pcb)
            then (err_ok, record server { net = closed })
            else (err_abrt, record server { net = note (tcp_abort client_pcb) closed })
        | some i ↦ (
          err_ok,
          record server {
            net =
                note (set_callbacks client_pcb)
                  (record server.net { client_pcbs = set server.net.client_pcbs i client_pcb });
          },
        )
      ]

  -- `start`, given what `tcp_new_ip_type` and `tcp_bind` return, and `tcp_listen_with_backlog`
  unfoldable pub start : ℕ → (ℕ → Err) → ℕ → Server A → Err × Server A
  unfolding is_ok note
  start pcb bind listening server =
      if pcb == 0 || not (is_ok (bind server.port))
      then (err_abrt, server)
      else if listening == 0
      then (err_abrt, record server { server_pcb = 0; net = note (tcp_close pcb) server.net })
      else (
        err_ok,
        record server {
          server_pcb = listening;
          net = note (set_callbacks listening) (note (tcp_listen pcb) server.net);
        },
      )

  unfoldable pub stop : Server A → Err × Server A
  unfolding stop_clients note
  stop server =
      let (pcbs, net) = stop_clients close_err server.net.client_pcbs server.net in
      let cleared = record net { client_pcbs = pcbs } in
      (
        err_ok,
        record server {
          server_pcb = 0;
          closed = true;
          net =
              (if server.server_pcb == 0
                then cleared
                else note (tcp_close server.server_pcb)
                    (note (clear_callbacks server.server_pcb) cleared));
        },
      )
