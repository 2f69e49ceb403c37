-- ===== src/HttpServer/Serve.antt =====
-- include/tcp_server/tcp_server.h: the endpoints, and how a request is received and answered. An endpoint is a function on the request, the response, the
-- objects `A` of the program that endpoints change, and the connections. The counters that nothing reads
-- are left out.
use pico_modbus_meter.Base.{
  ℕ, suc, Bool, true, false, not, ◌&&◌, ◌||◌, Option, none, some, List, [], ◌∷◌, bytes_eq, ltb, leb,
  ◌==◌, if◌then◌else◌, length, get_elem?, set, codes,
}
use pico_modbus_meter.Base.Memory.{◌>>=◌}
use pico_modbus_meter.StaticString.{sv, set_size}
use pico_modbus_meter.Lwip.{Pbuf}
use pico_modbus_meter.Base.CString.{until_zero}
use pico_modbus_meter.HttpServer.{
  MessageBuffer, clear_message, buf_size, Event, pbuf_free, Err, err_ok, err_other, Net, note,
  tcp_server_result, send_data,
}
use pico_modbus_meter.HttpServer.Request.{req_update_structured_views}

-- `endpoint_callback`
abbrev pub Callback : Type 0 → Type 0
Callback A = MessageBuffer → MessageBuffer → A → Net → Option (MessageBuffer × A × Net)

-- `path` is the array, with a zero behind the text.
pub record Endpoint (A : Type 0) : Type 0 where
  pub path_match : Bool
  pub path : List ℕ
  pub callback : Callback A

pub record Server (A : Type 0) : Type 0 where
  pub port : ℕ
  pub default_endpoint_cb : Callback A
  pub get_endpoints : List (Endpoint A)
  pub post_endpoints : List (Endpoint A)
  pub put_endpoints : List (Endpoint A)
  pub delete_endpoints : List (Endpoint A)
  pub server_pcb : ℕ
  pub closed : Bool
  pub send_buffers : List MessageBuffer
  pub recieve_buffers : List MessageBuffer
  pub net : Net
  pub app : A

unfoldable pub starts_with : List ℕ → List ℕ → Bool
starts_with text [] = true
starts_with [] (p ∷ ps) = false
starts_with (c ∷ cs) (p ∷ ps) = c == p && starts_with cs ps

-- `prefix.data()` is the text up to a zero; the list of a literal leaves out the zero that ends it.
unfoldable pub is_match : {A : Type 0} → Endpoint A → List ℕ → Bool
unfolding starts_with
is_match e path =
    e.path_match && bytes_eq path (until_zero e.path)
    || not e.path_match && starts_with path (until_zero e.path)

-- `prefixed_callback_call`: the callback of the first endpoint that matches, or the default one
unfoldable pub find_callback : {A : Type 0} → List (Endpoint A) → Callback A → List ℕ → Callback A
unfolding is_match
find_callback [] default path = default
find_callback (e ∷ es) default path =
    if is_match e path then e.callback else find_callback es default path

unfoldable pub select : {A : Type 0} → Server A → MessageBuffer → Callback A
unfolding find_callback
select server request =
    if bytes_eq request.method (codes "GET")
    then find_callback server.get_endpoints server.default_endpoint_cb request.path
    else if bytes_eq request.method (codes "POST")
    then find_callback server.post_endpoints server.default_endpoint_cb request.path
    else if bytes_eq request.method (codes "PUT")
    then find_callback server.put_endpoints server.default_endpoint_cb request.path
    else if bytes_eq request.method (codes "DELETE")
    then find_callback server.delete_endpoints server.default_endpoint_cb request.path
    else server.default_endpoint_cb

-- The index of the first buffer that was free. The `exchange(true)` of the others changes nothing.
unfoldable pub claim : List MessageBuffer → Option ℕ
claim [] = none
claim (m ∷ ms) = if m.used then (claim ms >>= λ i. some (suc i)) else some 0

-- `pbuf_copy_partial` into the buffer
unfoldable pub recieve_packet : Pbuf → MessageBuffer → MessageBuffer
unfolding set_size
recieve_packet p m =
    let (storage, count) = p.copy_partial m.buffer.storage p.tot_len 0 in
    record m { used = true; buffer = set_size (record m.buffer { storage = storage }) count }

module _ {A : Type 0} (close_err : List Event → ℕ → Err) where
  -- the part of `process_request` that has both buffers
  unfoldable pub respond : Server A → ℕ → MessageBuffer → ℕ → MessageBuffer → ℕ → Option (Server A)
  unfolding select
  respond server i recieve j send client = do
    request ← req_update_structured_views recieve
    (response, app, net) ←
        select server request request (record send { used = true; tpcb = client }) server.app
          server.net
    frame ← sv response.buffer
    (err, net') ← send_data close_err frame client net
    some (record server {
      recieve_buffers = set server.recieve_buffers i (clear_message request);
      send_buffers = set server.send_buffers j (clear_message response);
      net = net';
      app = app;
    })

  -- the rest of `process_request`, given which send buffer was reserved
  unfoldable pub process_with : Server A → ℕ → ℕ → MessageBuffer → Option ℕ → Option (Server A)
  unfolding respond
  process_with server i client recieve none =
      some
        (record server { recieve_buffers = set server.recieve_buffers i (clear_message recieve) })
  process_with server i client recieve (some j) =
      get_elem? server.send_buffers j >>= λ send. respond server i recieve j send client

  unfoldable pub process_request : Server A → ℕ → ℕ → Option (Server A)
  unfolding claim process_with
  process_request server i client =
      if leb (length server.recieve_buffers) i
      then some server
      else (get_elem? server.recieve_buffers i >>= λ recieve.
          process_with server i client recieve (claim server.send_buffers))

  -- the packet in the buffer that was reserved, if there was one
  unfoldable pub recieve_into : Server A → ℕ → Pbuf → Option ℕ → Option (Server A)
  unfolding recieve_packet process_request
  recieve_into server tpcb p none = some server
  recieve_into server tpcb p (some i) = get_elem? server.recieve_buffers i >>= λ m.
      process_request
        (record server { recieve_buffers = set server.recieve_buffers i (recieve_packet p m) }) i
        tpcb

  -- The error that the callback returns, and the server. The null packet is `none`; `arg` is the server, never null.
  unfoldable pub tcp_server_recv : Server A → ℕ → Option Pbuf → Option (Err × Server A)
  unfolding tcp_server_result note recieve_into claim
  tcp_server_recv server tpcb none =
      let (err, net) = tcp_server_result close_err err_other tpcb server.net in
      some (err, record server { net = net })
  tcp_server_recv server tpcb (some p) =
      (if ltb buf_size p.tot_len || p.tot_len == 0
        then some server
        else recieve_into server tpcb p (claim server.recieve_buffers))
      >>= λ after. some (err_ok, record after { net = note pbuf_free after.net })
