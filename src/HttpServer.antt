-- ===== src/HttpServer.antt =====
-- include/tcp_server/tcp_server.h: the HTTP server. This file holds its message buffers and its
-- connections, and sends and closes: `send_data`, `clear_client_pcb` and `tcp_server_result`. A pcb is a number, 0 for null. What
-- lwIP answers while the server sends is a list of rounds; what `tcp_close` returns is a function of the
-- calls so far.
pub mod Request
pub mod Response
pub mod Serve
pub mod Lifecycle
pub mod Slots
pub mod Stopping
pub mod Sending
pub mod Frames
pub mod Streaming
pub mod Parsing
pub mod Headers
pub mod Release
mod Tests
use pico_modbus_meter.Base.{
  ℕ, ◌-◌, min, Bool, true, false, not, ◌&&◌, ◌||◌, Option, none, some, List, [], ◌∷◌, ◌++◌,
  bytes_eq, ltb, ◌==◌, if◌then◌else◌, length, take, drop,
}
use pico_modbus_meter.StaticString.{StaticString, clear}
use pico_modbus_meter.StaticVector.{StaticVector}

-- `err_t`, by the names that the source uses
pub data Err : Type 0 where
  err_ok : Err
  err_abrt : Err
  err_val : Err
  err_other : Err

unfoldable pub is_ok : Err → Bool
is_ok err_ok = true
is_ok err_abrt = false
is_ok err_val = false
is_ok err_other = false

-- The calls of lwIP with an effect, each with its pcb. `set_callbacks` and `clear_callbacks` stand for `tcp_arg`,
-- `tcp_sent`, `tcp_recv`, `tcp_poll` and `tcp_err` with the functions of the server and with null.
pub data Event : Type 0 where
  tcp_write : ℕ → List ℕ → Event
  tcp_output : ℕ → Event
  task_delay : Event
  set_callbacks : ℕ → Event
  clear_callbacks : ℕ → Event
  tcp_close : ℕ → Event
  tcp_abort : ℕ → Event
  tcp_listen : ℕ → Event
  pbuf_free : Event

-- What lwIP answers in one round of the loop in `send_data`.
pub record Round : Type 0 where
  pub sndbuf : ℕ
  pub write_err : Err
  pub output_err : Err

-- What the buffers share: the slots of the clients, the rounds that lwIP will answer, the calls so far.
pub record Net : Type 0 where
  pub client_pcbs : List ℕ
  pub rounds : List Round
  pub events : List Event

unfoldable pub note : Event → Net → Net
note e net = record net { events = net.events ++ (e ∷ []) }

pub record Header : Type 0 where
  pub key : List ℕ
  pub value : List ℕ

-- A view into the buffer of the same message: where it starts, and its size as a `size_t`.
pub record View : Type 0 where
  pub start : ℕ
  pub size : ℕ

abbrev pub no_view : View
no_view = record { start = 0; size = 0 }

abbrev pub buf_size : ℕ
buf_size = 4096

abbrev pub max_headers : ℕ
max_headers = 32

-- `message_buffer`. A view is the text that it shows when it is set, but for `body`, whose place matters. There is
-- one server, so that `parent_server` is left out.
pub record MessageBuffer : Type 0 where
  pub used : Bool
  pub buffer : StaticString
  pub method : List ℕ
  pub path : List ℕ
  pub http_version : List ℕ
  pub status : List ℕ
  pub headers : StaticVector Header
  pub body : View
  pub tpcb : ℕ
  pub on_stream_out : Bool

-- `headers::get_header`, on the elements of the vector
unfoldable pub get_header : List Header → List ℕ → List ℕ
get_header [] key = []
get_header (h ∷ hs) key = if bytes_eq key h.key then h.value else get_header hs key

unfoldable pub clear_message : MessageBuffer → MessageBuffer
unfolding clear
clear_message m = record {
  used = false;
  buffer = clear m.buffer;
  method = [];
  path = [];
  http_version = [];
  status = [];
  headers = pico_modbus_meter.StaticVector.clear m.headers;
  body = no_view;
  tpcb = 0;
  on_stream_out = false;
}

-- what is left of one round of `send_data`: another round, or an error that ends it
pub data Step : Type 0 where
  again : ℕ → List ℕ → Net → Step
  failed : Net → Step

-- `--retry > 0`
unfoldable pub next_retry : ℕ → List ℕ → Net → Step
unfolding note
next_retry retry bytes net =
    if ltb 1 retry then again (retry - 1) bytes (note task_delay net) else failed net

unfoldable pub send_round : Round → ℕ → List ℕ → ℕ → Net → Step
unfolding is_ok next_retry note
send_round r retry bytes client net =
    let free_space = min r.sndbuf (length bytes) in
    let written = note (tcp_output client) (note (tcp_write client (take free_space bytes)) net) in
    if is_ok r.write_err
    then (if is_ok r.output_err
        then again retry (drop free_space bytes) written
        else failed written)
    else next_retry retry bytes net

-- The module parameter is the result of `tcp_close`, given the calls before it.
module _ (close_err : List Event → ℕ → Err) where
  unfoldable pub clear_client_pcb : ℕ → Net → Err × Net
  unfolding is_ok note
  clear_client_pcb pcb net =
      let closed = note (tcp_close pcb) (note (clear_callbacks pcb) net) in
      if is_ok (close_err net.events pcb)
      then (err_ok, closed)
      else (err_abrt, note (tcp_abort pcb) closed)

  -- the loop of `tcp_server_result`: the slots after it, the last error, and the calls
  unfoldable pub close_clients : List ℕ → ℕ → Err → Net → List ℕ × Err × Net
  unfolding clear_client_pcb
  close_clients [] client err net = ([], err, net)
  close_clients (pcb ∷ pcbs) client err net =
      if pcb == 0 || (not (client == 0) && not (pcb == client))
      then (let (rest, err', net') = close_clients pcbs client err net in (pcb ∷ rest, err', net'))
      else (let (err', net') = clear_client_pcb pcb net in
          let (rest, err'', net'') = close_clients pcbs client err' net' in
          (0 ∷ rest, err'', net''))

  -- `status` is 0 for `err_ok`; the client is 0 for null
  unfoldable pub tcp_server_result : Err → ℕ → Net → Err × Net
  unfolding is_ok close_clients
  tcp_server_result status client net =
      if is_ok status
      then (err_ok, net)
      else (let (pcbs, err, net') = close_clients net.client_pcbs client err_ok net in
          (err, record net' { client_pcbs = pcbs }))

  -- The loop of `send_data`, on the rounds that lwIP answers. `none` when they are used up: the loop still
  -- runs then.
  unfoldable pub send_rounds : List Round → ℕ → List ℕ → ℕ → Net → Option (Err × Net)
  unfolding send_round tcp_server_result
  send_rounds rounds retry [] client net = some (err_ok, record net { rounds = rounds })
  send_rounds [] retry (b ∷ bytes) client net = none
  send_rounds (r ∷ rounds) retry (b ∷ bytes) client net =
      elim (send_round r retry (b ∷ bytes) client net) [
        | again retry' bytes' net' ↦ send_rounds rounds retry' bytes' client net'
        | failed net' ↦ some (tcp_server_result err_other client (record net' { rounds = rounds }))
      ]

  unfoldable pub send_data : List ℕ → ℕ → Net → Option (Err × Net)
  unfolding send_rounds
  send_data bytes client net = send_rounds net.rounds 10 bytes client net
