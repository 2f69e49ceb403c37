-- ===== src/HttpServer/Response.antt =====
-- include/tcp_server/tcp_server.h: how an endpoint writes a response, with the buffer sent whenever the
-- body fills it.
use pico_modbus_meter.Base.{
  ℕ, zero, suc, ◌+◌, ◌-◌, ◌%◌, ◌^◌, Bool, not, ◌&&◌, ◌||◌, Option, none, some, List, [], ◌∷◌, ◌++◌,
  leb, ◌==◌, if◌then◌else◌, length, take, drop,
}
use pico_modbus_meter.Base.Memory.{◌>>=◌}
use pico_modbus_meter.StaticString.{StaticString, sv, append, append_formatted, clear, empty}
use pico_modbus_meter.StaticVector.{StaticVector, push, int_lt}
use pico_modbus_meter.HttpServer.{
  Header, no_view, MessageBuffer, buf_size, max_headers, Event, Err, Net, send_data,
}

abbrev pub crlf : List ℕ
crlf = 13 ∷ 10 ∷ []

-- the buffer, empty if the guards of `res_set_status_line` say so
unfoldable pub fresh_buffer : MessageBuffer → StaticString
fresh_buffer m = if m.on_stream_out || not (empty m.buffer) then clear m.buffer else m.buffer

unfoldable pub res_set_status_line : List ℕ → List ℕ → MessageBuffer → Option MessageBuffer
unfolding fresh_buffer append_formatted
res_set_status_line http_version status m = do
  (buffer, count) ←
      append_formatted buf_size (fresh_buffer m) (http_version ++ (32 ∷ (status ++ crlf)))
  line ← sv buffer
  some (record m {
    buffer = buffer;
    method = [];
    path = [];
    http_version = line;
    status = line;
    headers =
        (if pico_modbus_meter.StaticVector.empty m.headers
          then m.headers
          else pico_modbus_meter.StaticVector.clear m.headers);
    body = no_view;
  })

-- `substr(pos)`, which throws for a position behind the end
unfoldable pub substr : List ℕ → ℕ → Option (List ℕ)
substr text pos = if leb pos (length text) then some (drop pos text) else none

unfoldable pub res_add_header : List ℕ → List ℕ → MessageBuffer → Option (Header × MessageBuffer)
unfolding append_formatted substr push
res_add_header key value m =
    let before = if m.on_stream_out then clear m.buffer else m.buffer in
    do
      (buffer, count) ← append_formatted buf_size before (key ++ (58 ∷ 32 ∷ (value ++ crlf)))
      text ← sv buffer
      key_view ← substr text before.cur_size
      value_view ← substr text (before.cur_size + length key + 2)
      let header : Header = record { key = key_view; value = value_view }
      (pushed, headers) ← push max_headers m.headers header
      some (
        if pushed then header else record { key = []; value = [] },
        record m { buffer = buffer; headers = headers; body = no_view },
      )

-- what the loop of `res_write_body` changes: `start` is the pointer `s`, `rest` the body that is left
pub record Writing : Type 0 where
  pub buffer : StaticString
  pub on_stream_out : Bool
  pub start : ℕ
  pub rest : List ℕ
  pub net : Net

-- `f`
abbrev pub frame_size : ℕ
frame_size = buf_size - 1

-- `m`, the 32-bit pattern of an `int`: negative when the buffer is full
abbrev pub room : Writing → ℕ
room w = (frame_size + 2 ^ 32 - w.buffer.cur_size) % 2 ^ 32

-- `append_size > m`, for `int append_size = body.size()`
abbrev pub is_long : Writing → Bool
is_long w = int_lt (room w) (length w.rest % 2 ^ 32)

-- as a position it is a `size_t` of 32 bits
unfoldable pub append_size : Writing → ℕ
append_size w = if is_long w then room w else length w.rest % 2 ^ 32

-- the round up to the append, with the buffer after it
abbrev pub appended : Writing → StaticString → Writing
appended w buffer = record w {
  buffer = buffer;
  on_stream_out = w.on_stream_out || is_long w;
  start = if is_long w then 0 else w.start;
}

module _ (close_err : List Event → ℕ → Err) where
  -- `if (buffer.size() == f)`: a full buffer is sent and emptied; the result of `send_data` is not used.
  unfoldable pub stream_full : ℕ → Writing → Option Writing
  unfolding send_data
  stream_full client w =
      if w.buffer.cur_size == frame_size
      then (sv w.buffer >>= λ frame. send_data close_err frame client w.net >>= λ sent.
          some (record w { buffer = clear w.buffer; net = sent.1 }))
      else some w

  -- One round: `substr(0, append_size)` is appended, a full buffer is sent, and `substr(append_size)` is left.
  unfoldable pub write_round : ℕ → Writing → Option Writing
  unfolding append append_size stream_full substr
  write_round client w = append buf_size w.buffer (take (append_size w) w.rest) >>= λ buffer.
      stream_full client (appended w buffer) >>= λ w'.
      substr w.rest (append_size w) >>= λ rest. some (record w' { rest = rest })

  -- `for (int i = 0; i < 32 && body.size(); ++i)`, given how many rounds are left
  unfoldable pub write_rounds : ℕ → ℕ → Writing → Option Writing
  unfolding write_round
  write_rounds zero client w = some w
  write_rounds (suc i) client w =
      if length w.rest == 0
      then some w
      else (write_round client w >>= λ w'. write_rounds i client w')

  unfoldable pub res_write_body : List ℕ → MessageBuffer → Net → Option (MessageBuffer × Net)
  unfolding append write_rounds
  res_write_body body m net =
      let is_first = m.body.size == 0 in
      do
        buffer ←
            (if is_first && not m.on_stream_out
              then append buf_size m.buffer crlf
              else some m.buffer)
        w ← write_rounds 32 m.tpcb (record {
          buffer = buffer;
          on_stream_out = m.on_stream_out;
          start = if is_first then buffer.cur_size else m.body.start;
          rest = body;
          net = net;
        })
        some (
          record m {
            buffer = w.buffer;
            on_stream_out = w.on_stream_out;
            body = record {
              start = w.start;
              size = (w.buffer.cur_size + 2 ^ 32 - w.start) % 2 ^ 32;
            };
          },
          w.net,
        )
