-- ===== src/HttpServer/Request.antt =====
-- include/tcp_server/tcp_server.h: `req_update_structured_views`, the parser of a request.
use pico_modbus_meter.Base.{
  ℕ, zero, suc, ◌-◌, Option, none, some, List, [], ◌∷◌, ◌==◌, if◌then◌else◌, length,
}
use pico_modbus_meter.Base.Memory.{◌>>=◌}
use pico_modbus_meter.StaticString.{StaticString, sv, append_char}
use pico_modbus_meter.StaticVector.{StaticVector, push}
use pico_modbus_meter.StringUtil.{extract_word, extract_until_newline, extract_newline}
use pico_modbus_meter.HttpServer.{Header, MessageBuffer, buf_size, max_headers}

-- `key.remove_suffix(1)` of a key that is not empty
abbrev pub without_last : List ℕ → List ℕ
without_last [] = []
without_last (c ∷ []) = []
without_last (c ∷ d ∷ cs) = c ∷ without_last (d ∷ cs)

-- The loop over the headers, on what is left of the buffer: the vector after it, and what is left.
-- Each round takes a key and the rest of its line, and ends the loop if the key is empty. `none`
-- when the rounds of the first argument are used up, or the vector is not valid.
unfoldable pub read_headers :
    ℕ → StaticVector Header → List ℕ → Option (StaticVector Header × List ℕ)
unfolding extract_word extract_until_newline extract_newline push
read_headers zero headers view = none
read_headers (suc fuel) headers view =
    let (key, after) = extract_word view 32 in
    let (value, rest) = extract_until_newline after in
    if length key == 0
    then some (headers, rest)
    else (push max_headers headers (record { key = without_last key; value = value }) >>= λ pushed.
        read_headers fuel pushed.1 (extract_newline rest).1)

-- the message with its views set; the body is at the end of the text
abbrev pub structured :
    MessageBuffer
    → List ℕ
    → List ℕ
    → List ℕ
    → StaticVector Header
    → List ℕ
    → StaticString
    → MessageBuffer
structured m method path http_version headers body buffer = record m {
  buffer = buffer;
  method = method;
  path = path;
  http_version = http_version;
  headers = headers;
  body = record { start = m.buffer.cur_size - length body; size = length body };
}

-- Enough rounds for any text: each takes at least the bytes of a key.
unfoldable pub req_update_structured_views : MessageBuffer → Option MessageBuffer
unfolding extract_word extract_newline read_headers append_char
req_update_structured_views m = sv m.buffer >>= λ view.
    let (method, view1) = extract_word view 32 in
    let (path, view2) = extract_word view1 32 in
    let (http_version, view3) = extract_word view2 32 in
    let view4 = (extract_newline view3).1 in
    read_headers (suc (length view4)) m.headers view4 >>= λ read.
    let body = (extract_newline read.1).1 in
    append_char buf_size m.buffer 0 >>= λ buffer.
    some (structured m method path http_version read.0 body buffer)
