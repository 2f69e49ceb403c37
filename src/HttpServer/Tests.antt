-- ===== src/HttpServer/Tests.antt =====
-- The theorems on sending and on parsing, applied to requests and to a connection that serves at times.
mod Answers
use pico_modbus_meter.Base.{
  ℕ, ◌≡◌, refl, ◌⊎◌, false, some, List, [], ◌∷◌, ◌++◌, arith, take, replicate, codes,
  length-replicate,
}
use pico_modbus_meter.HttpServer.{
  Header, MessageBuffer, no_view, buf_size, max_headers, Err, err_ok, err_other, Event, Round, Net,
  send_data, is_ok,
}
use pico_modbus_meter.HttpServer.Request.{req_update_structured_views}
use pico_modbus_meter.HttpServer.Sending.{written, Serves, no_rounds, round, send_data-completes}
use pico_modbus_meter.HttpServer.Slots.{Absent, send_data-Partial}
use pico_modbus_meter.HttpServer.Headers.{no_lines, line}
use pico_modbus_meter.HttpServer.Parsing.{
  Request, IsRequest, print_request, view_text, req_update_structured_views-print,
  req_update_structured_views-ends,
}
use pico_modbus_meter.StaticString.{StaticString, empty_string}
use pico_modbus_meter.StaticString.Bounds.{text, empty_string-IsValid, fill_lem}
use pico_modbus_meter.StaticVector.{StaticVector, contents}
use pico_modbus_meter.StringUtil.Word.{nil, cons}

abbrev pub closes : List Event → ℕ → Err
closes history pcb = err_ok

abbrev pub good : ℕ → Round
good n = record { sndbuf = n; write_err = err_ok; output_err = err_ok }

abbrev busy : Round
busy = record { sndbuf = 0; write_err = err_other; output_err = err_ok }

abbrev pub connected : List Round → Net
connected rounds = record { client_pcbs = 7 ∷ 0 ∷ []; rounds = rounds; events = [] }

abbrev some_rounds : List Round
some_rounds = good 2 ∷ busy ∷ good 0 ∷ good 5 ∷ good 1 ∷ good 1 ∷ []

some_rounds-Serves : Serves 3 some_rounds
unfolding is_ok
some_rounds-Serves = record {
  outputs = round refl (round refl (round refl (round refl (round refl (round refl no_rounds)))));
  few = omega arith;
  enough = omega arith;
}

send_data-completes_example :
    (net' : Net) × (send_data closes (65 ∷ 66 ∷ 67 ∷ []) 7 (connected some_rounds)
      ≡ some (err_ok, net'))
    × Serves 0 net'.rounds
    × (written 7 net'.events ≡ written 7 [] ++ (65 ∷ 66 ∷ 67 ∷ []))
    × (net'.client_pcbs ≡ 7 ∷ 0 ∷ [])
send_data-completes_example =
    send_data-completes closes (65 ∷ 66 ∷ 67 ∷ []) 7 0 (connected some_rounds) some_rounds-Serves

-- the second write is the last: `tcp_output` fails
abbrev broken : Round
broken = record { sndbuf = 1; write_err = err_ok; output_err = err_other }

abbrev dropped : Net
dropped = record {
  client_pcbs = 0 ∷ 0 ∷ [];
  rounds = [];
  events =
      Event.tcp_write 7 (65 ∷ 66 ∷ [])
      ∷ Event.tcp_output 7
      ∷ Event.tcp_write 7 (67 ∷ [])
      ∷ Event.tcp_output 7
      ∷ Event.clear_callbacks 7
      ∷ Event.tcp_close 7
      ∷ [];
}

sends_part :
    send_data closes (65 ∷ 66 ∷ 67 ∷ 68 ∷ []) 7 (connected (good 2 ∷ broken ∷ []))
    ≡ some (err_ok, dropped)
unfolding send_data
sends_part = refl

send_data-Partial_example :
    (sent : List ℕ) × (rest : List ℕ) × ((65 ∷ 66 ∷ 67 ∷ 68 ∷ []) ≡ sent ++ rest)
    × (written 7 dropped.events ≡ written 7 [] ++ sent)
    × ((rest ≡ []) ⊎ Absent 7 dropped.client_pcbs)
send_data-Partial_example =
    send_data-Partial closes (65 ∷ 66 ∷ 67 ∷ 68 ∷ []) 7 (connected (good 2 ∷ broken ∷ [])) err_ok
      dropped (λ e. omega (arith, e)) sends_part

-- a message whose buffer was filled with a text
abbrev filled : List ℕ → StaticString
filled d =
    (fill_lem buf_size (empty_string buf_size) d (empty_string-IsValid buf_size (omega arith))).0

abbrev no_headers : StaticVector Header
no_headers = record {
  storage = replicate max_headers (record { key = []; value = [] });
  cur_size = 0;
}

no_headers-IsValid : pico_modbus_meter.StaticVector.Bounded.IsValid max_headers no_headers
no_headers-IsValid = record {
  capacity = length-replicate {A = Header} max_headers (record { key = []; value = [] });
  small = omega arith;
  within = omega arith;
}

abbrev pub message : StaticString → MessageBuffer
message s = record {
  used = false;
  buffer = s;
  method = [];
  path = [];
  http_version = [];
  status = [];
  headers = no_headers;
  body = no_view;
  tpcb = 7;
  on_stream_out = false;
}

filled-IsValid : (d : List ℕ) → pico_modbus_meter.StaticString.Bounds.IsValid buf_size (filled d)
filled-IsValid d =
    (fill_lem buf_size (empty_string buf_size) d (empty_string-IsValid buf_size (omega arith))).2

text-filled : (d : List ℕ) → text (filled d) ≡ take buf_size d
text-filled d =
    (fill_lem buf_size (empty_string buf_size) d (empty_string-IsValid buf_size (omega arith))).3

abbrev request : Request
request = record {
  method = codes "GET";
  path = codes "/a";
  http_version = codes "HTTP/1.1";
  headers = record { key = codes "Host"; value = codes "x y" } ∷ [];
  body = codes "hello";
}

request-IsRequest : IsRequest request
request-IsRequest = record {
  method_token = record {
    some_bytes = λ e. omega (arith, e);
    one_word = cons refl (cons refl (cons refl nil));
  };
  path_token = record { some_bytes = λ e. omega (arith, e); one_word = cons refl (cons refl nil) };
  version_token = record {
    some_bytes = λ e. omega (arith, e);
    one_word =
        cons refl
          (cons refl (cons refl (cons refl (cons refl (cons refl (cons refl (cons refl nil)))))));
  };
  lines =
      line
        (record {
          some_bytes = λ e. omega (arith, e);
          one_word = cons refl (cons refl (cons refl (cons refl nil)));
        })
        (record { one_line = cons refl (cons refl (cons refl nil)); no_space = refl }) no_lines;
  few = omega arith;
}

req_update_structured_views-print_example :
    (after : MessageBuffer) × (req_update_structured_views
        (message (filled (print_request request)))
      ≡ some after)
    × (after.method ≡ codes "GET")
    × (after.path ≡ codes "/a")
    × (after.http_version ≡ codes "HTTP/1.1")
    × (contents after.headers ≡ record { key = codes "Host"; value = codes "x y" } ∷ [])
    × (view_text after.body after.buffer ≡ codes "hello")
req_update_structured_views-print_example =
    req_update_structured_views-print request (message (filled (print_request request)))
      request-IsRequest (filled-IsValid (print_request request)) no_headers-IsValid refl
      (text-filled (print_request request))

req_update_structured_views-ends_example :
    (after : MessageBuffer) × (req_update_structured_views (message (filled (codes "GET : : :")))
      ≡ some after)
    × pico_modbus_meter.StaticString.Bounds.IsValid buf_size after.buffer
    × pico_modbus_meter.StaticVector.Bounded.IsValid max_headers after.headers
req_update_structured_views-ends_example =
    req_update_structured_views-ends (message (filled (codes "GET : : :")))
      (filled-IsValid (codes "GET : : :")) no_headers-IsValid
