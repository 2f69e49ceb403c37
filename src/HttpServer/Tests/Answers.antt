-- ===== src/HttpServer/Tests/Answers.antt =====
-- The theorems on answers and on connections, applied to a server with two buffers and one endpoint.
use pico_modbus_meter.Base.{
  ℕ, zero, suc, ◌+◌, ◌≤◌, ◌≡◌, refl, ap, true, false, Option, none, some, [], ◌∷◌, ◌++◌, arith,
  bytes_eq, replicate, codes, length-replicate,
}
use pico_modbus_meter.HttpServer.{MessageBuffer, buf_size, Err, err_ok, Net, send_data, is_ok}
use pico_modbus_meter.HttpServer.Request.{req_update_structured_views}
use pico_modbus_meter.HttpServer.Response.{crlf, res_write_body, res_set_status_line}
use pico_modbus_meter.HttpServer.Serve.{Server, Callback, tcp_server_recv}
use pico_modbus_meter.HttpServer.Lifecycle.{stop}
use pico_modbus_meter.HttpServer.Sending.{written, Outputs, no_rounds, round, failures, progress}
use pico_modbus_meter.HttpServer.Stopping.{endings, stop-leaves_clients}
use pico_modbus_meter.HttpServer.Streaming.{res_write_body-send_data, res_write_body-overlong}
use pico_modbus_meter.HttpServer.Release.{flags, tcp_server_recv-flags}
use pico_modbus_meter.StaticString.{StaticString, sv}
use pico_modbus_meter.StaticString.Bounds.{text}
use pico_modbus_meter.Lwip.{Pbuf, packet}
use pico_modbus_meter.Base.Memory.{◌>>=◌}
use pico_modbus_meter.HttpServer.Tests.{closes, good, connected, message}

many : (n : ℕ) → Outputs (replicate n (good 1))
unfolding is_ok
many zero = no_rounds
many (suc n) = round refl (many n)

none_fails : (n : ℕ) → failures (replicate n (good 1)) ≡ 0
unfolding is_ok
none_fails zero = refl
none_fails (suc n) = none_fails n

each_counts : (n : ℕ) → progress (replicate n (good 1)) ≡ n
unfolding is_ok
each_counts zero = refl
each_counts (suc n) = ap suc (each_counts n)

-- a string with so many zeros in it
abbrev of_size : ℕ → StaticString
of_size k = record { storage = replicate buf_size 0; cur_size = k }

of_size-IsValid :
    (k : ℕ) → k ≤ buf_size → pico_modbus_meter.StaticString.Bounds.IsValid buf_size (of_size k)
of_size-IsValid k h = record {
  capacity = length-replicate {A = ℕ} buf_size 0;
  small = omega arith;
  within = h;
}

-- a page that does not fit in the buffer
res_write_body-send_data_example :
    (net' : Net) × ((res_write_body closes
          (replicate 5000 120)
          (message (of_size 3))
          (connected (replicate 6000 (good 1)))
        >>= λ (m', sent). sv m'.buffer >>= λ frame. send_data closes frame 7 sent)
      ≡ some (err_ok, net'))
    × (written 7 net'.events ≡ written 7 [] ++ (text (of_size 3) ++ (crlf ++ replicate 5000 120)))
    × (net'.client_pcbs ≡ 7 ∷ 0 ∷ [])
res_write_body-send_data_example =
    res_write_body-send_data closes (replicate 5000 120) (message (of_size 3))
      (connected (replicate 6000 (good 1))) (of_size-IsValid 3 (omega arith)) (omega arith) refl
      refl (omega (arith, length-replicate {A = ℕ} 5000 120))
      (record {
        outputs = many 6000;
        few = omega (arith, none_fails 6000);
        enough = omega (arith, each_counts 6000, length-replicate {A = ℕ} 5000 120);
      })

res_write_body-overlong_example :
    res_write_body closes (65 ∷ []) (message (of_size 4094)) (connected []) ≡ none
res_write_body-overlong_example =
    res_write_body-overlong closes (65 ∷ []) (message (of_size 4094)) (connected [])
      (of_size-IsValid 4094 (omega arith)) (omega arith) refl refl (omega arith) (omega arith)

-- An endpoint that answers with the path, and counts.
abbrev echo : Callback ℕ
echo req res count net = res_set_status_line (codes "HTTP/1.1") (codes "200 OK") res >>= λ started.
    res_write_body closes req.path started net >>= λ (done, sent). some (done, count + 1, sent)

-- small arrays, to compute with
abbrev small_message : MessageBuffer
small_message = record (message (record { storage = replicate 64 0; cur_size = 0 })) { tpcb = 0 }

abbrev server : Server ℕ
server = record {
  port = 80;
  default_endpoint_cb = λ req res count net. some (res, count, net);
  get_endpoints = record { path_match = true; path = codes "/a"; callback = echo } ∷ [];
  post_endpoints = [];
  put_endpoints = [];
  delete_endpoints = [];
  server_pcb = 3;
  closed = false;
  send_buffers = small_message ∷ small_message ∷ [];
  recieve_buffers = record small_message { used = true } ∷ small_message ∷ [];
  net = connected (good 100 ∷ []);
  app = 0;
}

abbrev get_a : Option Pbuf
get_a = some (packet (codes "GET /a HTTP/1.1" ++ (crlf ++ crlf)))

abbrev or_server : Option (Err × Server ℕ) → Server ℕ
or_server none = server
or_server (some (err, after)) = after

abbrev served : Server ℕ
served = or_server (tcp_server_recv closes server 7 get_a)

serves_get : tcp_server_recv closes server 7 get_a ≡ some (err_ok, served)
unfolding tcp_server_recv req_update_structured_views sv pico_modbus_meter.Base.Memory.store_bytes
    bytes_eq res_set_status_line pico_modbus_meter.StaticString.empty
    pico_modbus_meter.Base.Memory.overwrite res_write_body
serves_get = refl

get_is_answered :
    written 7 served.net.events ≡ codes "HTTP/1.1 200 OK" ++ (crlf ++ (crlf ++ codes "/a"))
unfolding tcp_server_recv req_update_structured_views sv pico_modbus_meter.Base.Memory.store_bytes
    bytes_eq res_set_status_line pico_modbus_meter.StaticString.empty
    pico_modbus_meter.Base.Memory.overwrite res_write_body
get_is_answered = refl

tcp_server_recv-flags_example :
    (flags served.recieve_buffers ≡ true ∷ false ∷ [])
    × (flags served.send_buffers ≡ false ∷ false ∷ [])
tcp_server_recv-flags_example = tcp_server_recv-flags closes server 7 get_a err_ok served serves_get

stop-leaves_clients_example :
    ((stop closes server).1.net.client_pcbs ≡ 0 ∷ 0 ∷ [])
    × ((stop closes server).1.closed ≡ true)
    × (endings 7 (stop closes server).1.net.events ≡ 0)
stop-leaves_clients_example =
    stop-leaves_clients closes server 7 (λ e. omega (arith, e)) (λ e. omega (arith, e))
