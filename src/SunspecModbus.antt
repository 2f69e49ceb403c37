-- ===== src/SunspecModbus.antt =====
-- src/sunspec_modbus.cpp and include/sunspec_modbus.h: the TCP side of the SunSpec Modbus server, up to
-- eight connections with a buffer of 1024 bytes each. A socket is a handle, where 0 is the null
-- pointer; the answers of lwIP are arguments. `none` is undefined behaviour. Log messages are left out.
pub mod Receive
pub mod Close
pub mod Accept
mod Tests
use pico_modbus_meter.Base.{
  ℕ, zero, suc, ◌+◌, Bool, true, ◌||◌, not, Option, none, some, List, [], ◌∷◌, get_elem?, replicate,
  ◌==◌, if◌then◌else◌,
}
use pico_modbus_meter.Base.Memory.{◌>>=◌}
use pico_modbus_meter.Lwip.{Pbuf}
use pico_modbus_meter.StaticVector.{StaticVector, contents, push, pop, get, clear, set_elem}

abbrev pub buffer_size : ℕ
buffer_size = 1024

abbrev pub max_connections : ℕ
max_connections = 8

pub record Connection : Type 0 where
  pub client_socket : ℕ
  pub buffer : StaticVector ℕ

-- `cur_client` is none for -1.
pub record TcpIo : Type 0 where
  pub server_socket : ℕ
  pub conns : StaticVector Connection
  pub cur_client : Option ℕ

-- what the functions return
pub data Err : Type 0 where
  ok : Err
  val : Err
  abrt : Err

-- `conns | find{&connection::client_socket, socket}`: the index of the first match, from `i` on
abbrev pub find_from : ℕ → List Connection → ℕ → Option ℕ
find_from socket [] i = none
find_from socket (c ∷ cs) i =
    if c.client_socket == socket then some i else find_from socket cs (i + 1)

unfoldable pub find : TcpIo → ℕ → Option ℕ
find io socket = find_from socket (contents io.conns) 0

-- `close_socket`, given whether `tcp_close` succeeds
abbrev pub close_socket : Bool → ℕ → Err
close_socket close_ok socket = if socket == 0 || close_ok then ok else abrt

-- The last connection takes the place of the one that was found.
abbrev pub drop_connection : TcpIo → Option ℕ → Option TcpIo
drop_connection io none = some io
drop_connection io (some i) =
    let (last, conns) = pop io.conns in
    get_elem? conns.storage last >>= λ c. set_elem conns.storage i c >>= λ storage.
    some (record io { conns = record conns { storage = storage } })

-- `tcp_server_result`
unfoldable pub tcp_server_result : Bool → TcpIo → ℕ → Option (Err × TcpIo)
tcp_server_result close_ok io client =
    drop_connection io (find io client) >>= λ io'. some (close_socket close_ok client, io')

-- `tcp_server_accept`. Without a free slot it passes a null pointer on as the table.
unfoldable pub tcp_server_accept : TcpIo → Bool → ℕ → Option (Err × TcpIo)
tcp_server_accept io err_ok client_pcb =
    if not err_ok || client_pcb == 0
    then some (val, io)
    else (push max_connections io.conns (record {
      client_socket = client_pcb;
      buffer = record { storage = replicate buffer_size 0; cur_size = 0 };
    })
        >>= λ (pushed, conns). if pushed then some (ok, record io { conns = conns }) else none)

-- the loop of `tcp_server_recv` over the bytes of the packet, `k` bytes from index `i` on
abbrev pub push_bytes : Pbuf → ℕ → ℕ → StaticVector ℕ → Option (StaticVector ℕ)
push_bytes p zero i b = some b
push_bytes p (suc k) i b =
    push buffer_size b (p.get_at i) >>= λ (pushed, b'). push_bytes p k (i + 1) b'

-- The packet goes to the connection in the slot that was found; the packet is freed in either case.
abbrev pub receive : TcpIo → Pbuf → Option ℕ → Option (Err × TcpIo)
receive io p none = some (ok, io)
receive io p (some i) = get_elem? io.conns.storage i >>= λ c.
    push_bytes p p.tot_len 0 c.buffer >>= λ b.
    set_elem io.conns.storage i (record c { buffer = b }) >>= λ storage.
    some (ok, record io { conns = record io.conns { storage = storage } })

-- `tcp_server_recv`, of a packet; `none` in place of a packet closes the connection.
unfoldable pub tcp_server_recv : Bool → TcpIo → ℕ → Option Pbuf → Option (Err × TcpIo)
tcp_server_recv close_ok io tpcb none = tcp_server_result close_ok io tpcb
tcp_server_recv close_ok io tpcb (some p) = receive io p (find io tpcb)

-- `tcp_server_poll` and `tcp_server_err`, which has no socket any more
unfoldable pub tcp_server_poll : Bool → TcpIo → ℕ → Option (Err × TcpIo)
tcp_server_poll close_ok io tpcb = tcp_server_result close_ok io tpcb

unfoldable pub tcp_server_err : TcpIo → Bool → Option TcpIo
tcp_server_err io is_abort =
    if is_abort then some io else (tcp_server_result true io 0 >>= λ (e, io'). some io')

-- One scan of `read_bytes`: the first connection with bytes in its buffer, from index `i` on.
abbrev pub scan : List Connection → ℕ → Option (ℕ × Connection)
scan [] i = none
scan (c ∷ cs) i = if c.buffer.cur_size == 0 then scan cs (i + 1) else some (i, c)

abbrev pub take_bytes : TcpIo → Option (ℕ × Connection) → Option (List ℕ × TcpIo)
take_bytes io none = some ([], io)
take_bytes io (some (i, c)) =
    set_elem io.conns.storage i (record c { buffer = clear c.buffer }) >>= λ storage. some (
      contents c.buffer,
      record io { conns = record io.conns { storage = storage }; cur_client = some i },
    )

-- `read_bytes`: the bytes and the table after it. `wait` is what the callbacks do to the table while
-- the task waits; the span points into the buffer, which nothing overwrites before it is used.
unfoldable pub read_bytes : (TcpIo → TcpIo) → TcpIo → Option (List ℕ × TcpIo)
read_bytes wait io = elim (scan (contents io.conns) 0) [
  | some found ↦ take_bytes io (some found)
  | none ↦ let io' = wait io in take_bytes io' (scan (contents io'.conns) 0)
]

-- `write_bytes`: the socket that is written to. Without a read before it, the index is -1.
unfoldable pub write_bytes : TcpIo → Option (ℕ × TcpIo)
write_bytes io = io.cur_client >>= λ i.
    get io.conns i >>= λ c. some (c.client_socket, record io { cur_client = none })

-- `init`, given what `tcp_new_ip_type`, `tcp_bind` and `tcp_listen_with_backlog` give; and `deinit`.
unfoldable pub init : TcpIo → ℕ → Bool → ℕ → TcpIo
init io new_socket bind_ok listen_socket =
    if new_socket == 0
    then record io { server_socket = 0 }
    else if bind_ok
    then record io { server_socket = listen_socket }
    else record io { server_socket = new_socket }

unfoldable pub deinit : TcpIo → TcpIo
deinit io = record io { conns = clear io.conns; server_socket = 0 }
