-- ===== src/SunspecModbus/Accept.antt =====
-- What a new connection does to the table.
use pico_modbus_meter.Base.{ℕ, ◌<◌, ◌≡◌, ◌≢◌, true, none, some, [], ◌∷◌, ◌++◌, replicate, ne→==}
use pico_modbus_meter.StaticVector.{StaticVector, contents}
use pico_modbus_meter.StaticVector.Bounded.{push-room, push-full}
use pico_modbus_meter.StaticVector.Bounded
use pico_modbus_meter.SunspecModbus.{
  TcpIo, Connection, ok, max_connections, buffer_size, tcp_server_accept,
}

-- a connection without bytes
abbrev pub fresh : ℕ → Connection
fresh socket = record {
  client_socket = socket;
  buffer = record { storage = replicate buffer_size 0; cur_size = 0 };
}

-- A client of a valid table is appended to it if one of the eight slots is free; if none is, accepting
-- it uses a null pointer.
pub tcp_server_accept_lem :
    (io : TcpIo) (client : ℕ)
    → Bounded.IsValid max_connections io.conns
    → client ≢ 0
    → (io.conns.cur_size < max_connections
        → (conns : StaticVector Connection) × (tcp_server_accept io true client
            ≡ some (ok, record io { conns = conns }))
          × Bounded.IsValid max_connections conns
          × (contents conns ≡ contents io.conns ++ fresh client ∷ []))
      × (io.conns.cur_size ≡ max_connections → tcp_server_accept io true client ≡ none)
unfolding tcp_server_accept
tcp_server_accept_lem io client v some_client = (
  λ room.
      let (conns, pushed, valid, shown) =
        push-room max_connections io.conns v (fresh client) room in
      (conns, rw (ne→== client 0 some_client, pushed), valid, shown),
  λ full. rw (ne→== client 0 some_client, push-full max_connections io.conns v (fresh client) full),
)
