-- ===== src/SunspecModbus/Tests.antt =====
-- A table with two connections, and the theorems on it applied there.
use pico_modbus_meter.Base.{
  ℕ, zero, ◌+◌, ◌≡◌, refl, Bool, true, none, some, List, [], ◌∷◌, ◌++◌, take, set, get_elem?,
  length-replicate, arith, map, subst, suc,
}
use pico_modbus_meter.Lwip.{packet, packet-Holds}
use pico_modbus_meter.StaticVector.{StaticVector, contents}
use pico_modbus_meter.StaticVector.Bounded
use pico_modbus_meter.StaticVector.RemoveIf.{count, one}
use pico_modbus_meter.SunspecModbus.{
  TcpIo, Connection, ok, close_socket, max_connections, buffer_size, find, tcp_server_recv,
  tcp_server_result,
}
use pico_modbus_meter.SunspecModbus.Accept.{fresh}
use pico_modbus_meter.SunspecModbus.Close.{tcp_server_result_lem}
use pico_modbus_meter.SunspecModbus.Receive.{IsValid, tcp_server_recv_lem}

abbrev slots : List Connection
slots = map fresh (11 ∷ 12 ∷ 0 ∷ 0 ∷ 0 ∷ 0 ∷ 0 ∷ 0 ∷ [])

abbrev io : TcpIo
io = record {
  server_socket = 1;
  conns = record { storage = slots; cur_size = 2 };
  cur_client = none;
}

table-IsValid : Bounded.IsValid max_connections io.conns
table-IsValid = record { capacity = refl; small = omega arith; within = omega arith }

fresh-IsValid : (socket : ℕ) → Bounded.IsValid buffer_size (fresh socket).buffer
fresh-IsValid socket = record {
  capacity = length-replicate {A = ℕ} 1024 0;
  small = omega arith;
  within = omega arith;
}

fresh_buffers :
    (xs : List ℕ) (i : ℕ) (c : Connection)
    → get_elem? (map fresh xs) i ≡ some c
    → Bounded.IsValid buffer_size c.buffer
fresh_buffers [] i c e = cc
fresh_buffers (x ∷ xs) zero c e =
    let same : fresh x ≡ c = cc in
    subst (λ (y : Connection). Bounded.IsValid buffer_size y.buffer) same (fresh-IsValid x)
fresh_buffers (x ∷ xs) (suc i) c e = fresh_buffers xs i c e

io-IsValid : IsValid io
io-IsValid = record {
  table = table-IsValid;
  buffers = fresh_buffers (11 ∷ 12 ∷ 0 ∷ 0 ∷ 0 ∷ 0 ∷ 0 ∷ 0 ∷ []);
}

tcp_server_recv_lem_example :
    (b : StaticVector ℕ) × (tcp_server_recv true io 12 (some (packet (7 ∷ 8 ∷ [])))
      ≡ some (
        ok,
        record io {
          conns = record io.conns { storage = set slots 1 (record (fresh 12) { buffer = b }) };
        },
      ))
    × Bounded.IsValid buffer_size b
    × (contents b ≡ take buffer_size (contents (fresh 12).buffer ++ 7 ∷ 8 ∷ []))
unfolding find
tcp_server_recv_lem_example =
    tcp_server_recv_lem true io 12 1 (fresh 12) (packet (7 ∷ 8 ∷ [])) (7 ∷ 8 ∷ []) io-IsValid
      (packet-Holds (7 ∷ 8 ∷ [])) refl refl (omega arith)

tcp_server_result_lem_example :
    (c : Connection) × (c.client_socket ≡ 11)
    × (conns : StaticVector Connection) × (tcp_server_result true io 11
        ≡ some (close_socket true 11, record io { conns = conns }))
    × Bounded.IsValid max_connections conns
    × ((p : Connection → Bool) → count p (contents conns) + one p c ≡ count p (contents io.conns))
unfolding find
tcp_server_result_lem_example = tcp_server_result_lem true io 11 0 table-IsValid refl
