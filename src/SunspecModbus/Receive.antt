-- ===== src/SunspecModbus/Receive.antt =====
-- What a received packet does to the buffer of its connection.
use pico_modbus_meter.Base.{
  ℕ, zero, suc, ◌+◌, ◌<◌, ◌≡◌, refl, sym, ap, ◌∙◌, Bool, some, List, [], ◌∷◌, ◌++◌, length, take,
  get_or, get_elem?, set, arith, append_assoc, append-nil, take-take_append, take_all, length-take,
  list_ext, lt→ltb,
}
use pico_modbus_meter.Lwip.{Pbuf, Holds}
use pico_modbus_meter.StaticVector.{StaticVector, contents, set_elem}
use pico_modbus_meter.StaticVector.Bounded.{push_lem}
use pico_modbus_meter.StaticVector.Bounded
use pico_modbus_meter.SunspecModbus.{
  TcpIo, Connection, ok, buffer_size, max_connections, find, push_bytes, tcp_server_recv,
}

-- the `k` bytes of a packet from index `i` on
abbrev pub bytes_from : Pbuf → ℕ → ℕ → List ℕ
bytes_from p zero i = []
bytes_from p (suc k) i = p.get_at i ∷ bytes_from p k (i + 1)

bytes_from-get_or :
    (p : Pbuf) (bytes : List ℕ)
    → Holds bytes p
    → (k i j : ℕ) → j < k
    → get_or (bytes_from p k i) j 0 ≡ get_or bytes (i + j) 0
bytes_from-get_or p bytes h zero i j l = absurd (omega arith)
bytes_from-get_or p bytes h (suc k) i zero l = h.reads i ∙ ap (λ m. get_or bytes m 0) (omega arith)
bytes_from-get_or p bytes h (suc k) i (suc j) l =
    bytes_from-get_or p bytes h k (i + 1) j (omega arith) ∙ ap (λ m. get_or bytes m 0) (omega arith)

length-bytes_from : (p : Pbuf) (k i : ℕ) → length (bytes_from p k i) ≡ k
length-bytes_from p zero i = refl
length-bytes_from p (suc k) i = ap suc (length-bytes_from p k (i + 1))

bytes_from-all : (p : Pbuf) (bytes : List ℕ) → Holds bytes p → bytes_from p (length bytes) 0 ≡ bytes
bytes_from-all p bytes h =
    let same = length-bytes_from p (length bytes) 0 in
    list_ext _ _ 0 same λ k l.
      bytes_from-get_or p bytes h (length bytes) 0 k (omega (arith, same, l))
      ∙ ap (λ m. get_or bytes m 0) (omega arith)

push_bytes_lem :
    (p : Pbuf) (k i : ℕ) (b : StaticVector ℕ)
    → Bounded.IsValid buffer_size b
    → (b' : StaticVector ℕ) × (push_bytes p k i b ≡ some b')
      × Bounded.IsValid buffer_size b'
      × (contents b' ≡ take buffer_size (contents b ++ bytes_from p k i))
push_bytes_lem p zero i b v = (
  b,
  refl,
  v,
  sym (
      ap (take buffer_size) (append-nil (contents b))
      ∙ take_all buffer_size (contents b)
          (omega (arith, length-take b.cur_size b.storage, v.capacity, v.within))),
)
push_bytes_lem p (suc k) i b v =
    let (flag, b1, pushed, v1, shown) = push_lem buffer_size b v (p.get_at i) in
    let (b2, rest, v2, shown2) = push_bytes_lem p k (i + 1) b1 v1 in
    (
      b2,
      rw pushed rest,
      v2,
      shown2
          ∙ ap (λ xs. take buffer_size (xs ++ bytes_from p k (i + 1))) shown
          ∙ take-take_append buffer_size (contents b ++ p.get_at i ∷ []) (bytes_from p k (i + 1))
          ∙ ap (take buffer_size)
              (append_assoc (contents b) (p.get_at i ∷ []) (bytes_from p k (i + 1))),
    )

-- the table has eight slots, and every slot a valid buffer
pub record IsValid (io : TcpIo) : Type 0 where
  pub table : Bounded.IsValid max_connections io.conns
  pub buffers :
      (i : ℕ) (c : Connection)
      → get_elem? io.conns.storage i ≡ some c
      → Bounded.IsValid buffer_size c.buffer

-- A packet that arrives on the connection in slot `i` of a valid table is read whole without leaving a
-- buffer: its bytes are appended to the buffer of that connection as far as they fit, what does not fit
-- is dropped, and the other slots and the rest of the state stay.
pub tcp_server_recv_lem :
    (close_ok : Bool) (io : TcpIo) (tpcb i : ℕ) (c : Connection) (p : Pbuf) (bytes : List ℕ)
    → IsValid io
    → Holds bytes p
    → find io tpcb ≡ some i
    → get_elem? io.conns.storage i ≡ some c
    → i < max_connections
    → (b : StaticVector ℕ) × (tcp_server_recv close_ok io tpcb (some p)
        ≡ some (
          ok,
          record io {
            conns = record io.conns { storage = set io.conns.storage i (record c { buffer = b }) };
          },
        ))
      × Bounded.IsValid buffer_size b
      × (contents b ≡ take buffer_size (contents c.buffer ++ bytes))
unfolding tcp_server_recv set_elem
tcp_server_recv_lem close_ok io tpcb i c p bytes v holds found at within =
    let (b, pushed, valid, shown) = push_bytes_lem p p.tot_len 0 c.buffer (v.buffers i c at) in
    (
      b,
      rw (
        found,
        at,
        pushed,
        lt→ltb i (length io.conns.storage) (omega (arith, within, v.table.capacity)),
      ),
      valid,
      shown
          ∙ ap (λ k. take buffer_size (contents c.buffer ++ bytes_from p k 0)) holds.total
          ∙ ap (λ xs. take buffer_size (contents c.buffer ++ xs)) (bytes_from-all p bytes holds),
    )
