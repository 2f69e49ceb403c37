-- ===== src/DhcpServer.antt =====
-- src/dhcpserver.c and include/dhcpserver/dhcpserver.h: the DHCP server of the access point, which
-- leases eight addresses. `dhcp_msg` is the list of its 548 bytes; what no packet fills is what the
-- stack held before, an argument. Time is an argument: `ticks i` is what `hal_ticks_ms()` returns
-- in round `i` of the loop over the leases, and `ticks 0` in a request.
pub mod Options
pub mod Expiry
pub mod Search
pub mod Overrun
pub mod Leases
pub mod Serve
mod Tests
use pico_modbus_meter.Base.{
  ℕ, ◌+◌, ◌-◌, ◌*◌, ◌/◌, ◌%◌, ◌^◌, min, Bool, Option, none, some, List, [], ◌∷◌, ◌++◌, take,
  get_elem?, set, replicate, ltb, leb, ◌==◌, if◌then◌else◌, bytes_eq,
}
use pico_modbus_meter.Base.Memory.{◌>>=◌, load, load_bytes, store_bytes}
use pico_modbus_meter.Lwip.{
  Pbuf, Answers, Event, alloc, free_sent, free_received, send, send_if, SendResult, sent, no_memory,
  failed,
}
use Options.{
  Found, found, not_found, overrun, opt_find, opt_write_n, opt_write_u8, opt_write_u32,
  opt_subnet_mask, opt_router, opt_dns, opt_requested_ip, opt_ip_lease_time, opt_msg_type,
  opt_server_id, opt_end,
}

abbrev pub base_ip : ℕ
base_ip = 16

abbrev pub max_ip : ℕ
max_ip = 8

abbrev pub default_lease_time_s : ℕ
default_lease_time_s = 24 * 60 * 60

abbrev pub dhcp_offer : ℕ
dhcp_offer = 2

abbrev pub dhcp_ack : ℕ
dhcp_ack = 5

-- `DHCP_MIN_SIZE`, `sizeof(dhcp_msg_t)`, and the offsets of its fields
abbrev pub dhcp_min_size : ℕ
dhcp_min_size = 240 + 3

abbrev pub msg_size : ℕ
msg_size = 548

abbrev pub yiaddr : ℕ
yiaddr = 16

abbrev pub chaddr : ℕ
chaddr = 28

-- `options`, behind the magic cookie
abbrev pub options : ℕ
options = 236 + 4

pub record Lease : Type 0 where
  pub mac : List ℕ
  pub expiry : ℕ

-- `dhcp_server_t`: addresses as their four bytes, the socket as a handle.
pub record Server : Type 0 where
  pub ip : List ℕ
  pub nm : List ℕ
  pub lease : List Lease
  pub udp : Option ℕ

abbrev pub no_mac : List ℕ
no_mac = replicate 6 0

-- The expiry is kept in units of 65536 ms, in 16 bits; the test is on the sign of a 32-bit
-- difference, after a subtraction in 64 bits.
unfoldable pub is_expired : ℕ → ℕ → Bool
is_expired expiry now = leb (2 ^ 31) ((expiry * 2 ^ 16 + 0xffff + 2 ^ 64 - now) % 2 ^ 64 % 2 ^ 32)

unfoldable pub new_expiry : ℕ → ℕ
new_expiry now = (now + default_lease_time_s * 1000) % 2 ^ 64 / 2 ^ 16 % 2 ^ 16

-- One round of the loop of DHCPDISCOVER, at a lease of another client: the lease after it and
-- the candidate `yi`, which is `max_ip` as long as there is none.
unfoldable pub visit : ℕ → ℕ → Lease → ℕ → Lease × ℕ
visit now i l yi =
    if yi == max_ip
    then (if is_expired l.expiry now
        then (record l { mac = no_mac }, i)
        else (l, if bytes_eq l.mac no_mac then i else yi))
    else (l, yi)

-- The loop, at the leases from index `i` on.
unfoldable pub discover : (ℕ → ℕ) → List ℕ → ℕ → List Lease → ℕ → List Lease × ℕ
discover ticks mac i [] yi = ([], yi)
discover ticks mac i (l ∷ ls) yi =
    if bytes_eq l.mac mac
    then (l ∷ ls, i)
    else (let (l', yi') = visit (ticks i) i l yi in
        let (ls', y) = discover ticks mac (i + 1) ls yi' in (l' ∷ ls', y))

-- The lease check of DHCPREQUEST, at index `yi`: the new table, or none if the address is in use.
unfoldable pub request : ℕ → List ℕ → List Lease → ℕ → Option (List Lease)
request now mac leases yi = get_elem? leases yi >>= λ l.
    if bytes_eq l.mac mac
    then some (set leases yi (record l { expiry = new_expiry now }))
    else if bytes_eq l.mac no_mac
    then some (set leases yi (record { mac = mac; expiry = new_expiry now }))
    else none

-- The rest of the message, from the message type on: the message and its end.
unfoldable pub write_reply : Server → List ℕ → ℕ → ℕ → Option (List ℕ × ℕ)
write_reply d msg yi msg_type = store_bytes msg (yiaddr + 3) ((base_ip + yi) % 256 ∷ []) >>= λ m.
    opt_write_u8 m options opt_msg_type msg_type >>= λ (m, o).
    opt_write_n m o opt_server_id 4 d.ip >>= λ (m, o).
    opt_write_n m o opt_subnet_mask 4 d.nm >>= λ (m, o).
    opt_write_n m o opt_router 4 d.ip >>= λ (m, o). opt_write_n m o opt_dns 4 d.ip >>= λ (m, o).
    opt_write_u32 m o opt_ip_lease_time default_lease_time_s >>= λ (m, o).
    store_bytes m o (opt_end ∷ []) >>= λ m. some (m, o + 1)

-- What a handler makes of a request: the server after it, and the reply with its length, if there
-- is one.
abbrev pub Outcome : Type 0
Outcome = Server × Option (List ℕ × ℕ)

unfoldable pub handle_discover : Server → (ℕ → ℕ) → List ℕ → List ℕ → Option Outcome
handle_discover d ticks msg mac =
    let (ls, yi) = discover ticks mac 0 d.lease max_ip in
    let d' = record d { lease = ls } in
    if yi == max_ip
    then some (d', none)
    else (write_reply d' msg yi dhcp_offer >>= λ r. some (d', some r))

-- After `opt_find`: undefined behaviour, a request that is ignored, or the rest.
abbrev pub on_found : Found → Server → (ℕ → Option Outcome) → Option Outcome
on_found overrun d k = none
on_found not_found d k = some (d, none)
on_found (found i) d k = k i

-- After the check of the lease: the address is in use, or the request is acknowledged.
abbrev pub acknowledge : Option (List Lease) → Server → List ℕ → ℕ → Option Outcome
acknowledge none d msg yi = some (d, none)
acknowledge (some ls) d msg yi = write_reply (record d { lease = ls }) msg yi dhcp_ack >>= λ r.
    some (record d { lease = ls }, some r)

-- `uint8_t yi = o[5] - DHCPS_BASE_IP` is taken modulo 256.
unfoldable pub handle_request : Server → (ℕ → ℕ) → List ℕ → List ℕ → Option Outcome
handle_request d ticks msg mac = opt_find msg options opt_requested_ip >>= λ r. on_found r d λ i.
    load_bytes msg (options + (i + 2)) 3 >>= λ net.
    if bytes_eq net (take 3 d.ip)
    then (load msg (options + (i + 5)) >>= λ last.
        let yi = (last + 256 - base_ip) % 256 in
        if leb max_ip yi
        then some (d, none)
        else acknowledge (request (ticks 0) mac d.lease yi) d msg yi)
    else some (d, none)

-- From the message in the buffer to the outcome: the switch on the message type.
unfoldable pub handle : Server → (ℕ → ℕ) → List ℕ → Option Outcome
handle d ticks msg = store_bytes msg 0 (dhcp_offer ∷ []) >>= λ m.
    store_bytes m yiaddr (take 4 d.ip) >>= λ m. opt_find m options opt_msg_type >>= λ r.
    on_found r d λ i. load m (options + (i + 2)) >>= λ type. load_bytes m chaddr 6 >>= λ mac.
    if type == 1
    then handle_discover d ticks m mac
    else if type == 3
    then handle_request d ticks m mac
    else some (d, none)

-- `dhcp_socket_sendto`, to 255.255.255.255 and the client's port, through the given interface.
unfoldable pub sendto : Answers → Option ℕ → List ℕ → ℕ → Option (SendResult × List Event)
sendto a nif buf len =
    let n = min len 0xffff in
    if a.alloc_ok
    then (load_bytes buf 0 n >>= λ payload. some (
      if a.send_err == 0 then sent n else failed a.send_err,
      alloc
          ∷ elim nif [
            | none ↦ send payload (255 ∷ 255 ∷ 255 ∷ 255 ∷ []) 68
            | some netif ↦ send_if netif payload (255 ∷ 255 ∷ 255 ∷ 255 ∷ []) 68
          ]
          ∷ free_sent
          ∷ [],
    ))
    else some (no_memory, [])

-- After the handler: the reply is sent, if there is one, and the packet is freed.
abbrev pub respond :
    Answers → Option ℕ → Server → Option (List ℕ × ℕ) → Option (Server × List Event)
respond a nif d none = some (d, free_received ∷ [])
respond a nif d (some (reply, len)) =
    sendto a nif reply len >>= λ s. some (d, s.1 ++ free_received ∷ [])

-- `dhcp_server_process`: the server after it and the calls made. `none` is undefined behaviour.
unfoldable pub process :
    Answers → Server → (ℕ → ℕ) → Option ℕ → List ℕ → Pbuf → Option (Server × List Event)
process a d ticks nif stack p =
    if ltb p.tot_len dhcp_min_size
    then some (d, free_received ∷ [])
    else (let (msg, n) = p.copy_partial stack msg_size 0 in
        if ltb n dhcp_min_size
        then some (d, free_received ∷ [])
        else (handle d ticks msg >>= λ (d', r). respond a nif d' r))

-- `dhcp_server_init` and `dhcp_server_deinit`, given what `udp_new` returns.
pub data SocketCall : Type 0 where
  recv : ℕ → SocketCall
  bind_any : ℕ → ℕ → SocketCall
  remove : ℕ → SocketCall

unfoldable pub init : Option ℕ → Server → List ℕ → List ℕ → Server × List SocketCall
init udp_new d ip nm =
    let d' : Server = record {
      ip = ip;
      nm = nm;
      lease = replicate 8 (record { mac = no_mac; expiry = 0 });
      udp = udp_new;
    } in
    elim udp_new [ none ↦ (d', []) | some h ↦ (d', recv h ∷ bind_any h 67 ∷ []) ]

unfoldable pub deinit : Server → Server × List SocketCall
deinit d = elim d.udp [ none ↦ (d, []) | some h ↦ (record d { udp = none }, remove h ∷ []) ]
