-- ===== src/DnsServer.antt =====
-- src/dnsserver.c: the DNS server of the access point, which answers every query with the
-- device's own address. The 300 bytes of `dns_msg` are a list; the part that no packet fills is
-- what the stack held before, an argument.
pub mod Walk
pub mod Safety
pub mod Reply
mod Tests
use pico_modbus_meter.Base.{
  ℕ, zero, suc, ◌+◌, ◌-◌, ◌*◌, ◌/◌, ◌%◌, ◌^◌, Bool, ◌&&◌, Option, none, some, List, [], ◌∷◌, ◌++◌,
  length, ltb, leb, ◌==◌, if◌then◌else◌, min,
}
use pico_modbus_meter.Base.Memory.{◌>>=◌, load, store_bytes, load_bytes}
use pico_modbus_meter.Lwip.{
  Pbuf, Answers, Event, alloc, free_sent, free_received, send, SendResult, sent, no_memory, failed,
}

-- `MAX_DNS_MSG_SIZE`, and `sizeof(dns_header_t)`
abbrev pub max_dns_msg_size : ℕ
max_dns_msg_size = 300

abbrev pub header_size : ℕ
header_size = 12

abbrev pub port_dns_server : ℕ
port_dns_server = 53

-- `dns_server_t`: the address as its four bytes, the socket as a handle.
pub record Server : Type 0 where
  pub udp : Option ℕ
  pub ip : List ℕ

-- A `uint16_t` field in network order, through `lwip_ntohs`.
unfoldable pub be16 : List ℕ → ℕ → Option ℕ
unfolding load
be16 m i = load m i >>= λ hi. load m (i + 1) >>= λ lo. some (hi * 256 + lo)

-- QR says query, the opcode is standard, and there is a question.
unfoldable pub is_query : List ℕ → Option Bool
unfolding be16
is_query msg = be16 msg 2 >>= λ flags. be16 msg 4 >>= λ question_count.
    some (flags / 2 ^ 15 % 2 == 0 && (flags / 2 ^ 11 % 16 == 0 && leb 1 question_count))

pub data Name : Type 0 where
  -- the position behind the name
  ends_at : ℕ → Name
  invalid_label : Name

-- The loop over the labels of the question, from position `q` to `stop`. The first argument is
-- fuel; `none` means that it ran out, or a read outside the message.
unfoldable pub skip_name : ℕ → List ℕ → ℕ → ℕ → Option Name
skip_name zero msg stop q = none
skip_name (suc fuel) msg stop q =
    if ltb q stop
    then (load msg q >>= λ label_len.
        let rest = skip_name fuel msg stop (q + 1 + label_len) in
        if label_len == 0
        then some (ends_at (q + 1))
        else if ltb 63 label_len
        then some invalid_label
        else rest)
    else some (ends_at q)

-- The resource record behind the question: a pointer to the name, type A, class IN, 60 seconds.
abbrev pub answer_head : List ℕ
answer_head = 0xc0 ∷ header_size ∷ 0 ∷ 1 ∷ 0 ∷ 1 ∷ 0 ∷ 0 ∷ 0 ∷ 60 ∷ 0 ∷ 4 ∷ []

-- The header from the flags on: a response, authoritative, RA; one question and one answer.
abbrev pub header_tail : List ℕ
header_tail = 0x84 ∷ 0x80 ∷ 0 ∷ 1 ∷ 0 ∷ 1 ∷ 0 ∷ 0 ∷ 0 ∷ 0 ∷ []

-- The message with the answer behind position `q` and the new header, and its length.
unfoldable pub write_answer : List ℕ → List ℕ → ℕ → Option (List ℕ × ℕ)
write_answer ip msg q = store_bytes msg q (answer_head ++ ip) >>= λ with_answer.
    store_bytes with_answer 2 header_tail >>= λ with_header.
    some (with_header, q + length (answer_head ++ ip))

-- What is sent in answer to the `n` bytes of `msg`, `some none` if the request is ignored.
unfoldable pub answer : List ℕ → List ℕ → ℕ → Option (Option (List ℕ × ℕ))
answer ip msg n =
    if ltb n header_size
    then some none
    else (is_query msg >>= λ ok.
        if ok
        then (skip_name (suc max_dns_msg_size) msg n header_size >>= λ name. elim name [
          | invalid_label ↦ some none
          | ends_at q ↦
              if ltb 255 (q - header_size)
              then some none
              else (write_answer ip msg (q + 4) >>= λ r. some (some r))
        ])
        else some none)

-- `dns_socket_sendto`: at most 0xffff bytes of `buf`, in a packet that is freed again.
unfoldable pub sendto : Answers → List ℕ → ℕ → List ℕ → ℕ → Option (SendResult × List Event)
sendto a buf len dest port =
    let n = min len 0xffff in
    if a.alloc_ok
    then (load_bytes buf 0 n >>= λ payload. some (
      if a.send_err == 0 then sent n else failed a.send_err,
      alloc ∷ send payload dest port ∷ free_sent ∷ [],
    ))
    else some (no_memory, [])

-- `dns_server_process`, as the calls that it makes. `stack` is what `dns_msg` holds at first.
unfoldable pub process : Answers → Server → List ℕ → Pbuf → List ℕ → ℕ → Option (List Event)
process a d stack p src_addr src_port =
    let (msg, n) = p.copy_partial stack max_dns_msg_size 0 in
    answer d.ip msg n >>= λ r. elim r [
      | none ↦ some (free_received ∷ [])
      | some (reply, len) ↦
          sendto a reply len src_addr src_port >>= λ s. some (s.1 ++ free_received ∷ [])
    ]

-- Setup and teardown. `udp_new` gives a handle or none.
pub data SocketCall : Type 0 where
  recv : ℕ → SocketCall
  bind : ℕ → List ℕ → ℕ → SocketCall
  remove : ℕ → SocketCall

-- the four bytes of an address given as a number, `IP4_ADDR(&addr, ip >> 24 & 0xff, …)`
unfoldable pub ip4_addr : ℕ → List ℕ
ip4_addr ip = ip / 2 ^ 24 % 256 ∷ ip / 2 ^ 16 % 256 ∷ ip / 2 ^ 8 % 256 ∷ ip % 256 ∷ []

-- `dns_server_init`, given what `udp_new` and `udp_bind` return (0 is `ERR_OK`). The build defines
-- NDEBUG, so the assertion behind a failed bind does nothing.
unfoldable pub init : Option ℕ → ℕ → Server → List ℕ → Server × List SocketCall
unfolding ip4_addr
init none bind_err d ip = (record d { udp = none }, [])
init (some h) bind_err d ip =
    let calls = recv h ∷ bind h (ip4_addr 0) port_dns_server ∷ [] in
    if bind_err == 0
    then (record d { udp = some h; ip = ip }, calls)
    else (record d { udp = some h }, calls)

-- `dns_socket_free`, on the socket of the server
unfoldable pub deinit : Server → Server × List SocketCall
deinit d = elim d.udp [ none ↦ (d, []) | some h ↦ (record d { udp = none }, remove h ∷ []) ]
