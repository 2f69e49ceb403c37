-- ===== src/DnsServer/Tests.antt =====
-- The DNS server at concrete packets, and its theorems applied there.
use pico_modbus_meter.Base.{ℕ, ◌≡◌, refl, true, some, List, [], ◌∷◌, replicate, arith}
use pico_modbus_meter.Lwip.{
  Answers, Event, alloc, send, free_sent, free_received, packet, packet-Holds, total, is_alloc,
  is_free_sent, is_free_received,
}
use pico_modbus_meter.DnsServer.{Server, process, skip_name, is_query}
use pico_modbus_meter.DnsServer.Reply.{Accepted, reply_to}
use pico_modbus_meter.DnsServer.Safety.{message, count, process-Accepted, process_safe}

abbrev server : Server
server = record { udp = some 1; ip = 192 ∷ 168 ∷ 4 ∷ 1 ∷ [] }

abbrev answers : Answers
answers = record { alloc_ok = true; send_err = 0 }

-- 300 bytes of the stack, each 0x55
abbrev stack : List ℕ
stack = replicate 300 0x55

-- A query for the name `a`, type A, class IN.
abbrev query : List ℕ
query = 0xab ∷ 0xcd ∷ 1 ∷ 0 ∷ 0 ∷ 1 ∷ 0 ∷ 0 ∷ 0 ∷ 0 ∷ 0 ∷ 0 ∷ 1 ∷ b'a' ∷ 0 ∷ 0 ∷ 1 ∷ 0 ∷ 1 ∷ []

query-Accepted : Accepted (message stack (packet query)) (count stack (packet query)) 15
unfolding skip_name is_query
query-Accepted = record {
  has_header = omega arith;
  query = refl;
  name = refl;
  short = omega arith;
  after_header = omega arith;
}

process-Accepted_example :
    process answers server stack (packet query) (10 ∷ 0 ∷ 0 ∷ 7 ∷ []) 4000
    ≡ some (
        alloc
        ∷ send (reply_to server.ip (message stack (packet query)) 15) (10 ∷ 0 ∷ 0 ∷ 7 ∷ []) 4000
        ∷ free_sent
        ∷ free_received
        ∷ [])
process-Accepted_example =
    process-Accepted answers server stack query (packet query) (10 ∷ 0 ∷ 0 ∷ 7 ∷ []) 4000
      (packet-Holds query) refl refl 15 query-Accepted refl

process_safe_example :
    (es : List Event) × (process answers server stack (packet query) (10 ∷ 0 ∷ 0 ∷ 7 ∷ []) 4000
      ≡ some es)
    × (total is_free_received es ≡ 1)
    × (total is_alloc es ≡ total is_free_sent es)
process_safe_example =
    process_safe answers server stack query (packet query) (10 ∷ 0 ∷ 0 ∷ 7 ∷ []) 4000
      (packet-Holds query) refl refl
