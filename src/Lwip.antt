-- ===== src/Lwip.antt =====
-- What the program uses of lwIP and does not implement: received packets, as a parameter with the
-- documented behaviour of `pbuf_copy_partial` and `pbuf_get_at`, and the calls that it makes, as
-- events.
use pico_modbus_meter.Base.{
  ℕ, ◌+◌, ◌-◌, ◌≤◌, min, ◌≡◌, refl, Bool, List, [], ◌∷◌, ◌++◌, length, take, drop, get_or,
}

-- A received packet: `tot_len`, `pbuf_copy_partial(p, dataptr, len, offset)` as the new contents of
-- the target and the count, and `pbuf_get_at(p, i)`.
pub record Pbuf : Type 0 where
  pub tot_len : ℕ
  pub copy_partial : List ℕ → ℕ → ℕ → List ℕ × ℕ
  pub get_at : ℕ → ℕ

-- The documented behaviour: the packet holds `bytes`; a copy into an object that is large enough
-- replaces its first bytes and returns how many; a read past the end gives 0.
pub record Holds (bytes : List ℕ) (p : Pbuf) : Type 0 where
  pub total : p.tot_len ≡ length bytes
  pub copies :
      (target : List ℕ) (len offset : ℕ)
      → len ≤ length target
      → p.copy_partial target len offset ≡ (
        take len (drop offset bytes) ++ drop (min len (length bytes - offset)) target,
        min len (length bytes - offset),
      )
  pub reads : (i : ℕ) → p.get_at i ≡ get_or bytes i 0

-- A packet as its bytes.
abbrev pub packet : List ℕ → Pbuf
packet bytes = record {
  tot_len = length bytes;
  copy_partial = λ target len offset. (
    take len (drop offset bytes) ++ drop (min len (length bytes - offset)) target,
    min len (length bytes - offset),
  );
  get_at = λ i. get_or bytes i 0;
}

pub packet-Holds : (bytes : List ℕ) → Holds bytes (packet bytes)
packet-Holds bytes = record { total = refl; copies = λ t l o h. refl; reads = λ i. refl }

-- How the network stack answers the calls of one handler: whether `pbuf_alloc` finds memory, and
-- the error code of the send (0 is `ERR_OK`).
pub record Answers : Type 0 where
  pub alloc_ok : Bool
  pub send_err : ℕ

-- The calls made, in order.
pub data Event : Type 0 where
  -- `pbuf_alloc` that succeeded
  alloc : Event
  -- `pbuf_free` of the allocated packet
  free_sent : Event
  -- `pbuf_free` of the received packet
  free_received : Event
  -- a datagram: its bytes, the address and the port
  send : List ℕ → List ℕ → ℕ → Event
  -- the same through the given interface
  send_if : ℕ → List ℕ → List ℕ → ℕ → Event

-- The value of the two `sendto` helpers: a count, `-ENOMEM`, or an lwIP error.
pub data SendResult : Type 0 where
  sent : ℕ → SendResult
  no_memory : SendResult
  failed : ℕ → SendResult

module _ (e : Event) where
  abbrev pub is_alloc : ℕ
  is_alloc = elim e [ alloc ↦ 1 | _ ↦ 0 ]

  abbrev pub is_free_sent : ℕ
  is_free_sent = elim e [ free_sent ↦ 1 | _ ↦ 0 ]

  abbrev pub is_free_received : ℕ
  is_free_received = elim e [ free_received ↦ 1 | _ ↦ 0 ]

-- how many events of a kind
abbrev pub total : (Event → ℕ) → List Event → ℕ
total f [] = 0
total f (e ∷ es) = f e + total f es
