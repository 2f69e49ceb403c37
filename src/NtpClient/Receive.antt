-- ===== src/NtpClient/Receive.antt =====
-- The clock after a response, and when a response counts.
use pico_modbus_meter.Base.{
  ℕ, ◌+◌, ◌-◌, ◌*◌, ◌/◌, ◌%◌, ◌^◌, min, ◌≤◌, ◌<◌, ◌≡◌, refl, ap, true, false, some, List, [], ◌∷◌,
  ◌++◌, length, take, drop, replicate, leb, arith, if◌then◌else◌, Bool-cases, length-take,
  length-append, inr, length-drop, inl, get_or,
}
use pico_modbus_meter.Base.Memory.{load, load-ok}
use pico_modbus_meter.Lwip.{Pbuf, Holds, free_received}
use pico_modbus_meter.NtpClient.{
  NtpClient, ntp_delta, seconds_of, since_1970, is_response, ntp_recv, get_time_since_epoch,
}

-- A number of 32 bits in network order.
abbrev pub be32 : ℕ → List ℕ
be32 v = v / 2 ^ 24 % 256 ∷ v / 2 ^ 16 % 256 ∷ v / 2 ^ 8 % 256 ∷ v % 256 ∷ []

be32_sum :
    (v : ℕ)
    → v < 2 ^ 32
    → v / 2 ^ 24 % 256 * 2 ^ 24 + v / 2 ^ 16 % 256 * 2 ^ 16 + v / 2 ^ 8 % 256 * 2 ^ 8 + v % 256 ≡ v
be32_sum v h = omega arith

seconds_of-be32 :
    (v : ℕ)
    → v < 2 ^ 32
    → seconds_of (be32 v) ≡ some (if leb (2 ^ 31) v then v + 2 ^ 64 - 2 ^ 32 else v)
unfolding seconds_of load
seconds_of-be32 v h = rw (be32_sum v h)

since_1970_lem :
    (t : ℕ)
    → t + ntp_delta < 2 ^ 32 + 2 ^ 31
    → since_1970
        (let v = (t + ntp_delta) % 2 ^ 32 in if leb (2 ^ 31) v then v + 2 ^ 64 - 2 ^ 32 else v)
      ≡ t
unfolding since_1970
since_1970_lem t h = ground arith

copy_seconds :
    (bytes : List ℕ) (p : Pbuf)
    → Holds bytes p
    → (p.copy_partial (replicate 4 0) 4 40).0
      ≡ take 4 (drop 40 bytes) ++ drop (min 4 (length bytes - 40)) (replicate 4 0)
copy_seconds bytes p holds =
    ap (λ (x : List ℕ × ℕ). x.0) (holds.copies (replicate 4 0) 4 40 (omega arith))

length-copy :
    (bytes : List ℕ)
    → length (take 4 (drop 40 bytes) ++ drop (min 4 (length bytes - 40)) (replicate 4 0)) ≡ 4
length-copy bytes = omega (
  arith,
  length-append (take 4 (drop 40 bytes)) (drop (min 4 (length bytes - 40)) (replicate 4 0)),
  length-take 4 (drop 40 bytes),
  length-drop 40 bytes,
  length-drop {A = ℕ} (min 4 (length bytes - 40)) (replicate 4 0),
)

seconds_of_total : (buf : List ℕ) → length buf ≡ 4 → (v : ℕ) × (seconds_of buf ≡ some v)
unfolding seconds_of
seconds_of_total buf h = (
  (let v =
        get_or buf 0 0 * 2 ^ 24
        + get_or buf 1 0 * 2 ^ 16
        + get_or buf 2 0 * 2 ^ 8
        + get_or buf 3 0 in
      if leb (2 ^ 31) v then v + 2 ^ 64 - 2 ^ 32 else v),
  rw (
    load-ok buf 0 (omega arith),
    load-ok buf 1 (omega arith),
    load-ok buf 2 (omega arith),
    load-ok buf 3 (omega arith),
  ),
)

-- Every packet is handled without an access outside the buffer: it is freed once, and the address and
-- the socket of the client stay; a packet that is no response leaves the clock as well.
pub ntp_recv_safe :
    (now : ℕ) (c : NtpClient) (bytes : List ℕ) (p : Pbuf) (addr : List ℕ) (port : ℕ)
    → Holds bytes p
    → (c' : NtpClient) × (ntp_recv now c p addr port ≡ some (c', free_received ∷ []))
      × (c'.ntp_server_address ≡ c.ntp_server_address)
      × (c'.ntp_pcb ≡ c.ntp_pcb)
      × (is_response c p addr port ≡ false → c' ≡ c)
unfolding ntp_recv
ntp_recv_safe now c bytes p addr port holds = elim (Bool-cases (is_response c p addr port)) [
  | inr other ↦ (c, rw other, refl, refl, λ e. refl)
  | inl accepted ↦
      let (v, e) = seconds_of_total _ (length-copy bytes) in
      (
        record c { local_time = now / 1_000_000; ntp_time = since_1970 v },
        rw (accepted, copy_seconds bytes p holds, e),
        refl,
        refl,
        λ refused. cc,
      )
]

-- A response whose transmit time says `t` seconds since 1970, up to the year 2104, sets the clock: at
-- every `later` reading of the timer it shows `t` and the seconds since then.
pub ntp_recv-get_time_since_epoch :
    (now later t : ℕ) (c : NtpClient) (bytes : List ℕ) (p : Pbuf) (addr : List ℕ) (port : ℕ)
    → Holds bytes p
    → is_response c p addr port ≡ true
    → t + ntp_delta < 2 ^ 32 + 2 ^ 31
    → take 4 (drop 40 bytes) ≡ be32 ((t + ntp_delta) % 2 ^ 32)
    → now ≤ later
    → later < 2 ^ 64
    → (c' : NtpClient) × (ntp_recv now c p addr port ≡ some (c', free_received ∷ []))
      × (get_time_since_epoch later c' ≡ t + (later / 1_000_000 - now / 1_000_000))
unfolding ntp_recv get_time_since_epoch
ntp_recv-get_time_since_epoch now later t c bytes p addr port holds accepted era sent ordered
      bounded =
    let four : length (take 4 (drop 40 bytes)) ≡ 4 = ap length sent in
    let filled : min 4 (length bytes - 40) ≡ 4 =
      omega (arith, four, length-take 4 (drop 40 bytes), length-drop 40 bytes) in
    (
      record c { local_time = now / 1_000_000; ntp_time = t },
      rw (
        accepted,
        copy_seconds bytes p holds,
        filled,
        sent,
        seconds_of-be32 ((t + ntp_delta) % 2 ^ 32) (omega arith),
        since_1970_lem t era,
      ),
      omega arith,
    )
