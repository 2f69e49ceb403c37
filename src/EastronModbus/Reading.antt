-- ===== src/EastronModbus/Reading.antt =====
-- What `read_bytes` returns, and when.
use pico_modbus_meter.Base.{
  ℕ, zero, suc, ◌*◌, ◌≤◌, ◌<◌, ◌≡◌, refl, sym, ap, ◌∙◌, ◌⊎◌, inl, inr, Bool, true, false, ◌&&◌,
  Option, none, some, List, [], ◌∷◌, ◌++◌, append-nil, append_assoc, arith, dec_lt, ltb, length,
  take, Bool-cases, length-append, length-take, take_all, take-append_le, le→ltb,
}
use pico_modbus_meter.StaticVector.{StaticVector, contents, clear, push}
use pico_modbus_meter.StaticVector.Bounded.{IsValid, push-room, push-full}
use pico_modbus_meter.EastronModbus.{
  Turn, buffer_size, sub_u32, is_recent, receive, read_loop, read_bytes,
}

-- the bytes of these arrivals, and of these rounds
abbrev pub bytes_of : List (ℕ × ℕ) → List ℕ
bytes_of [] = []
bytes_of ((byte, now) ∷ arrivals) = byte ∷ bytes_of arrivals

abbrev pub bytes_in : List Turn → List ℕ
bytes_in [] = []
bytes_in (t ∷ ts) = bytes_of t.arrivals ++ bytes_in ts

-- the time of the last byte, if there is one
abbrev pub last_of : Option ℕ → List (ℕ × ℕ) → Option ℕ
last_of last [] = last
last_of last ((byte, now) ∷ arrivals) = last_of (some now) arrivals

abbrev pub last_in : Option ℕ → List Turn → Option ℕ
last_in last [] = last
last_in last (t ∷ ts) = last_in (last_of last t.arrivals) ts

-- the time after these rounds
abbrev pub end_of : ℕ → List Turn → ℕ
end_of cur [] = cur
end_of cur (t ∷ ts) = end_of t.next ts

-- `max_timeout` has passed, or more than the time of four bytes since the last byte.
abbrev pub IsOver : ℕ → ℕ → ℕ → Option ℕ → Type 0
IsOver max_timeout start cur last =
    (max_timeout ≤ sub_u32 cur start)
    ⊎ ((l : ℕ) × (last ≡ some l) × (40_000 < sub_u32 cur l * 9600))

length-contents : (v : StaticVector ℕ) → IsValid buffer_size v → length (contents v) ≡ v.cur_size
length-contents v valid =
    omega (arith, length-take v.cur_size v.storage, valid.capacity, valid.within)

-- The vector with as much of the bytes appended as fits.
abbrev Appended : StaticVector ℕ → List ℕ → StaticVector ℕ → Type 0
Appended v bytes w = IsValid buffer_size w × (contents w ≡ take buffer_size (contents v ++ bytes))

push_lem :
    (v : StaticVector ℕ) (byte : ℕ)
    → IsValid buffer_size v
    → (b : Bool) × (w : StaticVector ℕ) × (push buffer_size v byte ≡ some (b, w))
      × Appended v (byte ∷ []) w
push_lem v byte valid = elim (dec_lt v.cur_size buffer_size) [
  | yes h ↦
      let (w, pushed, valid', shown) = push-room buffer_size v valid byte h in
      (
        true,
        w,
        pushed,
        (
          valid',
          shown
              ∙ sym (
                  take_all buffer_size (contents v ++ byte ∷ []) (
                    omega
                      (arith, length-append (contents v) (byte ∷ []), length-contents v valid))),
        ),
      )
  | no f ↦
      let full : v.cur_size ≡ buffer_size = omega (arith, valid.within) in
      (
        false,
        v,
        push-full buffer_size v valid byte full,
        (
          valid,
          sym (
              take-append_le buffer_size (contents v) (byte ∷ [])
                (omega (arith, length-contents v valid))
              ∙ take_all buffer_size (contents v) (omega (arith, length-contents v valid))),
        ),
      )
]

take-append_take : (n : ℕ) (xs ys : List ℕ) → take n (take n xs ++ ys) ≡ take n (xs ++ ys)
take-append_take zero xs ys = refl
take-append_take (suc n) [] ys = refl
take-append_take (suc n) (x ∷ xs) ys = ap (◌∷◌ x) (take-append_take n xs ys)

receive_lem :
    (arrivals : List (ℕ × ℕ)) (v : StaticVector ℕ) (last : Option ℕ)
    → IsValid buffer_size v
    → (w : StaticVector ℕ) × (receive arrivals v last ≡ some (w, last_of last arrivals))
      × Appended v (bytes_of arrivals) w
unfolding receive
receive_lem [] v last valid = (
  v,
  refl,
  (
    valid,
    rw append-nil (
        sym (
          take_all buffer_size (contents v)
            (omega (arith, length-contents v valid, valid.within)))),
  ),
)
receive_lem ((byte, now) ∷ arrivals) v last valid =
    let (b, w, pushed, (valid_w, shown_w)) = push_lem v byte valid in
    let (u, done, (valid_u, shown_u)) = receive_lem arrivals w (some now) valid_w in
    (
      u,
      rw pushed done,
      (
        valid_u,
        shown_u
            ∙ (ap (λ x. take buffer_size (x ++ bytes_of arrivals)) shown_w
                ∙ (take-append_take buffer_size (contents v ++ byte ∷ []) (bytes_of arrivals)
                    ∙ ap (take buffer_size)
                        (append_assoc (contents v) (byte ∷ []) (bytes_of arrivals)))),
      ),
    )

module _ (max_timeout start : ℕ) where
  -- the condition of the loop
  abbrev goes_on : ℕ → Option ℕ → Bool
  goes_on cur last = ltb (sub_u32 cur start) max_timeout && is_recent cur last

  read_loop-stop :
      (ts : List Turn) (cur : ℕ) (last : Option ℕ) (v : StaticVector ℕ)
      → goes_on cur last ≡ false
      → read_loop max_timeout start ts cur last v ≡ some v
  unfolding read_loop
  read_loop-stop [] cur last v off = rw off refl
  read_loop-stop (t ∷ ts) cur last v off = rw off refl

  read_loop-step :
      (t : Turn) (ts : List Turn) (cur : ℕ) (last last' : Option ℕ) (v w : StaticVector ℕ)
      → goes_on cur last ≡ true
      → receive t.arrivals v last ≡ some (w, last')
      → read_loop max_timeout start (t ∷ ts) cur last v
        ≡ read_loop max_timeout start ts t.next last' w
  unfolding read_loop
  read_loop-step t ts cur last last' v w on received = rw (on, received) refl

  late_stops :
      (cur : ℕ) (last : Option ℕ) → max_timeout ≤ sub_u32 cur start → goes_on cur last ≡ false
  late_stops cur last late = rw (le→ltb (sub_u32 cur start) max_timeout late) refl

  over : (cur : ℕ) (last : Option ℕ) → goes_on cur last ≡ false → IsOver max_timeout start cur last
  over cur none off = inl (ground (arith, off))
  over cur (some l) off = elim (dec_lt (sub_u32 cur start) max_timeout) [
    | yes h ↦ inr (l, refl, ground (arith, off, h))
    | no f ↦ inl (omega arith)
  ]

  -- The loop ends with what arrived in these rounds from the first on, and then it is over.
  abbrev pub Collects : List Turn → ℕ → Option ℕ → StaticVector ℕ → Option (StaticVector ℕ) → Type 0
  Collects ts cur last v r =
      (read : List Turn) × (left : List Turn) × (w : StaticVector ℕ) × (ts ≡ read ++ left)
      × (r ≡ some w)
      × IsValid buffer_size w
      × (contents w ≡ take buffer_size (contents v ++ bytes_in read))
      × IsOver max_timeout start (end_of cur read) (last_in last read)

  stopped :
      (ts all : List Turn) (cur : ℕ) (last : Option ℕ) (v : StaticVector ℕ)
      → IsValid buffer_size v
      → goes_on cur last ≡ false
      → Collects ts cur last v (read_loop max_timeout start all cur last v)
  stopped ts all cur last v valid off = (
    [],
    ts,
    v,
    refl,
    read_loop-stop all cur last v off,
    valid,
    rw append-nil (
        sym (
          take_all buffer_size (contents v)
            (omega (arith, length-contents v valid, valid.within)))),
    over cur last off,
  )

  collected :
      (t : Turn) (ts : List Turn) (cur : ℕ) (last : Option ℕ) (v w : StaticVector ℕ)
      (r : Option (StaticVector ℕ))
      → Appended v (bytes_of t.arrivals) w
      → Collects ts t.next (last_of last t.arrivals) w r
      → Collects (t ∷ ts) cur last v r
  collected t ts cur last v w r (valid, shown)
        (read, left, u, split, done, valid_u, shown_u, finished) =
      (
        t ∷ read,
        left,
        u,
        ap (◌∷◌ t) split,
        done,
        valid_u,
        shown_u
            ∙ (ap (λ x. take buffer_size (x ++ bytes_in read)) shown
                ∙ (take-append_take buffer_size (contents v ++ bytes_of t.arrivals) (bytes_in read)
                    ∙ ap (take buffer_size)
                        (append_assoc (contents v) (bytes_of t.arrivals) (bytes_in read)))),
        finished,
      )

  read_loop-Collects :
      (early : List Turn) (t : Turn) (late : List Turn) (cur : ℕ) (last : Option ℕ)
      (v : StaticVector ℕ)
      → IsValid buffer_size v
      → max_timeout ≤ sub_u32 t.next start
      → Collects
          (early ++ t ∷ [])
          cur
          last
          v
          (read_loop max_timeout start (early ++ t ∷ late) cur last v)
  read_loop-Collects [] t late cur last v valid ends = elim (Bool-cases (goes_on cur last)) [
    | inr off ↦ stopped (t ∷ []) (t ∷ late) cur last v valid off
    | inl on ↦
        let last' = last_of last t.arrivals in
        let (w, done, added) = receive_lem t.arrivals v last valid in
        rw (read_loop-step t late cur last last' v w on done) (
          collected t [] cur last v w (read_loop max_timeout start late t.next last' w) added
            (stopped [] late t.next last' w added.0 (late_stops t.next last' ends)))
  ]
  read_loop-Collects (b ∷ early) t late cur last v valid ends =
      elim (Bool-cases (goes_on cur last)) [
        | inr off ↦ stopped (b ∷ (early ++ t ∷ [])) (b ∷ (early ++ t ∷ late)) cur last v valid off
        | inl on ↦
            let last' = last_of last b.arrivals in
            let (w, done, added) = receive_lem b.arrivals v last valid in
            rw (read_loop-step b (early ++ t ∷ late) cur last last' v w on done) (
              collected b (early ++ t ∷ []) cur last v w
                (read_loop max_timeout start (early ++ t ∷ late) b.next last' w) added
                (read_loop-Collects early t late b.next last' w added.0 ends))
      ]

  -- Once a round ends at the timeout or later, `read_bytes` ends with it at the latest. It returns what arrived in the rounds up to its end,
  -- of which it keeps the first 1024 bytes, and nothing of what the buffer held before; and it ends only when the timeout has passed or the time
  -- of four bytes since the last byte.
  pub read_bytes-Collects :
      (early : List Turn) (t : Turn) (late : List Turn) (cur : ℕ) (v : StaticVector ℕ)
      → IsValid buffer_size v
      → max_timeout ≤ sub_u32 t.next start
      → (read : List Turn) × (left : List Turn) × (w : StaticVector ℕ) × (early ++ t ∷ []
          ≡ read ++ left)
        × (read_bytes max_timeout start cur (early ++ t ∷ late) v ≡ some w)
        × IsValid buffer_size w
        × (contents w ≡ take buffer_size (bytes_in read))
        × IsOver max_timeout start (end_of cur read) (last_in none read)
  unfolding read_bytes
  read_bytes-Collects early t late cur v valid ends =
      read_loop-Collects early t late cur none (clear v)
        (record { capacity = valid.capacity; small = valid.small; within = omega arith }) ends
