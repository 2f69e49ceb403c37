-- ===== src/HttpServer/Frames.antt =====
-- The loop of `res_write_body`: it sends a frame whenever the buffer is full.
use pico_modbus_meter.Base.{
  ℕ, zero, suc, ◌+◌, ◌-◌, ◌*◌, ◌≤◌, ◌≡◌, refl, sym, ap, ◌∙◌, ◌⊎◌, inl, inr, some, List, [], ◌∷◌,
  ◌++◌, append-nil, append_assoc, arith, ℕ_discrete, length, take, drop, length-append, length-take,
  length-drop, ==_iff, ne→==, take-append-drop, take_all, le→leb, ◌<◌, ◌^◌, if◌then◌else◌, ◌==◌,
  none, Option, true, false, Bool,
}
use pico_modbus_meter.HttpServer.{buf_size, Err, Event, Round, send_data, Net}
use pico_modbus_meter.HttpServer.Response.{
  Writing, frame_size, stream_full, write_round, write_rounds, append_size, appended, substr,
}
use pico_modbus_meter.Base.Memory.{◌>>=◌}
use pico_modbus_meter.StaticString.{sv, StaticString, append, clear}
use pico_modbus_meter.HttpServer.Sending.{written, Serves, send_data-completes}
use pico_modbus_meter.StaticString.Bounds.{IsValid, text, sv-text, length-text, append_lem}

-- What the loop keeps: what lwIP has, what the buffer holds and what is left of the body are `total`
-- together, and lwIP will take them and `k` bytes more.
pub record Carries (client k : ℕ) (total pcbs : List ℕ) (w : Writing) : Type 0 where
  pub valid : IsValid buf_size w.buffer
  pub room : w.buffer.cur_size ≤ frame_size
  pub short : length w.rest < 2 ^ 31
  pub serves : Serves (w.buffer.cur_size + (length w.rest + k)) w.net.rounds
  pub whole : (written client w.net.events ++ text w.buffer) ++ w.rest ≡ total
  pub same_pcbs : w.net.client_pcbs ≡ pcbs

pub Serves-le : {j k : ℕ} {rounds : List Round} → Serves k rounds → j ≤ k → Serves j rounds
Serves-le s h = record { outputs = s.outputs; few = s.few; enough = omega (arith, s.enough, h) }

pub length-nil : (xs : List ℕ) → length xs ≡ 0 → xs ≡ []
length-nil [] h = refl
length-nil (x ∷ xs) h = absurd (omega (arith, h))

-- An append that fits.
pub append-fits :
    (s : StaticString) (d : List ℕ)
    → IsValid buf_size s
    → s.cur_size + length d ≤ buf_size
    → (t : StaticString) × (append buf_size s d ≡ some t)
      × IsValid buf_size t
      × (text t ≡ text s ++ d)
      × (t.cur_size ≡ s.cur_size + length d)
append-fits s d v h =
    let (t, e, valid, shown) = append_lem buf_size s d v in
    let all : text t ≡ text s ++ d =
      shown
      ∙ take_all buf_size (text s ++ d) (omega (arith, length-append (text s) d, length-text v)) in
    (
      t,
      e,
      valid,
      all,
      sym (length-text valid)
          ∙ (ap length all ∙ omega (arith, length-append (text s) d, length-text v)),
    )

append_size-le :
    (w : Writing)
    → w.buffer.cur_size ≤ frame_size
    → length w.rest < 2 ^ 31
    → (append_size w + w.buffer.cur_size ≤ frame_size)
      × (append_size w ≤ length w.rest)
      × ((append_size w ≡ length w.rest) ⊎ (append_size w + w.buffer.cur_size ≡ frame_size))
unfolding append_size
append_size-le w h short = ground arith

-- the buffer with the bytes of a round appended
record Fits (w : Writing) (b : StaticString) : Type 0 where
  done : append buf_size w.buffer (take (append_size w) w.rest) ≡ some b
  valid : IsValid buf_size b
  shown : text b ≡ text w.buffer ++ take (append_size w) w.rest
  grown : b.cur_size ≡ w.buffer.cur_size + append_size w

append_size-Fits :
    (w : Writing)
    → IsValid buf_size w.buffer
    → w.buffer.cur_size ≤ frame_size
    → length w.rest < 2 ^ 31
    → (b : StaticString) × Fits w b
append_size-Fits w v h short =
    let (le_frame, le_rest, _) = append_size-le w h short in
    let size : length (take (append_size w) w.rest) ≡ append_size w =
      omega (arith, length-take (append_size w) w.rest, le_rest) in
    let (b, e, valid, shown, grown) =
      append-fits w.buffer (take (append_size w) w.rest) v (omega (arith, size, le_frame)) in
    (b, record { done = e; valid = valid; shown = shown; grown = omega (arith, grown, size) })

-- the round with the append and the rest of the body
abbrev advanced : Writing → StaticString → Writing
advanced w b = record (appended w b) { rest = drop (append_size w) w.rest }

appended-Carries :
    (client k : ℕ) (total pcbs : List ℕ) (w : Writing) (b : StaticString)
    → Carries client k total pcbs w
    → Fits w b
    → Carries client k total pcbs (advanced w b)
appended-Carries client k total pcbs w b c f = record {
  valid = f.valid;
  room = omega (arith, f.grown, (append_size-le w c.room c.short).0);
  short = omega (arith, c.short, length-drop (append_size w) w.rest);
  serves = Serves-le c.serves (
      omega
        (arith, f.grown, length-drop (append_size w) w.rest, (append_size-le w c.room c.short).1));
  whole =
      ap (λ x. (written client w.net.events ++ x) ++ drop (append_size w) w.rest) f.shown
      ∙ (ap (λ x. x ++ drop (append_size w) w.rest)
            (sym (append_assoc (written client w.net.events) (text w.buffer) _))
          ∙ (append_assoc (written client w.net.events ++ text w.buffer) _ _
              ∙ (ap (◌++◌ (written client w.net.events ++ text w.buffer))
                    (take-append-drop (append_size w) w.rest)
                  ∙ c.whole)));
  same_pcbs = c.same_pcbs;
}

-- Nothing is left, or the frame is full.
appended-left :
    (w w' : Writing) (b : StaticString)
    → w.buffer.cur_size ≤ frame_size
    → length w.rest < 2 ^ 31
    → Fits w b
    → w'.rest ≡ drop (append_size w) w.rest
    → (b.cur_size ≡ frame_size → w'.buffer.cur_size ≡ 0)
    → (length w'.rest ≡ 0)
      ⊎ (w'.buffer.cur_size + length w'.rest + frame_size ≡ w.buffer.cur_size + length w.rest)
appended-left w w' b h short f r full =
    let left : length w'.rest ≡ length w.rest - append_size w =
      ap length r ∙ length-drop (append_size w) w.rest in
    let (_, le_rest, which) = append_size-le w h short in
    elim which [
      | inl all ↦ inl (omega (arith, left, all))
      | inr frame ↦ inr (omega (arith, left, le_rest, frame, full (omega (arith, f.grown, frame))))
    ]

module _ (close_err : List Event → ℕ → Err) where
  stream_full-Carries :
      (client k : ℕ) (total pcbs : List ℕ) (w : Writing)
      → Carries client k total pcbs w
      → (w' : Writing) × (stream_full close_err client w ≡ some w')
        × Carries client k total pcbs w'
        × (w'.rest ≡ w.rest)
        × (w.buffer.cur_size ≡ frame_size → w'.buffer.cur_size ≡ 0)
  unfolding stream_full clear
  stream_full-Carries client k total pcbs w c = elim (ℕ_discrete w.buffer.cur_size frame_size) [
    | yes full ↦
        let (net', e, s, sent, pcbs') =
          send_data-completes close_err (text w.buffer) client (length w.rest + k) w.net
            (rw (length-text c.valid) c.serves) in
        (
          record w { buffer = clear w.buffer; net = net' },
          rw ((==_iff w.buffer.cur_size frame_size).1 full, sv-text c.valid, e) refl,
          record {
            valid = record {
              capacity = c.valid.capacity;
              small = c.valid.small;
              within = omega arith;
            };
            room = omega arith;
            short = c.short;
            serves = Serves-le s (omega arith);
            whole = ap (λ x. x ++ w.rest) (append-nil _ ∙ sent) ∙ c.whole;
            same_pcbs = pcbs' ∙ c.same_pcbs;
          },
          refl,
          λ _. refl,
        )
    | no not_full ↦ (
      w,
      rw (ne→== w.buffer.cur_size frame_size not_full) refl,
      c,
      refl,
      λ full. absurd (not_full full),
    )
  ]

  -- The rest of the body may be set before the frame is sent.
  stream_full-rest :
      (client : ℕ) (w : Writing) (rest : List ℕ)
      → (stream_full close_err client w >>= λ w'. some (record w' { rest = rest }))
        ≡ stream_full close_err client (record w { rest = rest })
  unfolding stream_full
  stream_full-rest client w rest = by_size (w.buffer.cur_size == frame_size)
    where
      by_size :
          (b : Bool)
          → ((if b
                then (sv w.buffer >>= λ frame. send_data close_err frame client w.net >>= λ sent.
                    some (record w { buffer = clear w.buffer; net = sent.1 }))
                else some w)
              >>= λ w'. some (record w' { rest = rest }))
            ≡ (if b
                then (sv w.buffer >>= λ frame. send_data close_err frame client w.net >>= λ sent.
                    some (record w { buffer = clear w.buffer; net = sent.1; rest = rest }))
                else some (record w { rest = rest }))
      by_size false = refl
      by_size true = by_frame (sv w.buffer)
        where
          by_sent :
              (o : Option (Err × Net))
              → ((o >>= λ sent. some (record w { buffer = clear w.buffer; net = sent.1 })) >>= λ w'.
                  some (record w' { rest = rest }))
                ≡ (o >>= λ sent.
                    some (record w { buffer = clear w.buffer; net = sent.1; rest = rest }))
          by_sent none = refl
          by_sent (some sent) = refl

          by_frame :
              (o : Option (List ℕ))
              → ((o >>= λ frame. send_data close_err frame client w.net >>= λ sent.
                    some (record w { buffer = clear w.buffer; net = sent.1 }))
                  >>= λ w'. some (record w' { rest = rest }))
                ≡ (o >>= λ frame. send_data close_err frame client w.net >>= λ sent.
                    some (record w { buffer = clear w.buffer; net = sent.1; rest = rest }))
          by_frame none = refl
          by_frame (some frame) = by_sent (send_data close_err frame client w.net)

  -- After a round nothing is left, or there is a frame less.
  write_round-Carries :
      (client k : ℕ) (total pcbs : List ℕ) (w : Writing)
      → Carries client k total pcbs w
      → (w' : Writing) × (write_round close_err client w ≡ some w')
        × Carries client k total pcbs w'
        × ((length w'.rest ≡ 0)
            ⊎ (w'.buffer.cur_size + length w'.rest + frame_size
                ≡ w.buffer.cur_size + length w.rest))
  unfolding write_round substr
  write_round-Carries client k total pcbs w c =
      let (b, f) = append_size-Fits w c.valid c.room c.short in
      let (w', e, c', r, full) =
        stream_full-Carries client k total pcbs (advanced w b)
          (appended-Carries client k total pcbs w b c f) in
      (
        w',
        rw (f.done, le→leb (append_size w) (length w.rest) (append_size-le w c.room c.short).1)
            (stream_full-rest client (appended w b) (drop (append_size w) w.rest) ∙ e),
        c',
        appended-left w w' b c.room c.short f r full,
      )

  pub write_rounds-Carries :
      (i client k : ℕ) (total pcbs : List ℕ) (w : Writing)
      → Carries client k total pcbs w
      → (length w.rest ≡ 0) ⊎ (w.buffer.cur_size + length w.rest ≤ i * frame_size)
      → (w' : Writing) × (write_rounds close_err i client w ≡ some w')
        × Carries client k total pcbs w'
        × (length w'.rest ≡ 0)
  unfolding write_rounds
  write_rounds-Carries zero client k total pcbs w c h = (w, refl, c, ground arith)
  write_rounds-Carries (suc i) client k total pcbs w c h = elim (ℕ_discrete (length w.rest) 0) [
    | yes done ↦ (w, rw ((==_iff (length w.rest) 0).1 done) refl, c, done)
    | no left ↦
        let (w', e, c', h') = write_round-Carries client k total pcbs w c in
        let (w'', e', c'', done) =
          write_rounds-Carries i client k total pcbs w' c' (ground arith) in
        (w'', rw (ne→== (length w.rest) 0 left, e) e', c'', done)
  ]
