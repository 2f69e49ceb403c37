-- ===== src/HttpServer/Streaming.antt =====
-- `res_write_body` sends a body that is larger than the buffer in frames, and loses nothing of it.
use pico_modbus_meter.Base.{
  ℕ, ◌+◌, ◌*◌, ◌≤◌, ◌≡◌, refl, sym, ap, ◌∙◌, inr, false, none, some, List, ◌++◌, append-nil,
  append_assoc, arith, length, length-append, length-take, ==_iff, ne→==, lt→leb, ◌-◌, take, ◌<◌,
  ◌^◌, true, lt→ltb, ◌%◌,
}
use pico_modbus_meter.HttpServer.{
  MessageBuffer, buf_size, Err, err_ok, Event, Net, send_data, StaticString,
}
use pico_modbus_meter.HttpServer.Response.{
  frame_size, crlf, write_round, write_rounds, res_write_body, append_size, substr, stream_full,
}
use pico_modbus_meter.HttpServer.Frames.{length-nil, append-fits, Serves-le, write_rounds-Carries}
use pico_modbus_meter.StaticVector.{int_lt}
use pico_modbus_meter.HttpServer.Sending.{written, Serves, send_data-completes}
use pico_modbus_meter.StaticString.{sv}
use pico_modbus_meter.StaticString.Bounds.{IsValid, text, sv-text, length-text, append_lem}
use pico_modbus_meter.Base.Memory.{◌>>=◌}

-- An append without room for more leaves the buffer full.
append-full :
    (s : StaticString) (d : List ℕ) {t : StaticString}
    → IsValid buf_size s
    → IsValid buf_size t
    → text t ≡ take buf_size (text s ++ d)
    → buf_size ≤ s.cur_size + length d
    → t.cur_size ≡ buf_size
append-full s d v valid shown long =
    sym (length-text valid)
    ∙ (ap length shown
        ∙ omega (
          arith,
          length-take buf_size (text s ++ d),
          length-append (text s) d,
          length-text v,
          long,
        ))

module _ (close_err : List Event → ℕ → Err) where
  -- A response with at most 4093 bytes so far, not streaming and without a body, and a body for which 32 frames suffice: if in
  -- the rounds of lwIP every `tcp_output` succeeds, fewer than ten writes are refused, and at least as many writes succeed
  -- with room for a byte or more as the whole response has bytes, then `res_write_body` and the `send_data` of the rest
  -- give lwIP the status line and headers, an empty line and the body, in order, and the slots stay.
  pub res_write_body-send_data :
      (body : List ℕ) (m : MessageBuffer) (net : Net)
      → IsValid buf_size m.buffer
      → m.buffer.cur_size + 2 ≤ frame_size
      → m.body.size ≡ 0
      → m.on_stream_out ≡ false
      → m.buffer.cur_size + 2 + length body ≤ 32 * frame_size
      → Serves (m.buffer.cur_size + 2 + length body) net.rounds
      → (net' : Net) × ((res_write_body close_err body m net >>= λ (m', sent).
            sv m'.buffer >>= λ frame. send_data close_err frame m.tpcb sent)
          ≡ some (err_ok, net'))
        × (written m.tpcb net'.events
            ≡ written m.tpcb net.events ++ (text m.buffer ++ (crlf ++ body)))
        × (net'.client_pcbs ≡ net.client_pcbs)
  unfolding res_write_body
  res_write_body-send_data body m net v room empty quiet few s =
      let (b, e, valid, shown, grown) = append-fits m.buffer crlf v (omega (arith, room)) in
      let (w, rounds, c, done) =
        write_rounds-Carries close_err 32 m.tpcb 0 ((written m.tpcb net.events ++ text b) ++ body)
          net.client_pcbs
          (record { buffer = b; on_stream_out = false; start = b.cur_size; rest = body; net = net })
          (record {
            valid = valid;
            room = omega (arith, grown, room);
            short = omega (arith, few);
            serves = Serves-le s (omega (arith, grown));
            whole = refl;
            same_pcbs = refl;
          })
          (inr (omega (arith, grown, few))) in
      let (net', sent, _, all, same) =
        send_data-completes close_err (text w.buffer) m.tpcb 0 w.net
          (Serves-le c.serves (omega (arith, length-text c.valid))) in
      (
        net',
        rw ((==_iff m.body.size 0).1 empty, quiet, e, rounds, sv-text c.valid) sent,
        all
            ∙ (sym (append-nil _)
                ∙ (ap (◌++◌ (written m.tpcb w.net.events ++ text w.buffer))
                      (sym (length-nil w.rest done))
                    ∙ (c.whole
                        ∙ (append_assoc (written m.tpcb net.events) (text b) body
                            ∙ ap (◌++◌ (written m.tpcb net.events)) (
                                ap (λ x. x ++ body) shown
                                ∙ append_assoc (text m.buffer) crlf body))))),
        same ∙ c.same_pcbs,
      )

  -- With 4094 bytes or more before the empty line, not streaming and without a body, `res_write_body` of a body of 1 to 2 ^ 31 - 1
  -- bytes has no room, so that `append_size` is -1: the `substr` at this position throws.
  pub res_write_body-overlong :
      (body : List ℕ) (m : MessageBuffer) (net : Net)
      → IsValid buf_size m.buffer
      → frame_size ≤ m.buffer.cur_size + 1
      → m.body.size ≡ 0
      → m.on_stream_out ≡ false
      → 0 < length body
      → length body < 2 ^ 31
      → res_write_body close_err body m net ≡ none
  unfolding res_write_body write_rounds write_round append_size substr stream_full
  res_write_body-overlong body m net v long empty quiet some_body short =
      let (b, e, valid, shown) = append_lem buf_size m.buffer crlf v in
      let full : b.cur_size ≡ buf_size =
        append-full m.buffer crlf v valid shown (omega (arith, long)) in
      let (b', e', valid', shown') = append_lem buf_size b (take (2 ^ 32 - 1) body) valid in
      let full' : b'.cur_size ≡ buf_size =
        append-full b (take (2 ^ 32 - 1) body) valid valid' shown' (omega (arith, full)) in
      let negative : (frame_size + 2 ^ 32 - b.cur_size) % 2 ^ 32 ≡ 2 ^ 32 - 1 =
        omega (arith, full) in
      let is_less : int_lt (2 ^ 32 - 1) (length body % 2 ^ 32) ≡ true =
        lt→ltb _ _ (omega (arith, some_body, short)) in
      rw
        (
          (==_iff m.body.size 0).1 empty,
          quiet,
          e,
          ne→== (length body) 0 (λ z. omega (arith, z, some_body)),
          negative,
          is_less,
          e',
          ne→== b'.cur_size frame_size (λ z. omega (arith, z, full')),
          lt→leb (2 ^ 32 - 1) (length body) (omega (arith, short)),
        )
        refl
