-- ===== src/DnsServer/Safety.antt =====
-- Handling a packet stays within the message buffer, frees what it owns, and sends what the
-- request asks for; what the reply shows of the buffer beyond the received bytes.
use pico_modbus_meter.Base.{
  ℕ, ◌+◌, ◌-◌, ◌≤◌, ◌<◌, min, ◌≡◌, refl, ap, ◌∙◌, true, false, some, List, [], ◌∷◌, ◌++◌, length,
  take, drop, get_or, arith, inl, inr, length-append, length-take, length-drop, get_or-append_left,
  get_or-append_right, get_or-take, get_or-drop, if◌then◌else◌, ◌==◌, Bool-cases,
}
use pico_modbus_meter.Base.Memory.{load_bytes-ok}
use pico_modbus_meter.Lwip.{
  SendResult, sent, no_memory, failed, Pbuf, Holds, Answers, Event, alloc, free_sent, free_received,
  send, total, is_alloc, is_free_sent, is_free_received,
}
use pico_modbus_meter.DnsServer.{Server, sendto, process, header_tail}
use pico_modbus_meter.DnsServer.Reply.{Accepted, reply_to, answer-Accepted, answer-cases}

-- the buffer after the packet was copied, and the number of bytes copied
abbrev pub message : List ℕ → Pbuf → List ℕ
message stack p = (p.copy_partial stack 300 0).0

abbrev pub count : List ℕ → Pbuf → ℕ
count stack p = (p.copy_partial stack 300 0).1

module _ (a : Answers) (m : List ℕ) (len : ℕ) (dest : List ℕ) (port : ℕ) (fits : len ≤ length m)
    (small : len ≤ 300) where
  sendto-sends :
      a.alloc_ok ≡ true
      → (r : SendResult) × (sendto a m len dest port
          ≡ some (r, alloc ∷ send (take len m) dest port ∷ free_sent ∷ []))
  unfolding sendto
  sendto-sends memory =
      let whole : min len 0xffff ≡ len = omega (arith, small) in
      (
        if a.send_err == 0 then sent len else failed a.send_err,
        rw (memory, whole, load_bytes-ok m 0 len (omega (arith, fits))),
      )

  sendto-fails : a.alloc_ok ≡ false → sendto a m len dest port ≡ some (no_memory, [])
  unfolding sendto
  sendto-fails memory = rw memory

module _ (a : Answers) (d : Server) (stack bytes : List ℕ) (p : Pbuf) (src : List ℕ) (port : ℕ)
    (packet : Holds bytes p) (whole : length stack ≡ 300) (address : length d.ip ≡ 4) where
  message-eq : message stack p ≡ take 300 bytes ++ drop (min 300 (length bytes)) stack
  message-eq =
      ap (λ r. r.0) (packet.copies stack 300 0 (omega (arith, whole)))
      ∙ ap (λ k. take 300 bytes ++ drop (min 300 k) stack) (omega arith)

  count-eq : count stack p ≡ min 300 (length bytes)
  count-eq = ap (λ r. r.1) (packet.copies stack 300 0 (omega (arith, whole))) ∙ omega arith

  length-message : length (message stack p) ≡ 300
  length-message =
      ap length message-eq
      ∙ omega (
        arith,
        length-append (take 300 bytes) (drop (min 300 (length bytes)) stack),
        length-take 300 bytes,
        length-drop (min 300 (length bytes)) stack,
        whole,
      )

  -- With 300 bytes of buffer and an address of four bytes, a packet that is an accepted query, with
  -- memory for a reply, makes exactly these calls: a packet is allocated, `reply_to` is sent to the
  -- sender, and the packet and the received one are freed.
  pub process-Accepted :
      (q : ℕ)
      → Accepted (message stack p) (count stack p) q
      → a.alloc_ok ≡ true
      → process a d stack p src port
        ≡ some (
            alloc
            ∷ send (reply_to d.ip (message stack p) q) src port
            ∷ free_sent
            ∷ free_received
            ∷ [])
  unfolding process
  process-Accepted q ok memory =
      let (m, e, l, r) =
        answer-Accepted d.ip (message stack p) (count stack p) address length-message q ok in
      let (s, sends) =
        sendto-sends a m (q + 20) src port (omega (arith, l, ok.short)) (omega (arith, ok.short))
          memory in
      rw (e, sends) (ap (λ x. some (alloc ∷ send x src port ∷ free_sent ∷ free_received ∷ [])) r)

  -- With 300 bytes of buffer and an address of four bytes, every packet, whatever its bytes, is
  -- handled to the end without an access outside a buffer; the received packet is freed exactly
  -- once, and as many packets are freed as were allocated.
  pub process_safe :
      (es : List Event) × (process a d stack p src port ≡ some es)
      × (total is_free_received es ≡ 1)
      × (total is_alloc es ≡ total is_free_sent es)
  unfolding process
  process_safe =
      elim (answer-cases d.ip (message stack p) (count stack p) address length-message
        (omega (arith, count-eq))) [
          | inr ignored ↦ (free_received ∷ [], rw ignored, refl, refl)
          | inl (q, ok) ↦ elim (Bool-cases a.alloc_ok) [
            | inl memory ↦ (_, process-Accepted q ok memory, refl, refl)
            | inr none_left ↦
                let (m, e, l, r) =
                  answer-Accepted d.ip (message stack p) (count stack p) address length-message q
                    ok in
                (
                  free_received ∷ [],
                  rw (
                    e,
                    sendto-fails a m (q + 20) src port (omega (arith, l, ok.short))
                        (omega (arith, ok.short)) none_left,
                  ),
                  refl,
                  refl,
                )
          ]
        ]

  -- A request that is no accepted query gets no reply.
  pub process-silent :
      ((q : ℕ) → ¬ Accepted (message stack p) (count stack p) q)
      → process a d stack p src port ≡ some (free_received ∷ [])
  unfolding process
  process-silent refused =
      elim (answer-cases d.ip (message stack p) (count stack p) address length-message
        (omega (arith, count-eq))) [
          | inr ignored ↦ rw ignored
          | inl (q, ok) ↦ absurd (refused q ok)
        ]

  stack_byte :
      (q k : ℕ)
      → q ≤ 267
      → 12 ≤ count stack p
      → count stack p ≤ k
      → k < q + 4
      → get_or (reply_to d.ip (message stack p) q) k 0 ≡ get_or stack k 0
  stack_byte q k small header past before =
      get_or-append_right k (k - 2) (take 2 (message stack p)) _ 0
        (omega (arith, length-take 2 (message stack p), length-message))
      ∙ (get_or-append_right (k - 2) (k - 12) header_tail _ 0 (omega arith)
          ∙ (get_or-append_left (k - 12) (drop 12 (take (q + 4) (message stack p))) _ 0 (
                omega (
                  arith,
                  length-drop 12 (take (q + 4) (message stack p)),
                  length-take (q + 4) (message stack p),
                  length-message,
                ))
              ∙ (get_or-drop (k - 12) 12 k (take (q + 4) (message stack p)) 0 (omega arith)
                  ∙ (get_or-take k (q + 4) (message stack p) 0 before
                      ∙ (ap (λ m. get_or m k 0) message-eq
                          ∙ (get_or-append_right k (k - min 300 (length bytes)) (take 300 bytes) _ 0
                                (omega (arith, length-take 300 bytes, count-eq))
                              ∙ get_or-drop (k - min 300 (length bytes)) (min 300 (length bytes)) k
                                  stack 0 (omega (arith, count-eq))))))))

  -- The reply to an accepted query, with memory for it, repeats at each position from the end of
  -- the received bytes up to four past the name the byte that the stack held there before.
  pub process_shows_stack :
      (q : ℕ)
      → Accepted (message stack p) (count stack p) q
      → a.alloc_ok ≡ true
      → (reply : List ℕ) × (process a d stack p src port
          ≡ some (alloc ∷ send reply src port ∷ free_sent ∷ free_received ∷ []))
        × ((k : ℕ) → count stack p ≤ k → k < q + 4 → get_or reply k 0 ≡ get_or stack k 0)
  process_shows_stack q ok memory = (
    reply_to d.ip (message stack p) q,
    process-Accepted q ok memory,
    λ k past before. stack_byte q k ok.short ok.has_header past before,
  )
