-- ===== src/DnsServer/Reply.antt =====
-- Which requests the DNS server answers, and with what bytes.
use pico_modbus_meter.Base.{
  ℕ, ◌+◌, ◌-◌, ◌≤◌, ◌<◌, ◌≡◌, refl, ap, ap₂, ◌∙◌, Bool, true, none, some, List, ◌++◌, length, take,
  drop, get_or, arith, le→ltb, lt→ltb, dec_lt, ◌*◌, ◌/◌, ◌%◌, ◌^◌, ◌&&◌, ◌==◌, leb, Bool-cases, ◌⊎◌,
  inl, inr, length-take, length-drop, append-nil, take-append_add, take-append_le, drop-append_le,
  take-take,
}
use pico_modbus_meter.Base.Memory.{load-ok, overwrite, length-overwrite, store_bytes-ok}
use pico_modbus_meter.DnsServer.{
  Name, ends_at, invalid_label, skip_name, is_query, be16, write_answer, answer_head, header_tail,
  answer,
}
use pico_modbus_meter.DnsServer.Walk.{skip_name_total, EndsBy}

-- The `n` bytes of `msg` are a standard query whose first name ends before position `q` and is not
-- too long.
pub record Accepted (msg : List ℕ) (n q : ℕ) : Type 0 where
  pub has_header : 12 ≤ n
  pub query : is_query msg ≡ some true
  pub name : skip_name 301 msg n 12 ≡ some (ends_at q)
  pub short : q ≤ 267
  pub after_header : 12 ≤ q

-- The reply by its parts: the id of the request, the new header, the question of the request, and
-- the address record.
abbrev pub reply_to : List ℕ → List ℕ → ℕ → List ℕ
reply_to ip msg q =
    take 2 msg ++ (header_tail ++ (drop 12 (take (q + 4) msg) ++ (answer_head ++ ip)))

-- The start of a message in which `w` was written at `q`, and then `h` over bytes 2 to 11.
patched :
    (msg w h : List ℕ) (q k : ℕ)
    → length h ≡ 10
    → 12 ≤ q
    → k ≡ q + length w
    → k ≤ length msg
    → take k (overwrite (overwrite msg q w) 2 h) ≡ take 2 msg ++ (h ++ (drop 12 (take q msg) ++ w))
unfolding overwrite
patched msg w h q k ten lo e fits =
    ap₂ (λ a b. take k (a ++ (h ++ b))) id_kept question_kept
    ∙ (take-append_add k (k - 2) (take 2 msg) _ (omega (arith, length-take 2 msg))
        ∙ ap (◌++◌ (take 2 msg)) (
            take-append_add (k - 2) (k - 12) h _ (omega (arith, ten))
            ∙ ap (◌++◌ h) (
                take-append_add (k - 12) (length w) (drop 12 (take q msg)) _
                  (omega (arith, length-drop 12 (take q msg), length-take q msg))
                ∙ ap (◌++◌ (drop 12 (take q msg)))
                    (take-append_add (length w) 0 w _ (omega arith) ∙ append-nil w))))
  where
    tail : List ℕ
    tail = drop (q + length w) msg

    id_kept : take 2 (take q msg ++ (w ++ tail)) ≡ take 2 msg
    id_kept =
        take-append_le 2 (take q msg) (w ++ tail) (omega (arith, length-take q msg))
        ∙ take-take 2 q msg (omega arith)

    question_kept :
        drop (2 + length h) (take q msg ++ (w ++ tail)) ≡ drop 12 (take q msg) ++ (w ++ tail)
    question_kept =
        ap (λ j. drop j (take q msg ++ (w ++ tail))) twelve
        ∙ drop-append_le 12 (take q msg) (w ++ tail) (omega (arith, length-take q msg))
      where
        twelve : 2 + length h ≡ 12
        twelve = omega (arith, ten)

-- Writing the answer and the header in place gives a buffer that begins with that reply.
write_answer-reply :
    (ip msg : List ℕ) (q : ℕ)
    → length ip ≡ 4
    → length msg ≡ 300
    → 12 ≤ q
    → q ≤ 267
    → (m : List ℕ) × (write_answer ip msg (q + 4) ≡ some (m, q + 20))
      × (length m ≡ 300)
      × (take (q + 20) m ≡ reply_to ip msg q)
unfolding write_answer
write_answer-reply ip msg q hi hm lo hq =
    let w : List ℕ = answer_head ++ ip in
    let first : length (overwrite msg (q + 4) w) ≡ 300 =
      length-overwrite msg (q + 4) w (omega (arith, hi, hm)) ∙ hm in
    (
      overwrite (overwrite msg (q + 4) w) 2 header_tail,
      rw
          (
            store_bytes-ok msg (q + 4) w (omega (arith, hi, hm)),
            store_bytes-ok (overwrite msg (q + 4) w) 2 header_tail (omega (arith, first)),
          )
          (ap (λ k. some (overwrite (overwrite msg (q + 4) w) 2 header_tail, k))
            (omega (arith, hi))),
      length-overwrite (overwrite msg (q + 4) w) 2 header_tail (omega (arith, first)) ∙ first,
      patched msg w header_tail (q + 4) (q + 20) refl (omega arith) (omega (arith, hi))
          (omega (arith, hm)),
    )

module _ (ip msg : List ℕ) (n : ℕ) (address : length ip ≡ 4) (whole : length msg ≡ 300) where
  -- An accepted request is answered by `reply_to`.
  pub answer-Accepted :
      (q : ℕ)
      → Accepted msg n q
      → (m : List ℕ) × (answer ip msg n ≡ some (some (m, q + 20)))
        × (length m ≡ 300)
        × (take (q + 20) m ≡ reply_to ip msg q)
  unfolding answer
  answer-Accepted q a =
      let (m, e, l, r) = write_answer-reply ip msg q address whole a.after_header a.short in
      (
        m,
        rw (
          le→ltb n 12 a.has_header,
          a.query,
          a.name,
          le→ltb 255 (q - 12) (omega (arith, a.short)),
          e,
        ),
        l,
        r,
      )

  be16_total : (i : ℕ) → i + 1 < 300 → (v : ℕ) × (be16 msg i ≡ some v)
  unfolding be16
  be16_total i h = (
    get_or msg i 0 * 256 + get_or msg (i + 1) 0,
    rw (load-ok msg i (omega (arith, whole)), load-ok msg (i + 1) (omega (arith, whole))),
  )

  is_query_total : (b : Bool) × (is_query msg ≡ some b)
  unfolding is_query
  is_query_total =
      let (flags, e) = be16_total 2 (omega arith) in
      let (count, g) = be16_total 4 (omega arith) in
      (flags / 2 ^ 15 % 2 == 0 && (flags / 2 ^ 11 % 16 == 0 && leb 1 count), rw (e, g))

  answer_of_name :
      (m : Name)
      → 12 ≤ n
      → is_query msg ≡ some true
      → skip_name 301 msg n 12 ≡ some m
      → EndsBy 12 (n + 63) m
      → ((q : ℕ) × Accepted msg n q) ⊎ (answer ip msg n ≡ some none)
  unfolding answer
  answer_of_name invalid_label h query e b = inr (rw (le→ltb n 12 h, query, e))
  answer_of_name (ends_at q) h query e b = elim (dec_lt 255 (q - 12)) [
    | yes long ↦ inr (rw (le→ltb n 12 h, query, e, lt→ltb 255 (q - 12) long))
    | no short ↦ inl (
      q,
      record { has_header = h; query = query; name = e; short = omega arith; after_header = b.0 },
    )
  ]

  -- Every other request of at most 300 bytes is ignored.
  pub answer-cases : n ≤ 300 → ((q : ℕ) × Accepted msg n q) ⊎ (answer ip msg n ≡ some none)
  unfolding answer
  answer-cases h = elim (dec_lt n 12) [
    | yes few ↦ inr (rw (lt→ltb n 12 few))
    | no enough ↦
        let (b, e) = is_query_total in
        elim (Bool-cases b) [
          | inl query ↦
              let (m, name, ends) =
                skip_name_total 301 msg n 12 (omega (arith, whole)) (omega arith) (omega arith)
                  (omega arith) in
              answer_of_name m (omega arith) (e ∙ ap some query) name ends
          | inr other ↦ inr (rw (le→ltb n 12 (omega arith), e, other))
        ]
  ]
