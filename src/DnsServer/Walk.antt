-- ===== src/DnsServer/Walk.antt =====
-- The loop over the labels of a question ends, and how far past the message it can point.
use pico_modbus_meter.Base.{
  ℕ, zero, suc, ◌+◌, ◌≤◌, ◌<◌, ◌≡◌, some, List, length, get_or, arith, ltb, Bool-cases, inl, inr,
  ◌==◌,
}
use pico_modbus_meter.Base.Memory.{load, load-ok}
use pico_modbus_meter.DnsServer.{Name, ends_at, invalid_label, skip_name}

-- A name that is accepted ends at most 63 bytes past the received bytes.
abbrev pub EndsBy : ℕ → ℕ → Name → Type 0
EndsBy q limit (ends_at e) = (q ≤ e) × (e ≤ limit)
EndsBy q limit invalid_label = Unit {0}

EndsBy-mono : (p q limit : ℕ) (m : Name) → p ≤ q → EndsBy q limit m → EndsBy p limit m
EndsBy-mono p q limit (ends_at e) h b = omega arith
EndsBy-mono p q limit invalid_label h b = tt

-- With fuel for the bytes that are left, the loop ends, reads inside the message only, and stops
-- at most 63 bytes past `stop`.
pub skip_name_total :
    (fuel : ℕ) (msg : List ℕ) (stop q : ℕ)
    → stop ≤ length msg
    → q ≤ stop + 63
    → stop < fuel + q
    → 0 < fuel
    → (m : Name) × (skip_name fuel msg stop q ≡ some m) × EndsBy q (stop + 63) m
unfolding skip_name
skip_name_total zero msg stop q h l f z = absurd (omega arith)
skip_name_total (suc fuel) msg stop q h l f z = elim (Bool-cases (ltb q stop)) [
  | inr past ↦ (ends_at q, rw past, omega arith)
  | inl before ↦
      let read : load msg q ≡ some (get_or msg q 0) = load-ok msg q (ground arith) in
      elim (Bool-cases (get_or msg q 0 == 0)) [
        | inl done ↦ (ends_at (q + 1), rw (before, read, done), ground arith)
        | inr label ↦ elim (Bool-cases (ltb 63 (get_or msg q 0))) [
          | inl long ↦ (invalid_label, rw (before, read, label, long), tt)
          | inr short ↦
              let (m, e, b) =
                skip_name_total fuel msg stop (q + 1 + get_or msg q 0) h (ground arith)
                  (ground arith) (ground arith) in
              (m, rw (before, read, label, short) e, EndsBy-mono q _ (stop + 63) m (omega arith) b)
        ]
      ]
]
