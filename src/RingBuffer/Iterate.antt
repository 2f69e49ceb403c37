-- ===== src/RingBuffer/Iterate.antt =====
-- Iterating over a ring buffer visits its window, oldest element first, and ends.
use pico_modbus_meter.Base.{
  ℕ, zero, suc, ◌+◌, ◌-◌, ◌%◌, ◌<◌, ◌≡◌, ◌≢◌, refl, sym, ap, ◌∙◌, Bool, true, false, not, ◌||◌,
  some, arith, get_elem?-eq-get_or, Bool-cases, inl, inr, ne→==, ==_iff,
}
use native.Mathlib.Nat.{mod-eq_of_lt, add-zero}
use pico_modbus_meter.RingBuffer.{RingBuffer, size, iterate, for_each}
use pico_modbus_meter.RingBuffer.Window.{
  IsValid, window, contents, round-ne, step-mod, push-size, at_start, size_full,
}

module _ {ℓ} {A : Type ℓ} (n : ℕ) (d : A) (r : RingBuffer A) (v : IsValid n r) where
  or_true : (b : Bool) → (b || true) ≡ true
  or_true true = refl
  or_true false = refl

  iterate_from :
      (f m h : ℕ) (s : Bool)
      → h < n
      → m < n
      → m < f
      → (h + m) % n ≡ r.cur_write
      → (not r.full || not s) ≡ true
      → iterate n f r (record { cur = h; start = s }) ≡ some (window n d r.storage h m)
  unfolding iterate
  iterate_from zero m h s l o g e q = absurd (omega arith)
  iterate_from (suc f) zero h s l o g e q =
      let here : h ≡ r.cur_write =
        sym (mod-eq_of_lt l) ∙ (ap (λ k. k % n) (sym (add-zero h)) ∙ e) in
      rw (q, (==_iff h r.cur_write).1 here)
  iterate_from (suc f) (suc m) h s l o g e q =
      let away : h ≢ r.cur_write = λ p.
        round-ne n h 0 (suc m) l o (omega arith)
          (ap (λ k. k % n) (add-zero h) ∙ (mod-eq_of_lt l ∙ (p ∙ sym e))) in
      let rest =
        iterate_from f m ((h + 1) % n) false (omega arith) (omega arith) (omega arith)
          (step-mod n h m ∙ e) (or_true (not r.full)) in
      rw (
        q,
        ne→== h r.cur_write away,
        get_elem?-eq-get_or r.storage h d (omega (arith, v.capacity)),
        rest,
      )

  iterate_full :
      r.full ≡ true
      → iterate n (suc n) r (record { cur = r.cur_start; start = true })
        ≡ some (window n d r.storage r.cur_start (suc (n - 1)))
  unfolding iterate
  iterate_full full =
      let rest =
        iterate_from n (n - 1) ((r.cur_start + 1) % n) false (omega (arith, v.positive))
          (omega (arith, v.positive)) (omega (arith, v.positive)) (sym (at_start n r v full))
          (or_true (not r.full)) in
      rw (
        get_elem?-eq-get_or r.storage r.cur_start d (omega (arith, v.capacity, v.start_in)),
        rest,
        full,
      )

  -- The loop over a valid buffer ends, reads only inside the array, and visits exactly the
  -- contents, oldest first.
  pub for_each_lem : for_each n r ≡ some (contents n d r)
  unfolding for_each
  for_each_lem = elim (Bool-cases r.full) [
    | inl full ↦ rw (size_full n r v full) (iterate_full full)
    | inr room ↦
        let (_, _, at_write, fits) = push-size n r d v room in
        iterate_from (suc n) (size n r) r.cur_start true v.start_in fits (omega arith) at_write
          (rw room)
  ]
