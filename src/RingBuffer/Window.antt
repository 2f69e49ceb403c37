-- ===== src/RingBuffer/Window.antt =====
-- A ring buffer holds a window of its array, oldest element first; pushing slides the window.
use pico_modbus_meter.Base.{
  ℕ, zero, suc, ◌+◌, ◌-◌, ◌%◌, ◌≤◌, ◌<◌, ◌≡◌, ◌≢◌, refl, sym, ap, ap₂, ◌∙◌, ◌⊎◌, inl, inr, true,
  false, List, [], ◌∷◌, ◌++◌, length, get_or, set, arith, length-set, get_or-set_self,
  get_or-set_ne, drop, dec_lt,
}
use native.Mathlib.Nat.{mod-add-mod, mod-eq_of_lt, mod-eq-sub-mod, add-zero}
use pico_modbus_meter.RingBuffer.{RingBuffer, size, push}

pub record IsValid {ℓ} {A : Type ℓ} (n : ℕ) (r : RingBuffer A) : Type 0 where
  pub capacity : length r.storage ≡ n
  pub positive : 0 < n
  pub start_in : r.cur_start < n
  pub write_in : r.cur_write < n
  pub full_meets : r.full ≡ true → r.cur_start ≡ r.cur_write

-- `push` keeps a ring buffer valid: its array has `n` elements, both positions are in it, and they
-- meet when it is full.
pub push-IsValid {ℓ} :
    {A : Type ℓ} (n : ℕ) (r : RingBuffer A) (e : A) → IsValid n r → IsValid n (push n r e)
unfolding push
push-IsValid n r e v = ground (arith, length-set r.storage r.cur_write e)

mod-self_zero : (n : ℕ) → n % n ≡ 0
mod-self_zero n = grind arith

round_step :
    (n w : ℕ) → w < n → (((w + 1) % n ≡ w + 1) × (w + 1 < n)) ⊎ (((w + 1) % n ≡ 0) × (w + 1 ≡ n))
round_step n w h = elim (dec_lt (w + 1) n) [
  | yes p ↦ inl (mod-eq_of_lt p, p)
  | no p ↦ let e : w + 1 ≡ n = omega arith in inr (rw e (mod-self_zero n), e)
]

pub step-mod : (n h k : ℕ) → ((h + 1) % n + k) % n ≡ (h + suc k) % n
step-mod n h k = rw mod-add-mod (ap (λ j. j % n) (omega arith))

sym_pos : (n : ℕ) → 0 < n → suc (n - 1) ≡ n
sym_pos n h = omega arith

mod-round : (n h : ℕ) → h < n → (h + n) % n ≡ h
mod-round n h l = grind arith

add-mod_cases :
    (n h k : ℕ)
    → h < n
    → k < n
    → (((h + k) % n ≡ h + k) × (h + k < n)) ⊎ (((h + k) % n ≡ h + k - n) × (n ≤ h + k))
add-mod_cases n h k l m = elim (dec_lt (h + k) n) [
  | yes p ↦ inl (mod-eq_of_lt p, p)
  | no p ↦ inr (
    mod-eq-sub-mod {n = h + k} {m = n} (omega arith)
        ∙ mod-eq_of_lt {n = h + k - n} {m = n} (omega arith),
    omega arith,
  )
]

module _ {ℓ} {A : Type ℓ} (n : ℕ) (r : RingBuffer A) where
  -- The counts before and after a `push` into a buffer with room.
  pub push-size :
      (e : A)
      → IsValid n r
      → r.full ≡ false
      → ((push n r e).cur_start ≡ r.cur_start)
        × (size n (push n r e) ≡ suc (size n r))
        × ((r.cur_start + size n r) % n ≡ r.cur_write)
        × (size n r < n)
  unfolding push size
  push-size e v h = ground (
    arith,
    round_step n r.cur_write v.write_in,
    add-mod_cases n r.cur_start (size n r) v.start_in,
  )

  pub size_full : IsValid n r → r.full ≡ true → size n r ≡ suc (n - 1)
  unfolding size
  size_full v h = ground (arith, v.positive)

  pub at_start : IsValid n r → r.full ≡ true → r.cur_write ≡ ((r.cur_start + 1) % n + (n - 1)) % n
  at_start v h = sym (
      step-mod n r.cur_start (n - 1)
      ∙ (ap (λ k. (r.cur_start + k) % n) (sym_pos n v.positive)
          ∙ (mod-round n r.cur_start v.start_in ∙ v.full_meets h)))

  push-size_full :
      (e : A)
      → IsValid n r
      → r.full ≡ true
      → ((push n r e).cur_start ≡ (r.cur_start + 1) % n) × (size n (push n r e) ≡ suc (n - 1))
  unfolding push size
  push-size_full e v h = ground (arith, v.full_meets)

-- Fewer than `n` steps round the array do not come back.
pub round-ne : (n h j k : ℕ) → h < n → k < n → j < k → (h + j) % n ≢ (h + k) % n
round-ne n h j k l m o = elim (dec_lt (h + j) n) [
  | yes p ↦ elim (dec_lt (h + k) n) [
    | yes q ↦ omega (arith, mod-eq_of_lt p, mod-eq_of_lt q)
    | no q ↦ omega (
      arith,
      mod-eq_of_lt p,
      mod-eq-sub-mod {n = h + k} {m = n} (omega arith),
      mod-eq_of_lt {n = h + k - n} {m = n} (omega arith),
    )
  ]
  | no p ↦ omega (
    arith,
    mod-eq-sub-mod {n = h + j} {m = n} (omega arith),
    mod-eq_of_lt {n = h + j - n} {m = n} (omega arith),
    mod-eq-sub-mod {n = h + k} {m = n} (omega arith),
    mod-eq_of_lt {n = h + k - n} {m = n} (omega arith),
  )
]

-- The `k` elements from index `h` on, going round at `n`; `d` stands for no element.
module _ {ℓ} {A : Type ℓ} (n : ℕ) (d : A) where
  abbrev pub window : List A → ℕ → ℕ → List A
  window xs h zero = []
  window xs h (suc k) = get_or xs h d ∷ window xs ((h + 1) % n) k

  abbrev pub contents : RingBuffer A → List A
  contents r = window r.storage r.cur_start (size n r)

  window_snoc :
      (xs : List A) (h k : ℕ)
      → h < n
      → window xs h (suc k) ≡ window xs h k ++ get_or xs ((h + k) % n) d ∷ []
  window_snoc xs h zero l = rw (add-zero, mod-eq_of_lt l)
  window_snoc xs h (suc k) l = ap (◌∷◌ (get_or xs h d)) (
      window_snoc xs ((h + 1) % n) k (omega arith)
      ∙ ap (λ j. window xs ((h + 1) % n) k ++ get_or xs j d ∷ []) (step-mod n h k))

  -- Writing to a slot outside the window leaves it.
  window-set_out :
      (xs : List A) (h k i : ℕ) (e : A)
      → h < n
      → ((j : ℕ) → j < k → (h + j) % n ≢ i)
      → window (set xs i e) h k ≡ window xs h k
  window-set_out xs h zero i e l out = refl
  window-set_out xs h (suc k) i e l out =
      ap₂ ◌∷◌
        (get_or-set_ne xs i h e d
          (λ q. out 0 (omega arith) (rw (add-zero, mod-eq_of_lt l) (sym q))))
        (window-set_out xs ((h + 1) % n) k i e (omega arith)
          (λ j m q. out (suc j) (omega arith) (sym (step-mod n h j) ∙ q)))

  -- Writing just past a window extends it.
  window-push :
      (xs : List A) (h k i : ℕ) (e : A)
      → h < n
      → k < n
      → i ≡ (h + k) % n
      → i < length xs
      → window (set xs i e) h (suc k) ≡ window xs h k ++ e ∷ []
  window-push xs h k i e l m q b =
      window_snoc (set xs i e) h k l
      ∙ ap₂ (λ ys y. ys ++ y ∷ [])
          (window-set_out xs h k i e l (λ j o p. round-ne n h j k l m o (p ∙ q)))
          (rw (← q) (get_or-set_self xs i e d b))

  -- `push` on a valid buffer that is not full appends to its contents.
  pub push_room :
      (r : RingBuffer A) (e : A)
      → IsValid n r
      → r.full ≡ false
      → contents (push n r e) ≡ contents r ++ e ∷ []
  unfolding push
  push_room r e v h =
      let (start_same, one_more, at_write, fits) = push-size n r e v h in
      rw (one_more, start_same)
        (window-push r.storage r.cur_start (size n r) r.cur_write e v.start_in fits (sym at_write)
          (omega (arith, v.capacity, v.write_in)))

  -- `push` on a valid buffer that is full drops the oldest element and appends the new one.
  pub push_full :
      (r : RingBuffer A) (e : A)
      → IsValid n r
      → r.full ≡ true
      → contents (push n r e) ≡ drop 1 (contents r) ++ e ∷ []
  unfolding push
  push_full r e v h =
      let (next_start, all_used) = push-size_full n r e v h in
      let whole : size n r ≡ suc (n - 1) = size_full n r v h in
      let whole' : size n (push n r e) ≡ suc (n - 1) = all_used in
      rw (whole', next_start, whole)
        (window-push r.storage ((r.cur_start + 1) % n) (n - 1) r.cur_write e
          (omega (arith, v.positive)) (omega (arith, v.positive)) (at_start n r v h)
          (omega (arith, v.capacity, v.write_in)))
