-- ===== src/CryptoStorage/Hex.antt =====
-- The digits that `expand_hex` writes over the bytes of a digest.
use pico_modbus_meter.Base.{
  ℕ, zero, suc, ◌+◌, ◌*◌, ◌/◌, ◌%◌, ◌≤◌, ◌<◌, ◌≡◌, refl, sym, ap, ◌∙◌, ◌≢◌, ◌⊎◌, inr, List, [], ◌∷◌,
  arith, dec_lt, ℕ_discrete, ◌==◌, if◌then◌else◌, length, take, drop, set, get_or, length-set,
  length-take, length-drop, get_or-set_self, get_or-set_ne, list_ext, get_or-take, get_or-drop,
}
use pico_modbus_meter.CryptoStorage.{expand_hex, high_digit, low_digit}

-- the digits of some bytes, as a text
abbrev pub hex : List ℕ → List ℕ
hex [] = []
hex (c ∷ cs) = high_digit c ∷ low_digit c ∷ hex cs

pub length-hex : (cs : List ℕ) → length (hex cs) ≡ 2 * length cs
length-hex [] = refl
length-hex (c ∷ cs) = omega (arith, length-hex cs)

-- the digit at a position: of the byte at half of it
abbrev pub digit_at : List ℕ → ℕ → ℕ
digit_at cs j =
    if j % 2 == 0 then high_digit (get_or cs (j / 2) 0) else low_digit (get_or cs (j / 2) 0)

hex-get_or : (cs : List ℕ) (j : ℕ) → j < 2 * length cs → get_or (hex cs) j 0 ≡ digit_at cs j
hex-get_or [] j h = absurd (omega arith)
hex-get_or (c ∷ cs) zero h = refl
hex-get_or (c ∷ cs) (suc zero) h = refl
hex-get_or (c ∷ cs) (suc (suc j)) h =
    let half : suc (suc j) / 2 ≡ suc (j / 2) = omega arith in
    let odd : suc (suc j) % 2 ≡ j % 2 = omega arith in
    rw (half, odd) (hex-get_or cs j (omega arith))

-- one round, at byte `k`
abbrev round : ℕ → ℕ → List ℕ → List ℕ
round base k m =
    let low = set m (base + 2 * k + 1) (low_digit (get_or m (base + k) 0)) in
    set low (base + 2 * k) (high_digit (get_or low (base + k) 0))

length-round : (base k : ℕ) (m : List ℕ) → length (round base k m) ≡ length m
length-round base k m = length-set _ _ _ ∙ length-set _ _ _

round-other :
    (base k j : ℕ) (m : List ℕ)
    → j ≢ base + 2 * k
    → j ≢ base + 2 * k + 1
    → get_or (round base k m) j 0 ≡ get_or m j 0
round-other base k j m h g =
    get_or-set_ne _ (base + 2 * k) j _ 0 (λ e. h (sym e))
    ∙ get_or-set_ne m (base + 2 * k + 1) j _ 0 (λ e. g (sym e))

round-high :
    (base k : ℕ) (m : List ℕ)
    → base + 2 * k + 1 < length m
    → get_or (round base k m) (base + 2 * k) 0 ≡ high_digit (get_or m (base + k) 0)
round-high base k m h =
    get_or-set_self _ (base + 2 * k) _ 0
      (omega (arith, length-set m (base + 2 * k + 1) (low_digit (get_or m (base + k) 0))))
    ∙ ap high_digit (get_or-set_ne m (base + 2 * k + 1) (base + k) _ 0 (λ e. omega arith))

round-low :
    (base k : ℕ) (m : List ℕ)
    → base + 2 * k + 1 < length m
    → get_or (round base k m) (base + 2 * k + 1) 0 ≡ low_digit (get_or m (base + k) 0)
round-low base k m h =
    get_or-set_ne _ (base + 2 * k) (base + 2 * k + 1) _ 0 (λ e. omega arith)
    ∙ get_or-set_self m (base + 2 * k + 1) _ 0 h

pub length-expand_hex : (base k : ℕ) (m : List ℕ) → length (expand_hex base k m) ≡ length m
unfolding expand_hex
length-expand_hex base zero m = refl
length-expand_hex base (suc k) m = length-expand_hex base k (round base k m) ∙ length-round base k m

pub expand_hex-outside :
    (base k j : ℕ) (m : List ℕ)
    → (j < base) ⊎ (base + 2 * k ≤ j)
    → get_or (expand_hex base k m) j 0 ≡ get_or m j 0
unfolding expand_hex
expand_hex-outside base zero j m h = refl
expand_hex-outside base (suc k) j m h =
    expand_hex-outside base k j (round base k m) (ground arith)
    ∙ round-other base k j m (λ e. ground arith) (λ e. ground arith)

round-halves :
    (base k j : ℕ) (m : List ℕ)
    → base + 2 * k + 1 < length m
    → 2 * k ≤ j
    → j < 2 * k + 2
    → get_or (round base k m) (base + j) 0 ≡ digit_at (drop base m) j
round-halves base k j m h below above = elim (ℕ_discrete j (2 * k)) [
  | yes e ↦
      let even : j % 2 ≡ 0 = omega arith in
      let half : j / 2 ≡ k = omega arith in
      rw (even, half, get_or-drop k base (base + k) m 0 (omega arith), e) (round-high base k m h)
  | no e ↦
      let odd : j % 2 ≡ 1 = omega arith in
      let half : j / 2 ≡ k = omega arith in
      let place : base + j ≡ base + 2 * k + 1 = omega arith in
      rw (odd, half, get_or-drop k base (base + k) m 0 (omega arith), place) (round-low base k m h)
]

-- the digits before the last two read bytes that the round leaves
digit_at-round :
    (base k j : ℕ) (m : List ℕ)
    → j < 2 * k
    → digit_at (drop base (round base k m)) j ≡ digit_at (drop base m) j
digit_at-round base k j m h =
    let same : get_or (drop base (round base k m)) (j / 2) 0 ≡ get_or (drop base m) (j / 2) 0 =
      get_or-drop (j / 2) base (base + j / 2) (round base k m) 0 (omega arith)
      ∙ (round-other base k (base + j / 2) m (λ e. omega arith) (λ e. omega arith)
          ∙ sym (get_or-drop (j / 2) base (base + j / 2) m 0 (omega arith))) in
    rw same refl

pub expand_hex-inside :
    (base k j : ℕ) (m : List ℕ)
    → base + 2 * k ≤ length m
    → j < 2 * k
    → get_or (expand_hex base k m) (base + j) 0 ≡ digit_at (drop base m) j
unfolding expand_hex
expand_hex-inside base zero j m h g = absurd (omega arith)
expand_hex-inside base (suc k) j m h g = elim (dec_lt j (2 * k)) [
  | yes before ↦
      expand_hex-inside base k j (round base k m) (omega (arith, length-round base k m)) before
      ∙ digit_at-round base k j m before
  | no last ↦
      expand_hex-outside base k (base + j) (round base k m) (inr (omega arith))
      ∙ round-halves base k j m (omega arith) (omega arith) (omega arith)
]

-- Writing the digits over the bytes from the last one on gives the digits of the bytes as they
-- were, and changes nothing else.
pub expand_hex-hex :
    (base k : ℕ) (m : List ℕ)
    → base + 2 * k ≤ length m
    → take (2 * k) (drop base (expand_hex base k m)) ≡ hex (take k (drop base m))
expand_hex-hex base k m h = list_ext _ _ 0 long (λ j l.
    let inside : j < 2 * k = omega (arith, short) in
    get_or-take j (2 * k) _ 0 inside
    ∙ (get_or-drop j base (base + j) (expand_hex base k m) 0 refl
        ∙ (expand_hex-inside base k j m h inside
            ∙ (sym (rw (get_or-take (j / 2) k (drop base m) 0 (omega arith)) refl)
                ∙ sym (hex-get_or (take k (drop base m)) j (omega (arith, taken)))))))
  where
    taken : length (take k (drop base m)) ≡ k
    taken = omega (arith, length-take k (drop base m), length-drop base m)

    short : length (take (2 * k) (drop base (expand_hex base k m))) ≡ 2 * k
    short = omega (
      arith,
      length-take (2 * k) (drop base (expand_hex base k m)),
      length-drop base (expand_hex base k m),
      length-expand_hex base k m,
    )

    long :
        length (take (2 * k) (drop base (expand_hex base k m)))
        ≡ length (hex (take k (drop base m)))
    long = omega (arith, short, length-hex (take k (drop base m)), taken)

-- It changes no stretch of bytes outside of the digits.
pub expand_hex-elsewhere :
    (base k i n : ℕ) (m : List ℕ)
    → (i + n ≤ base) ⊎ (base + 2 * k ≤ i)
    → take n (drop i (expand_hex base k m)) ≡ take n (drop i m)
expand_hex-elsewhere base k i n m h = list_ext _ _ 0 same_length (λ j l.
    let near : j < n = omega (arith, length-take n (drop i (expand_hex base k m))) in
    get_or-take j n _ 0 near
    ∙ (get_or-drop j i (i + j) (expand_hex base k m) 0 refl
        ∙ (expand_hex-outside base k (i + j) m (ground arith)
            ∙ (sym (get_or-drop j i (i + j) m 0 refl) ∙ sym (get_or-take j n (drop i m) 0 near)))))
  where
    same_length : length (take n (drop i (expand_hex base k m))) ≡ length (take n (drop i m))
    same_length = omega (
      arith,
      length-take n (drop i (expand_hex base k m)),
      length-take n (drop i m),
      length-drop i (expand_hex base k m),
      length-drop i m,
      length-expand_hex base k m,
    )
