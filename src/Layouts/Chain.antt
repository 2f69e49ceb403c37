-- ===== src/Layouts/Chain.antt =====
-- A SunSpec client finds the blocks of the map by their headers: a model number and a length in registers, from
-- which it goes on to the next block.
use pico_modbus_meter.Base.{
  ℕ, zero, suc, ◌+◌, ◌*◌, ◌<◌, ◌≡◌, refl, ap, ap₂, ◌∙◌, Bool, true, false, Option, none, some, List,
  [], ◌∷◌, arith, ◌==◌, if◌then◌else◌, length, take, get_elem?, get_or, codes, take_all,
  get_or-append_left, get_or-append_right, take-append_le,
}
use pico_modbus_meter.Base.Memory.{◌>>=◌}
use pico_modbus_meter.Layouts.{
  SunspecField, sunspec_fields, sunspec_size, sunspec_default, image, place,
}

-- a register as a client sees it: the first byte is the high one
abbrev pub be16 : List ℕ → ℕ → ℕ
be16 m p = get_or m p 0 * 256 + get_or m (p + 1) 0

-- The numbers and lengths of the blocks from a place on, up to the end mark; none if there is none within so many
-- blocks.
unfoldable pub blocks : ℕ → List ℕ → ℕ → Option (List (ℕ × ℕ))
blocks zero m p = none
blocks (suc n) m p =
    let rest = blocks n m (p + 4 + 2 * be16 m (p + 2)) in
    if be16 m p == 0xffff then some [] else (rest >>= λ bs. some ((be16 m p, be16 m (p + 2)) ∷ bs))

block_step :
    (n : ℕ) (m : List ℕ) (p id len : ℕ)
    → be16 m p ≡ id
    → be16 m (p + 2) ≡ len
    → (id == 0xffff) ≡ false
    → blocks (suc n) m p ≡ (blocks n m (p + 4 + 2 * len) >>= λ bs. some ((id, len) ∷ bs))
unfolding blocks
block_step n m p id len e l more = rw (e, l, more) refl

block_end : (n : ℕ) (m : List ℕ) (p : ℕ) → be16 m p ≡ 0xffff → blocks (suc n) m p ≡ some []
unfolding blocks
block_end n m p e = rw e refl

-- the fields that a client navigates by
abbrev pub is_header : SunspecField → Bool
is_header SunspecField.sid = true
is_header SunspecField.id = true
is_header SunspecField.l_header = true
is_header SunspecField.modbus_map = true
is_header SunspecField.l_data = true
is_header SunspecField.end_id = true
is_header _ = false

-- A byte of a field stands in the memory at the place of the field.
get_or-image {ℓ} :
    {F : Type ℓ} (v : F → List ℕ) (size : F → ℕ) (fs : List F) (i j p : ℕ) {f : F}
    → ((g : F) → length (v g) ≡ size g)
    → get_elem? fs i ≡ some f
    → j < size f
    → p ≡ place size fs i + j
    → get_or (image v fs) p 0 ≡ get_or (v f) j 0
get_or-image v size [] i j p sized e h at = cc
get_or-image v size (g ∷ fs) zero j p {f} sized e h at =
    let same : g ≡ f = cc in
    rw (at, same, zero_plus) (get_or-append_left j (v f) (image v fs) 0 (omega (arith, sized f)))
  where
    zero_plus : 0 + j ≡ j
    zero_plus = omega arith
get_or-image v size (g ∷ fs) (suc i) j p {f} sized e h at =
    get_or-append_right p (place size fs i + j) (v g) (image v fs) 0 (omega (arith, sized g))
    ∙ get_or-image v size fs i j (place size fs i + j) sized e h refl

module _ (v : SunspecField → List ℕ) (sized : (f : SunspecField) → length (v f) ≡ sunspec_size f)
    (fixed : (f : SunspecField) → is_header f ≡ true → v f ≡ sunspec_default f) where
  header_byte :
      (i j p : ℕ) (f : SunspecField)
      → get_elem? sunspec_fields i ≡ some f
      → is_header f ≡ true
      → j < sunspec_size f
      → p ≡ place sunspec_size sunspec_fields i + j
      → get_or (image v sunspec_fields) p 0 ≡ get_or (sunspec_default f) j 0
  header_byte i j p f e h l at =
      get_or-image v sunspec_size sunspec_fields i j p sized e l at
      ∙ ap (λ b. get_or b j 0) (fixed f h)

  header_word :
      (i p : ℕ) (f : SunspecField)
      → get_elem? sunspec_fields i ≡ some f
      → is_header f ≡ true
      → sunspec_size f ≡ 2
      → p ≡ place sunspec_size sunspec_fields i
      → be16 (image v sunspec_fields) p ≡ be16 (sunspec_default f) 0
  header_word i p f e h l at =
      ap₂ (λ hi lo. hi * 256 + lo) (header_byte i 0 p f e h (omega (arith, l)) (omega (arith, at)))
        (header_byte i 1 (p + 1) f e h (omega (arith, l)) (omega (arith, at)))

  -- Whatever the other registers hold, the map of the meter starts with `SunS` at its place, and a client that goes from block to block
  -- finds the common block of 65 registers, the three-phase meter of 124, and then the end mark.
  pub blocks-image :
      (take 4 (image v sunspec_fields) ≡ codes "SunS")
      × (blocks 3 (image v sunspec_fields) 4 ≡ some ((1, 65) ∷ (213, 124) ∷ []))
  unfolding sunspec_default
  blocks-image = (
    take-append_le 4 (v SunspecField.sid) _ (omega (arith, sized SunspecField.sid))
        ∙ take_all 4 (v SunspecField.sid) (omega (arith, sized SunspecField.sid))
        ∙ fixed SunspecField.sid refl,
    common
        ∙ ap (λ r. r >>= λ bs. some ((1, 65) ∷ bs))
            (meter ∙ ap (λ r. r >>= λ bs. some ((213, 124) ∷ bs)) last),
  )
    where
      m : List ℕ
      m = image v sunspec_fields

      common : blocks 3 m 4 ≡ (blocks 2 m 138 >>= λ bs. some ((1, 65) ∷ bs))
      common =
          block_step 2 m 4 1 65 (header_word 1 4 SunspecField.id refl refl refl refl)
            (header_word 2 6 SunspecField.l_header refl refl refl refl) refl

      meter : blocks 2 m 138 ≡ (blocks 1 m 390 >>= λ bs. some ((213, 124) ∷ bs))
      meter =
          block_step 1 m 138 213 124 (header_word 9 138 SunspecField.modbus_map refl refl refl refl)
            (header_word 10 140 SunspecField.l_data refl refl refl refl) refl

      last : blocks 1 m 390 ≡ some []
      last = block_end 0 m 390 (header_word 73 390 SunspecField.end_id refl refl refl refl)
