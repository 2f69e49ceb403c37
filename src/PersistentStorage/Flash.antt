-- ===== src/PersistentStorage/Flash.antt =====
-- The two flash functions of the Pico SDK, as a parameter with their documented behaviour, and an
-- instance of it.
use pico_modbus_meter.Base.{
  ℕ, ◌+◌, ◌-◌, ◌≤◌, ◌<◌, ◌≡◌, List, length, get_or, replicate, arith, length-replicate, ◌∙◌,
  get_or-replicate,
}
use pico_modbus_meter.Base.Memory.{
  overwrite, length-overwrite, get_or-overwrite_before, get_or-overwrite_inside,
  get_or-overwrite_after,
}

-- `flash_range_erase(offset, count)` and `flash_range_program(offset, data, count)`: the flash after
-- them.
pub record FlashOps : Type 0 where
  pub erase : List ℕ → ℕ → ℕ → List ℕ
  pub program : List ℕ → ℕ → List ℕ → List ℕ

-- The documented behaviour, within the flash: erasing sets the bytes of the range to 0xff, programming
-- writes the data to bytes that are erased, and neither touches other bytes.
pub record Documented (ops : FlashOps) : Type 0 where
  pub length-erase : (f : List ℕ) (i n : ℕ) → i + n ≤ length f → length (ops.erase f i n) ≡ length f
  pub erased :
      (f : List ℕ) (i n k : ℕ)
      → i + n ≤ length f
      → i ≤ k
      → k < i + n
      → get_or (ops.erase f i n) k 0 ≡ 0xff
  pub erase_before :
      (f : List ℕ) (i n k : ℕ)
      → i + n ≤ length f
      → k < i
      → get_or (ops.erase f i n) k 0 ≡ get_or f k 0
  pub erase_after :
      (f : List ℕ) (i n k : ℕ)
      → i + n ≤ length f
      → i + n ≤ k
      → get_or (ops.erase f i n) k 0 ≡ get_or f k 0
  pub length-program :
      (f : List ℕ) (i : ℕ) (d : List ℕ)
      → i + length d ≤ length f
      → length (ops.program f i d) ≡ length f
  pub programmed :
      (f : List ℕ) (i : ℕ) (d : List ℕ) (k : ℕ)
      → i + length d ≤ length f
      → i ≤ k
      → k < i + length d
      → get_or f k 0 ≡ 0xff
      → get_or (ops.program f i d) k 0 ≡ get_or d (k - i) 0
  pub program_before :
      (f : List ℕ) (i : ℕ) (d : List ℕ) (k : ℕ)
      → i + length d ≤ length f
      → k < i
      → get_or (ops.program f i d) k 0 ≡ get_or f k 0
  pub program_after :
      (f : List ℕ) (i : ℕ) (d : List ℕ) (k : ℕ)
      → i + length d ≤ length f
      → i + length d ≤ k
      → get_or (ops.program f i d) k 0 ≡ get_or f k 0

-- A flash that does so.
abbrev pub simple_flash : FlashOps
simple_flash = record { erase = λ f i n. overwrite f i (replicate n 0xff); program = overwrite }

pub simple_flash-Documented : Documented simple_flash
simple_flash-Documented = record {
  length-erase = λ f i n h.
      length-overwrite f i (replicate n 0xff) (omega (arith, length-replicate {A = ℕ} n 0xff));
  erased = λ f i n k h a b.
      get_or-overwrite_inside f i k (k - i) (replicate n 0xff) (omega arith)
        (omega (arith, length-replicate {A = ℕ} n 0xff))
        (omega (arith, length-replicate {A = ℕ} n 0xff))
      ∙ get_or-replicate n 0xff 0 (k - i) (omega arith);
  erase_before = λ f i n k h a.
      get_or-overwrite_before f i k (replicate n 0xff) a
        (omega (arith, length-replicate {A = ℕ} n 0xff));
  erase_after = λ f i n k h a.
      get_or-overwrite_after f i k (replicate n 0xff)
        (omega (arith, length-replicate {A = ℕ} n 0xff))
        (omega (arith, length-replicate {A = ℕ} n 0xff));
  length-program = λ f i d h. length-overwrite f i d h;
  programmed =
      λ f i d k h a b e. get_or-overwrite_inside f i k (k - i) d (omega arith) (omega arith) h;
  program_before = λ f i d k h a. get_or-overwrite_before f i k d a h;
  program_after = λ f i d k h a. get_or-overwrite_after f i k d a h;
}
