-- ===== src/RingBuffer/Tests.antt =====
-- Ring buffers of three numbers, and the theorems on them applied there.
use pico_modbus_meter.Base.{ℕ, ◌≡◌, refl, true, some, [], ◌∷◌, arith}
use pico_modbus_meter.RingBuffer.{RingBuffer, for_each}
use pico_modbus_meter.RingBuffer.Window.{IsValid, contents}
use pico_modbus_meter.RingBuffer.Iterate.{for_each_lem}

-- 20, 30 and 10, in this order
abbrev whole : RingBuffer ℕ
whole = record { storage = 10 ∷ 20 ∷ 30 ∷ []; cur_start = 1; cur_write = 1; full = true }

whole-IsValid : IsValid 3 whole
whole-IsValid = record {
  capacity = refl;
  positive = omega arith;
  start_in = omega arith;
  write_in = omega arith;
  full_meets = λ e. refl;
}

for_each_lem_example : for_each 3 whole ≡ some (contents 3 0 whole)
for_each_lem_example = for_each_lem 3 0 whole whole-IsValid
