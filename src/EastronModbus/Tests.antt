-- ===== src/EastronModbus/Tests.antt =====
-- A frame of two bytes, and the silence behind it.
use pico_modbus_meter.Base.{
  none, ℕ, ◌≡◌, some, List, [], ◌∷◌, ◌++◌, arith, take, replicate, length-replicate,
}
use pico_modbus_meter.StaticVector.{StaticVector, contents}
use pico_modbus_meter.StaticVector.Bounded.{IsValid}
use pico_modbus_meter.EastronModbus.{Turn, buffer_size, read_bytes}
use pico_modbus_meter.EastronModbus.Reading.{IsOver, end_of, last_in, bytes_in, read_bytes-Collects}

abbrev old_buffer : StaticVector ℕ
old_buffer = record { storage = replicate 1024 9; cur_size = 3 }

old_buffer-IsValid : IsValid buffer_size old_buffer
old_buffer-IsValid = record {
  capacity = length-replicate {A = ℕ} 1024 9;
  small = omega arith;
  within = omega arith;
}

abbrev frame : Turn
frame = record { arrivals = (1, 2) ∷ (4, 3) ∷ []; next = 4 }

abbrev silence : Turn
silence = record { arrivals = []; next = 1000 }

read_bytes-Collects_example :
    (read : List Turn) × (left : List Turn) × (w : StaticVector ℕ) × (frame ∷ silence ∷ []
      ≡ read ++ left)
    × (read_bytes 1000 0 1 (frame ∷ silence ∷ []) old_buffer ≡ some w)
    × IsValid buffer_size w
    × (contents w ≡ take buffer_size (bytes_in read))
    × IsOver 1000 0 (end_of 1 read) (last_in none read)
read_bytes-Collects_example =
    read_bytes-Collects 1000 0 (frame ∷ []) silence [] 1 old_buffer old_buffer-IsValid (omega arith)
