-- ===== src/EastronModbus.antt =====
-- include/eastron_modbus.h: the serial line to the Eastron meter. The UART and the clock are arguments: the bytes that arrive in a round
-- of the loop, each with the milliseconds at which it is stored, and the time at which the next round is tested.
pub mod Reading
mod Tests
use pico_modbus_meter.Base.{
  ℕ, ◌+◌, ◌-◌, ◌*◌, ◌%◌, ◌^◌, Bool, true, ◌&&◌, Option, none, some, List, [], ◌∷◌, ltb, leb,
  if◌then◌else◌,
}
use pico_modbus_meter.Base.Memory.{◌>>=◌}
use pico_modbus_meter.StaticVector.{StaticVector, clear, push}

abbrev pub baudrate : ℕ
baudrate = 9600

abbrev pub buffer_size : ℕ
buffer_size = 1024

-- `uint32_t` difference
abbrev pub sub_u32 : ℕ → ℕ → ℕ
sub_u32 a b = (a + 2 ^ 32 - b) % 2 ^ 32

pub record Turn : Type 0 where
  pub arrivals : List (ℕ × ℕ)
  pub next : ℕ

-- `cur - last <= 1'000. / baudrate * 40`: the whole numbers up to 40000 / 9600
abbrev pub is_recent : ℕ → Option ℕ → Bool
is_recent cur none = true
is_recent cur (some last) = leb (sub_u32 cur last * baudrate) 40_000

-- `while (uart_is_readable(uart))`: the buffer, and the time of the last byte
unfoldable pub receive :
    List (ℕ × ℕ) → StaticVector ℕ → Option ℕ → Option (StaticVector ℕ × Option ℕ)
unfolding push
receive [] v last = some (v, last)
receive ((byte, now) ∷ bytes) v last =
    push buffer_size v byte >>= λ (stored, w). receive bytes w (some now)

-- The loop from a test at `cur` on; none when the list of rounds is used up.
unfoldable pub read_loop :
    ℕ → ℕ → List Turn → ℕ → Option ℕ → StaticVector ℕ → Option (StaticVector ℕ)
unfolding receive
read_loop max_timeout start [] cur last v =
    if ltb (sub_u32 cur start) max_timeout && is_recent cur last then none else some v
read_loop max_timeout start (t ∷ ts) cur last v =
    let rest =
      receive t.arrivals v last >>= λ (w, last'). read_loop max_timeout start ts t.next last' w in
    if ltb (sub_u32 cur start) max_timeout && is_recent cur last then rest else some v

-- `read_bytes`, given the two readings of the time before the first round
unfoldable pub read_bytes : ℕ → ℕ → ℕ → List Turn → StaticVector ℕ → Option (StaticVector ℕ)
unfolding clear read_loop
read_bytes max_timeout start cur ts v = read_loop max_timeout start ts cur none (clear v)

pub data UartCall : Type 0 where
  send_enable : ℕ → UartCall
  write_blocking : List ℕ → UartCall
  tx_wait_blocking : UartCall

unfoldable pub write_bytes : List ℕ → List UartCall
write_bytes bytes = send_enable 1 ∷ write_blocking bytes ∷ tx_wait_blocking ∷ send_enable 0 ∷ []
