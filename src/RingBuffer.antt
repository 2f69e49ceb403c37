-- ===== src/RingBuffer.antt =====
-- include/static_types.h: `static_ring_buffer<T, N>`, which overwrites its oldest element when it is
-- full. A pointer to an element is its index, an iterator is its `_cur` and `_start`.
pub mod Window
pub mod Iterate
mod Tests
use pico_modbus_meter.Base.{
  ℕ, zero, suc, ◌+◌, ◌-◌, ◌%◌, Bool, true, false, not, ◌&&◌, ◌||◌, Option, none, some, List, [],
  ◌∷◌, ltb, ◌==◌, if◌then◌else◌, get_elem?, set,
}
use pico_modbus_meter.Base.Memory.{◌>>=◌}

pub record RingBuffer {ℓ} (A : Type ℓ) : Type ℓ where
  pub storage : List A
  pub cur_start : ℕ
  pub cur_write : ℕ
  pub full : Bool

pub record Iterator : Type 0 where
  pub cur : ℕ
  pub start : Bool

module _ {ℓ} {A : Type ℓ} where
  unfoldable pub clear : RingBuffer A → RingBuffer A
  clear r = record r { cur_start = 0; cur_write = 0; full = false }

  unfoldable pub empty : RingBuffer A → Bool
  empty r = r.cur_start == r.cur_write && not r.full

  unfoldable pub begin : RingBuffer A → Iterator
  begin r = record { cur = r.cur_start; start = true }

  unfoldable pub end : RingBuffer A → Iterator
  end r = record { cur = r.cur_write; start = true }

  -- `operator==` of two iterators of the buffer `r`
  unfoldable pub at_end : RingBuffer A → Iterator → Iterator → Bool
  at_end r i o = (not r.full || not i.start) && i.cur == o.cur

-- `operator++`, in a buffer of `n` elements
unfoldable pub next : ℕ → Iterator → Iterator
next n i = record { cur = (i.cur + 1) % n; start = false }

module _ {ℓ} {A : Type ℓ} (n : ℕ) where
  -- `T *push()`: the index of the slot to fill
  unfoldable pub push_slot : RingBuffer A → ℕ × RingBuffer A
  push_slot r =
      let start =
        (if r.cur_start == r.cur_write && r.full then (r.cur_start + 1) % n else r.cur_start) in
      let write = (r.cur_write + 1) % n in
      (r.cur_write, record r { cur_start = start; cur_write = write; full = start == write })

  -- `bool push(const T &e)`
  unfoldable pub push : RingBuffer A → A → RingBuffer A
  unfolding push_slot
  push r e = let (slot, r') = push_slot r in record r' { storage = set r'.storage slot e }

  unfoldable pub size : RingBuffer A → ℕ
  size r =
      if r.full
      then n
      else (if ltb r.cur_write r.cur_start
          then r.cur_write + n - r.cur_start
          else r.cur_write - r.cur_start)

  -- `for (const auto &e : buffer)`: the elements visited from an iterator on. The first argument is
  -- fuel; `none` means that it ran out, or that an element outside the array was read.
  unfoldable pub iterate : ℕ → RingBuffer A → Iterator → Option (List A)
  unfolding at_end next end
  iterate zero r i = none
  iterate (suc k) r i =
      let rest = iterate k r (next n i) in
      if at_end r i (end r)
      then some []
      else (get_elem? r.storage i.cur >>= λ e. rest >>= λ es. some (e ∷ es))

  unfoldable pub for_each : RingBuffer A → Option (List A)
  unfolding begin
  for_each r = iterate (suc n) r (begin r)
