-- ===== src/StaticVector.antt =====
-- include/static_types.h: `static_vector<T, N>`, at most N elements in a fixed array. `cur_size` is
-- an `int`, kept as its 32-bit pattern. A pointer to an element is its index; an access outside
-- `storage` is `none`.
pub mod RemoveIf
pub mod Bounded
pub mod Each
mod Tests
use pico_modbus_meter.Base.{
  ℕ, zero, suc, ◌+◌, ◌-◌, ◌%◌, ◌^◌, Bool, true, false, ◌||◌, Option, none, some, List, length, take,
  ltb, ◌==◌, if◌then◌else◌, get_elem?, set,
}
use pico_modbus_meter.Base.Memory.{◌>>=◌}

pub record StaticVector {ℓ} (A : Type ℓ) : Type ℓ where
  pub storage : List A
  pub cur_size : ℕ

-- `<` of two `int` patterns
abbrev pub int_lt : ℕ → ℕ → Bool
int_lt a b = ltb ((a + 2 ^ 31) % 2 ^ 32) ((b + 2 ^ 31) % 2 ^ 32)

module _ {ℓ} {A : Type ℓ} where
  -- `storage[i] = e`
  unfoldable pub set_elem : List A → ℕ → A → Option (List A)
  set_elem xs i e = if ltb i (length xs) then some (set xs i e) else none

  unfoldable pub clear : StaticVector A → StaticVector A
  clear v = record v { cur_size = 0 }

  unfoldable pub empty : StaticVector A → Bool
  empty v = v.cur_size == 0

  -- the elements from `begin()` to `end()`; also `span()`
  abbrev pub contents : StaticVector A → List A
  contents v = take v.cur_size v.storage

  -- `begin() + max(0, cur_size - 1)`
  unfoldable pub back : StaticVector A → ℕ
  back v = if int_lt 0 v.cur_size then v.cur_size - 1 else 0

  -- the index of the last element, and the vector without it
  unfoldable pub pop : StaticVector A → ℕ × StaticVector A
  unfolding back
  pop v = (
    back v,
    if v.cur_size == 0 then v else record v { cur_size = (v.cur_size + 2 ^ 32 - 1) % 2 ^ 32 },
  )

  -- `operator[]`: the first element stands in for an index past the end
  unfoldable pub get : StaticVector A → ℕ → Option A
  get v i = if int_lt i v.cur_size then get_elem? v.storage i else get_elem? v.storage 0

  -- `swap(storage[i], storage[j])`
  unfoldable pub swap : List A → ℕ → ℕ → Option (List A)
  unfolding set_elem
  swap xs i j =
      get_elem? xs i >>= λ x. get_elem? xs j >>= λ y. set_elem xs i y >>= λ ys. set_elem ys j x

  -- one round of `remove_if`, at index `i`
  unfoldable pub remove_at : (A → Bool) → StaticVector A → ℕ → Option (StaticVector A)
  remove_at f v i = get_elem? v.storage i >>= λ x.
      if f x
      then (swap v.storage i (v.cur_size - 1) >>= λ xs.
          some (record { storage = xs; cur_size = v.cur_size - 1 }))
      else some v

  -- the rounds at the indices below the first argument, the highest first
  unfoldable pub remove_below : ℕ → (A → Bool) → StaticVector A → Option (StaticVector A)
  unfolding remove_at
  remove_below zero f v = some v
  remove_below (suc i) f v = remove_at f v i >>= λ w. remove_below i f w

  unfoldable pub remove_if : (A → Bool) → StaticVector A → Option (StaticVector A)
  unfolding remove_below
  remove_if f v = remove_below v.cur_size f v

module _ {ℓ} {A : Type ℓ} (n : ℕ) where
  -- `T* push()`: the index of the new last element, whose value is the caller's to set
  unfoldable pub push_slot : StaticVector A → Option ℕ × StaticVector A
  push_slot v =
      if int_lt v.cur_size n
      then (some v.cur_size, record v { cur_size = (v.cur_size + 1) % 2 ^ 32 })
      else (none, v)

  -- `bool push(const T &e)`
  unfoldable pub push : StaticVector A → A → Option (Bool × StaticVector A)
  unfolding set_elem
  push v e =
      if v.cur_size == n
      then some (false, v)
      else (set_elem v.storage v.cur_size e >>= λ xs.
          some (true, record { storage = xs; cur_size = (v.cur_size + 1) % 2 ^ 32 }))

  unfoldable pub sanitize : StaticVector A → StaticVector A
  sanitize v = if int_lt n v.cur_size || int_lt v.cur_size 0 then record v { cur_size = 0 } else v
