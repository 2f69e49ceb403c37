-- ===== src/StaticString.antt =====
-- include/static_types.h: `static_string<N>`, a text of at most N bytes in a fixed array.
-- `cur_size` is an `int`; it is kept as its 32-bit pattern, so that a pattern from 2 ^ 31 on is a
-- negative number. Bytes of a text are numbers; an access outside `storage` is `none`.
pub mod Bounds
use pico_modbus_meter.Base.{
  ℕ, ◌+◌, ◌-◌, ◌%◌, ◌^◌, min, Bool, ◌||◌, Option, some, List, [], ◌∷◌, length, take, ltb, leb, ◌==◌,
  if◌then◌else◌, bytes_eq, replicate,
}
use pico_modbus_meter.Base.Memory.{◌>>=◌, store_bytes, load_bytes}

pub record StaticString : Type 0 where
  pub storage : List ℕ
  pub cur_size : ℕ

-- `size_t` and `uint32_t` have 32 bits on this processor; `int` wraps at the same modulus.
abbrev pub u32 : ℕ
u32 = 2 ^ 32

-- the default constructor
unfoldable pub empty_string : ℕ → StaticString
empty_string n = record { storage = replicate n 0; cur_size = 0 }

-- `std::string_view{storage.data(), cur_size}`, read as a text
unfoldable pub sv : StaticString → Option (List ℕ)
unfolding load_bytes
sv s = load_bytes s.storage 0 s.cur_size

unfoldable pub set_size : StaticString → ℕ → StaticString
set_size s k = record s { cur_size = k }

-- Each function takes the template parameter `N` first: `storage.size()`.
module _ (n : ℕ) where
  unfoldable pub fill : StaticString → List ℕ → Option StaticString
  fill s d = store_bytes s.storage 0 (take (min (length d) n) d) >>= λ m.
      some (record { storage = m; cur_size = min (length d) n })

  -- `storage.size() - cur_size`, in `size_t`
  abbrev pub room : StaticString → ℕ
  room s = (n + u32 - s.cur_size) % u32

  unfoldable pub append : StaticString → List ℕ → Option StaticString
  append s d = store_bytes s.storage s.cur_size (take (min (length d) (room s)) d) >>= λ m.
      some (record { storage = m; cur_size = (s.cur_size + min (length d) (room s)) % u32 })

  unfoldable pub append_char : StaticString → ℕ → Option StaticString
  append_char s c =
      if s.cur_size == n
      then some s
      else (store_bytes s.storage s.cur_size (c ∷ []) >>= λ m.
          some (record { storage = m; cur_size = (s.cur_size + 1) % u32 }))

  -- The list is the formatted text. `format_to_n` writes at most `N` bytes of it, and its
  -- `info.size` is the length of the whole text.
  unfoldable pub fill_formatted : StaticString → List ℕ → Option (StaticString × ℕ)
  fill_formatted s d = store_bytes s.storage 0 (take (min (length d) n) d) >>= λ m.
      some (record { storage = m; cur_size = length d % u32 }, length d % u32)

  unfoldable pub append_formatted : StaticString → List ℕ → Option (StaticString × ℕ)
  append_formatted s d =
      store_bytes s.storage s.cur_size (take (min (length d) (room s)) d) >>= λ m. some (
        record { storage = m; cur_size = (s.cur_size + min (length d) (room s)) % u32 },
        min (length d) (room s),
      )

  -- `static_cast<uint32_t>(cur_size) < storage.size()`
  unfoldable pub make_c_str_safe : StaticString → Option StaticString
  make_c_str_safe s =
      if ltb s.cur_size n
      then (store_bytes s.storage s.cur_size (0 ∷ []) >>= λ m. some (record s { storage = m }))
      else some s

  -- `cur_size > N || cur_size < 0`, for values that come from flash
  unfoldable pub sanitize : StaticString → StaticString
  sanitize s = if ltb n s.cur_size || leb (2 ^ 31) s.cur_size then record s { cur_size = 0 } else s

unfoldable pub clear : StaticString → StaticString
clear s = record s { cur_size = 0 }

unfoldable pub empty : StaticString → Bool
empty s = s.cur_size == 0

-- `operator==`
unfoldable pub equal : StaticString → StaticString → Option Bool
equal s t = sv s >>= λ x. sv t >>= λ y. some (bytes_eq x y)
