-- ===== src/Settings.antt =====
-- include/settings.h: the settings, with their texts. A `float` is its 32-bit pattern; its text and the reading of one are arguments.
use pico_modbus_meter.Base.{ℕ, Bool, Option, List, [], ◌∷◌, ◌++◌, bytes_eq, if◌then◌else◌, codes}
use pico_modbus_meter.Stream.{Stream, read_word, read_float}
use pico_modbus_meter.StaticString.{StaticString, append_formatted}

pub record Settings : Type 0 where
  pub k_s : ℕ

-- `float k_s{.5}`
abbrev pub default_settings : Settings
default_settings = record { k_s = 0x3f000000 }

-- `dump_to_json`, into a string of `n` bytes
unfoldable pub dump_to_json : (ℕ → List ℕ) → ℕ → Settings → StaticString → Option (StaticString × ℕ)
unfolding append_formatted
dump_to_json text n s dst = append_formatted n dst (codes "{\"k_s\":" ++ text s.k_s ++ codes "}")

-- `operator<<`
abbrev pub settings_text : (ℕ → List ℕ) → Settings → List ℕ
settings_text text s = codes "k_s:   " ++ text s.k_s ++ 10 ∷ []

-- `operator>>`; the call `is.fail()` for an unknown key only asks for the state.
unfoldable pub read_settings : (List ℕ → ℕ × Bool × List ℕ) → Stream → Settings → Settings × Stream
unfolding read_word read_float
read_settings parse input s =
    let (key, after_key) = read_word input in
    if bytes_eq key (codes "k_s")
    then (let (v, after_value) = read_float parse after_key s.k_s in
        (record { k_s = v }, after_value))
    else (s, after_key)
