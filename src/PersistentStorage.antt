-- ===== src/PersistentStorage.antt =====
-- include/persistent_storage.h: the settings at the end of the flash. The flash and the write buffer
-- are lists of bytes; a member of the layout is its offset and its bytes. The two flash functions of
-- the SDK are a parameter, and whether `flash_safe_execute` runs its function is an argument. The lock
-- around each operation makes it one step.
pub mod Flash
pub mod Buffer
pub mod Write
pub mod ReadBack
mod Tests
use pico_modbus_meter.Base.{
  ℕ, ◌+◌, ◌-◌, ◌*◌, ◌/◌, ◌%◌, ◌^◌, Bool, ◌||◌, not, Option, some, List, length, ltb, ◌==◌,
  if◌then◌else◌,
}
use pico_modbus_meter.Base.Memory.{◌>>=◌, load_bytes, store_bytes}
use Flash.{FlashOps}

abbrev pub sector : ℕ
sector = 4096

-- `MAX_WRITE_SIZE`
abbrev pub max_write_size : ℕ
max_write_size = 2 * sector

-- `storage_begin` and the sizes are constants; this is what the operations change.
pub record PersistentStorage : Type 0 where
  pub flash : List ℕ
  pub write_buffer : List ℕ

-- `PICO_OK` and `PICO_ERROR_GENERIC`
pub data Result : Type 0 where
  pico_ok : Result
  pico_error_generic : Result

-- whether `flash_safe_execute` runs the function, at its two calls
pub record Runs : Type 0 where
  pub erase : Bool
  pub program : Bool

module _ (ops : FlashOps) (flash_size : ℕ) where
  -- the guards of `_flash_erase` and `_flash_program`
  abbrev pub is_refused : ℕ → ℕ → Bool
  is_refused write_size dst_offset =
      not (write_size % sector == 0) || ltb flash_size ((write_size + dst_offset) % 2 ^ 32)

  unfoldable pub flash_erase : List ℕ → ℕ → ℕ → List ℕ
  flash_erase flash write_size dst_offset =
      if is_refused write_size dst_offset then flash else ops.erase flash dst_offset write_size

  unfoldable pub flash_program : List ℕ → List ℕ → ℕ → List ℕ
  flash_program flash src dst_offset =
      if is_refused (length src) dst_offset then flash else ops.program flash dst_offset src

  -- `_write_impl`: the rest of the sectors is read back, then they are erased and written.
  unfoldable pub write_impl :
      Runs → PersistentStorage → ℕ → ℕ → ℕ → ℕ → Option (Result × PersistentStorage)
  write_impl runs s start_paged start_data end_data end_paged =
      (if start_data == start_paged
        then some s.write_buffer
        else (load_bytes s.flash start_paged (start_data - start_paged) >>= λ head.
            store_bytes s.write_buffer 0 head))
      >>= λ b.
          (if end_data == end_paged
            then some b
            else (load_bytes s.flash end_data (end_paged - end_data) >>= λ tail.
                store_bytes b (end_data - start_paged) tail))
          >>= λ b. load_bytes b 0 (end_paged - start_paged) >>= λ src.
              let erased =
                (if runs.erase
                  then flash_erase s.flash (end_paged - start_paged) start_paged
                  else s.flash) in
              let written =
                (if runs.program then flash_program erased src start_paged else erased) in
              some (pico_ok, record { flash = written; write_buffer = b })

  -- What `write` and `write_array_range` share: `bytes` go to `start_idx_data`.
  unfoldable pub write_at :
      Runs → PersistentStorage → ℕ → List ℕ → Option (Result × PersistentStorage)
  write_at runs s start_idx_data bytes =
      let start_idx_paged = start_idx_data / sector * sector in
      let end_idx_data = (start_idx_data + length bytes) % 2 ^ 32 in
      let end_idx_paged = (end_idx_data + sector - 1) % 2 ^ 32 / sector * sector in
      if ltb max_write_size ((end_idx_paged + 2 ^ 32 - start_idx_paged) % 2 ^ 32)
      then some (pico_error_generic, s)
      else (store_bytes s.write_buffer (start_idx_data - start_idx_paged) bytes >>= λ b.
          write_impl runs (record s { write_buffer = b }) start_idx_paged start_idx_data
            end_idx_data end_idx_paged)

  -- The layout has `layout_size` bytes.
  module _ (layout_size : ℕ) where
    abbrev pub begin_offset : ℕ
    begin_offset = flash_size - layout_size

    -- `write(data, member)`, with the bytes of `data`
    unfoldable pub write :
        Runs → PersistentStorage → List ℕ → ℕ → Option (Result × PersistentStorage)
    write runs s bytes member = write_at runs s ((begin_offset + member) % 2 ^ 32) bytes

    -- `write_array_range`, of elements of `size` bytes in an array of `count`; `bytes` are theirs.
    unfoldable pub write_array_range :
        Runs → PersistentStorage → List ℕ → ℕ → ℕ → ℕ → ℕ → ℕ → Option (Result × PersistentStorage)
    write_array_range runs s bytes member size count start_idx end_idx =
        if start_idx == end_idx
        then some (pico_ok, s)
        else if ltb count end_idx || (ltb count start_idx || ltb end_idx start_idx)
        then some (pico_error_generic, s)
        else write_at runs s ((begin_offset + member + start_idx * size) % 2 ^ 32) bytes

    -- `read(member, out)`, of a member of `n` bytes; also what `view` shows
    unfoldable pub read : PersistentStorage → ℕ → ℕ → Option (List ℕ)
    read s member n = load_bytes s.flash (begin_offset + member) n

    unfoldable pub read_array_range : PersistentStorage → ℕ → ℕ → ℕ → ℕ → Option (List ℕ)
    read_array_range s member size start_idx end_idx =
        load_bytes s.flash (begin_offset + member + start_idx * size % 2 ^ 32)
          (size * ((end_idx + 2 ^ 32 - start_idx) % 2 ^ 32) % 2 ^ 32)
