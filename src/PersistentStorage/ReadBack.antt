-- ===== src/PersistentStorage/ReadBack.antt =====
-- A member that was written is read back, and the other members are as before.
use pico_modbus_meter.Base.{
  ℕ, ◌+◌, ◌-◌, ◌*◌, ◌/◌, ◌%◌, ◌^◌, ◌≤◌, ◌<◌, ◌≡◌, ◌⊎◌, inl, inr, refl, sym, ap, ◌∙◌, some, List,
  length, get_or, take, drop, arith, ltb, length-take, length-drop, get_or-take, get_or-drop,
  le→ltb, list_ext, false, take_all,
}
use pico_modbus_meter.Base.Memory.{
  load_bytes, load_bytes-ok, store_bytes-ok, overwrite, length-overwrite, get_or-overwrite_inside,
}
use pico_modbus_meter.PersistentStorage.{PersistentStorage, pico_ok, write_at, write, read}
use pico_modbus_meter.PersistentStorage.Flash.{FlashOps, Documented}
use pico_modbus_meter.PersistentStorage.Buffer.{Copied}
use pico_modbus_meter.PersistentStorage.Write.{both_run, Sectors, write_impl_lem}

-- The sizes of the flash and the buffer: whole sectors, and room for the layout.
pub record IsValid (flash_size layout_size : ℕ) (s : PersistentStorage) : Type 0 where
  pub whole : length s.flash ≡ flash_size
  pub sized : length s.write_buffer ≡ 8192
  pub sectors : flash_size % 4096 ≡ 0
  pub addressable : flash_size < 2 ^ 31
  pub has_layout : layout_size ≤ flash_size

-- the range of sectors that a write from `start` on uses
around :
    (flash_size start n : ℕ)
    → flash_size % 4096 ≡ 0
    → flash_size < 2 ^ 31
    → start + n ≤ flash_size
    → n ≤ 4096
    → Sectors flash_size (start / 4096 * 4096) start (start + n) ((start + n + 4095) / 4096 * 4096)
around flash_size start n whole bounded fits small = record {
  starts = omega arith;
  ends = omega arith;
  start_order = omega arith;
  order = omega arith;
  end_order = omega arith;
  in_flash = omega (arith, whole);
  in_buffer = omega arith;
  addressable = omega arith;
}

-- Two parts of equal length are equal if their bytes are.
part-eq :
    (xs ys : List ℕ) (i j n : ℕ)
    → i + n ≤ length xs
    → j + n ≤ length ys
    → ((k : ℕ) → k < n → get_or xs (i + k) 0 ≡ get_or ys (j + k) 0)
    → take n (drop i xs) ≡ take n (drop j ys)
part-eq xs ys i j n a b h =
    let la : length (take n (drop i xs)) ≡ n =
      omega (arith, length-take n (drop i xs), length-drop i xs) in
    let lb : length (take n (drop j ys)) ≡ n =
      omega (arith, length-take n (drop j ys), length-drop j ys) in
    list_ext _ _ 0 (la ∙ sym lb) λ k l.
      get_or-take k n (drop i xs) 0 (omega (arith, la))
      ∙ get_or-drop k i (i + k) xs 0 refl
      ∙ h k (omega (arith, la))
      ∙ sym (get_or-take k n (drop j ys) 0 (omega (arith, la)) ∙ get_or-drop k j (j + k) ys 0 refl)

module _ (ops : FlashOps) (docs : Documented ops) (flash_size layout_size : ℕ)
    (s : PersistentStorage) (v : IsValid flash_size layout_size s) (bytes : List ℕ)
    (small : length bytes ≤ 4096) where
  write_at_lem :
      (start : ℕ)
      → start + length bytes ≤ flash_size
      → (s' : PersistentStorage) × (write_at ops flash_size both_run s start bytes
          ≡ some (pico_ok, s'))
        × (length s'.write_buffer ≡ 8192)
        × Copied bytes s.flash 0 start (length bytes) s'.flash
  unfolding write_at
  write_at_lem start fits =
      let n = length bytes in
      let r = around flash_size start n v.sectors v.addressable fits small in
      let inside : start - start / 4096 * 4096 + n ≤ length s.write_buffer =
        omega (arith, v.sized) in
      let b = overwrite s.write_buffer (start - start / 4096 * 4096) bytes in
      let end_eq : (start + n) % 2 ^ 32 ≡ start + n = omega (arith, fits, v.addressable) in
      let page_eq : (start + n + 4096 - 1) % 2 ^ 32 / 4096 * 4096
          ≡ (start + n + 4095) / 4096 * 4096 =
        omega (arith, fits, v.addressable) in
      let guard : ltb 8192
            (((start + n + 4095) / 4096 * 4096 + 2 ^ 32 - start / 4096 * 4096) % 2 ^ 32)
          ≡ false =
        le→ltb _ _ (omega (arith, fits, small, v.addressable)) in
      let (s', e, sized', c) =
        write_impl_lem ops docs flash_size s.flash v.whole (start / 4096 * 4096) start (start + n)
          ((start + n + 4095) / 4096 * 4096) r b
          (length-overwrite s.write_buffer (start - start / 4096 * 4096) bytes inside ∙ v.sized) in
      (
        s',
        rw
            (
              end_eq,
              page_eq,
              guard,
              store_bytes-ok s.write_buffer (start - start / 4096 * 4096) bytes inside,
            )
            e,
        sized',
        record {
          same_length = c.same_length;
          inside = λ j h.
              c.inside j (omega arith)
              ∙ get_or-overwrite_inside s.write_buffer (start - start / 4096 * 4096) _ j bytes refl
                  h inside
              ∙ ap (λ k. get_or bytes k 0) (omega arith);
          before = c.before;
          after = λ j h. c.after j (omega arith);
        },
      )

  begin_ok :
      (member : ℕ)
      → member + length bytes ≤ layout_size
      → flash_size - layout_size + member + length bytes ≤ flash_size
  begin_ok member h = omega (arith, v.has_layout)

  others_same :
      (flash' : List ℕ) (member m n : ℕ)
      → Copied bytes s.flash 0 (flash_size - layout_size + member) (length bytes) flash'
      → m + n ≤ layout_size
      → (m + n ≤ member) ⊎ (member + length bytes ≤ m)
      → load_bytes flash' (flash_size - layout_size + m) n
        ≡ load_bytes s.flash (flash_size - layout_size + m) n
  others_same flash' member m n c h apart =
      let at = flash_size - layout_size + m in
      let fits : at + n ≤ flash_size = omega (arith, h, v.has_layout) in
      load_bytes-ok flash' at n (omega (arith, fits, c.same_length, v.whole))
      ∙ ap some (
          part-eq flash' s.flash at at n (omega (arith, fits, c.same_length, v.whole))
            (omega (arith, fits, v.whole))
            λ k l. elim apart [
              | inl left ↦ c.before (at + k) (omega (arith, l, left))
              | inr right ↦ c.after (at + k) (omega (arith, l, right))
            ])
      ∙ sym (load_bytes-ok s.flash at n (omega (arith, fits, v.whole)))

  begin_mod :
      (member : ℕ)
      → member + length bytes ≤ layout_size
      → (flash_size - layout_size + member) % 2 ^ 32 ≡ flash_size - layout_size + member
  begin_mod member h = omega (arith, v.has_layout, v.addressable)

  -- With whole sectors of flash that hold the layout, the documented flash functions, and both of them
  -- run: writing at most 4096 bytes to a member inside the layout succeeds and keeps the sizes; reading
  -- the member gives them back, and reading any other part of the layout gives what it gave before.
  pub read-write :
      (member : ℕ)
      → member + length bytes ≤ layout_size
      → (s' : PersistentStorage) × (write ops flash_size layout_size both_run s bytes member
          ≡ some (pico_ok, s'))
        × IsValid flash_size layout_size s'
        × (read ops flash_size layout_size s' member (length bytes) ≡ some bytes)
        × ((m n : ℕ)
            → m + n ≤ layout_size
            → (m + n ≤ member) ⊎ (member + length bytes ≤ m)
            → read ops flash_size layout_size s' m n ≡ read ops flash_size layout_size s m n)
  unfolding write read
  read-write member inside =
      let start = flash_size - layout_size + member in
      let (s', e, sized', c) = write_at_lem start (begin_ok member inside) in
      let whole' : length s'.flash ≡ flash_size = c.same_length ∙ v.whole in
      (
        s',
        rw (begin_mod member inside) e,
        record {
          whole = whole';
          sized = sized';
          sectors = v.sectors;
          addressable = v.addressable;
          has_layout = v.has_layout;
        },
        load_bytes-ok s'.flash start (length bytes) (omega (arith, whole', begin_ok member inside))
            ∙ ap some (
                part-eq s'.flash bytes start 0 (length bytes)
                  (omega (arith, whole', begin_ok member inside)) (omega arith) c.inside
                ∙ take_all (length bytes) bytes (omega arith)),
        λ m n h apart. others_same s'.flash member m n c h apart,
      )
