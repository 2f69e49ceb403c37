-- ===== src/PersistentStorage/Write.antt =====
-- Writing a member of the layout: the sectors around it are rebuilt, and only its bytes change.
use pico_modbus_meter.Base.{
  ℕ, ◌+◌, ◌-◌, ◌%◌, ◌^◌, ◌≤◌, ◌<◌, ◌≡◌, refl, ap, ◌∙◌, true, false, some, List, length, get_or,
  take, drop, arith, ◌==◌, length-take, get_or-take, dec_lt, ==_iff,
}
use pico_modbus_meter.Base.Memory.{load_bytes-ok}
use pico_modbus_meter.PersistentStorage.{
  PersistentStorage, Runs, pico_ok, flash_erase, flash_program, is_refused, write_impl,
}
use pico_modbus_meter.PersistentStorage.Flash.{FlashOps, Documented}
use pico_modbus_meter.PersistentStorage.Buffer.{Copied, copy_unless}

abbrev pub both_run : Runs
both_run = record { erase = true; program = true }

-- A range of whole sectors around the bytes from `sd` to `ed`, in the flash and the buffer.
pub record Sectors (flash_size sp sd ed ep : ℕ) : Type 0 where
  pub starts : sp % 4096 ≡ 0
  pub ends : ep % 4096 ≡ 0
  pub start_order : sp ≤ sd
  pub order : sd ≤ ed
  pub end_order : ed ≤ ep
  pub in_flash : ep ≤ flash_size
  pub in_buffer : ep - sp ≤ 8192
  pub addressable : flash_size < 2 ^ 32

module _ (ops : FlashOps) (docs : Documented ops) (flash_size : ℕ) (flash : List ℕ)
    (whole : length flash ≡ flash_size) (sp sd ed ep : ℕ) (r : Sectors flash_size sp sd ed ep) where
  accepted : (n : ℕ) → n ≡ ep - sp → is_refused ops flash_size n sp ≡ false
  accepted n e =
      ground
        (arith, r.starts, r.ends, r.start_order, r.order, r.end_order, r.in_flash, r.addressable)

  -- Erasing the sectors and programming `src` leaves `src` in them and the rest as it was.
  rewritten :
      (src : List ℕ)
      → length src ≡ ep - sp
      → Copied src flash 0 sp
          (ep - sp)
          (flash_program ops flash_size (flash_erase ops flash_size flash (ep - sp) sp) src sp)
  unfolding flash_program flash_erase
  rewritten src e =
      let fits : sp + (ep - sp) ≤ length flash =
        omega (arith, whole, r.start_order, r.order, r.end_order, r.in_flash) in
      let same = docs.length-erase flash sp (ep - sp) fits in
      let fits' : sp + length src ≤ length (ops.erase flash sp (ep - sp)) =
        omega (arith, e, same, fits) in
      rw (accepted (ep - sp) refl, accepted (length src) e)
        (record {
          same_length = docs.length-program _ sp src fits' ∙ same;
          inside = λ j h.
              docs.programmed _ sp src (sp + j) fits' (omega arith) (omega (arith, e))
                (docs.erased flash sp (ep - sp) (sp + j) fits (omega arith) (omega arith))
              ∙ ap (λ k. get_or src k 0) (omega arith);
          before = λ j h.
              docs.program_before _ sp src j fits' h
              ∙ docs.erase_before flash sp (ep - sp) j fits h;
          after = λ j h.
              docs.program_after _ sp src j fits' (omega (arith, e))
              ∙ docs.erase_after flash sp (ep - sp) j fits h;
        })

  module _ (buffer : List ℕ) (sized : length buffer ≡ 8192) where
    abbrev storage : PersistentStorage
    storage = record { flash = flash; write_buffer = buffer }

    -- `_write_impl` puts the bytes of the buffer between `sd` and `ed` into the flash.
    pub write_impl_lem :
        (s' : PersistentStorage) × (write_impl ops flash_size both_run storage sp sd ed ep
          ≡ some (pico_ok, s'))
        × (length s'.write_buffer ≡ 8192)
        × Copied buffer flash (sd - sp) sd (ed - sd) s'.flash
    unfolding write_impl
    write_impl_lem =
        let o1 = r.start_order in
        let o2 = r.order in
        let o3 = r.end_order in
        let o4 = r.in_flash in
        let o5 = r.in_buffer in
        let (b1, e1, c1) =
          copy_unless flash buffer sp 0 (sd - sp) (omega (arith, whole)) (omega (arith, sized))
            (sd == sp) (λ e. omega (arith, (==_iff sd sp).0 e)) in
        let (b2, e2, c2) =
          copy_unless flash b1 ed (ed - sp) (ep - ed) (omega (arith, whole))
            (omega (arith, sized, c1.same_length)) (ed == ep)
            (λ e. omega (arith, (==_iff ed ep).0 e)) in
        let src = take (ep - sp) (drop 0 b2) in
        let src_length : length src ≡ ep - sp =
          omega (arith, length-take (ep - sp) (drop 0 b2), sized, c1.same_length, c2.same_length) in
        let src_at : (j : ℕ) → j < ep - sp → get_or src j 0 ≡ get_or b2 j 0 =
          λ j h. get_or-take j (ep - sp) (drop 0 b2) 0 h in
        let w = rewritten src src_length in
        let flash' =
          flash_program ops flash_size (flash_erase ops flash_size flash (ep - sp) sp) src sp in
        let moved : (k j : ℕ) → k ≡ sp + j → j < ep - sp → get_or flash' k 0 ≡ get_or b2 j 0 =
          λ k j e h.
            ap (λ i. get_or flash' i 0) e
            ∙ w.inside j h
            ∙ ap (λ i. get_or src i 0) (omega arith)
            ∙ src_at j h in
        (
          record {
            flash =
                flash_program ops flash_size (flash_erase ops flash_size flash (ep - sp) sp) src sp;
            write_buffer = b2;
          },
          rw (
            e1,
            e2,
            load_bytes-ok b2 0 (ep - sp) (omega (arith, sized, c1.same_length, c2.same_length)),
          ),
          omega (arith, sized, c1.same_length, c2.same_length),
          record {
            same_length = w.same_length;
            inside = λ j h.
                moved (sd + j) (sd - sp + j) (omega (arith, o1)) (omega (arith, o1, o2, o3))
                ∙ c2.before (sd - sp + j) (omega (arith, o1, o2))
                ∙ c1.after (sd - sp + j) (omega (arith, o1));
            before = λ k h. elim (dec_lt k sp) [
              | yes outside ↦ w.before k outside
              | no within ↦
                  moved k (k - sp) (omega (arith, within)) (omega (arith, within, o1, o2, o3))
                  ∙ c2.before (k - sp) (omega (arith, within, o1, o2))
                  ∙ ap (λ i. get_or b1 i 0) (omega arith)
                  ∙ c1.inside (k - sp) (omega (arith, within, o1))
                  ∙ ap (λ i. get_or flash i 0) (omega (arith, within))
            ];
            after = λ k h. elim (dec_lt k ep) [
              | no outside ↦ w.after k (omega (arith, outside, o1, o2, o3))
              | yes within ↦
                  moved k (k - sp) (omega (arith, o1, o2, h)) (omega (arith, within, o1, o2, h))
                  ∙ ap (λ i. get_or b2 i 0) (omega (arith, o1, o2, h))
                  ∙ c2.inside (k - ed) (omega (arith, within, o2, h))
                  ∙ ap (λ i. get_or flash i 0) (omega (arith, o2, h))
            ];
          },
        )
