-- ===== src/StaticVector/Bounded.antt =====
-- The size of a static vector stays within its array; what `push` and `pop` do to its elements.
use pico_modbus_meter.Base.{
  ℕ, ◌+◌, ◌-◌, ◌%◌, ◌^◌, ◌≤◌, ◌<◌, ◌≡◌, refl, ap, ◌∙◌, true, false, none, some, List, [], ◌∷◌, ◌++◌,
  length, take, set, arith, length-set, length-take, length-append, get_elem?, take-set_end,
  take-append_le, take_all, take-take, sym, get_elem?-append_mid, get_elem?-take, ◌==◌, ==_iff, ltb,
  if◌then◌else◌, Bool, dec_lt, ne→==,
}
use pico_modbus_meter.StaticVector.{StaticVector, contents, push, push_slot, pop, back}

pub record IsValid {ℓ} {A : Type ℓ} (n : ℕ) (v : StaticVector A) : Type 0 where
  pub capacity : length v.storage ≡ n
  pub small : n < 2 ^ 31
  pub within : v.cur_size ≤ n

take-append_xs {ℓ} : {A : Type ℓ} (xs : List A) (x : A) → take (length xs) (xs ++ x ∷ []) ≡ xs
take-append_xs xs x =
    take-append_le (length xs) xs (x ∷ []) (omega arith) ∙ take_all (length xs) xs (omega arith)

module _ {ℓ} {A : Type ℓ} (n : ℕ) (v : StaticVector A) (valid : IsValid n v) where
  -- On a valid vector with room, `push` succeeds, keeps it valid, and appends.
  pub push-room :
      (e : A)
      → v.cur_size < n
      → (w : StaticVector A) × (push n v e ≡ some (true, w))
        × IsValid n w
        × (contents w ≡ contents v ++ e ∷ [])
  unfolding push
  push-room e h = (
    record { storage = set v.storage v.cur_size e; cur_size = v.cur_size + 1 },
    ground (arith, valid.capacity, valid.small),
    record {
      capacity = length-set v.storage v.cur_size e ∙ valid.capacity;
      small = valid.small;
      within = omega arith;
    },
    take-set_end v.storage v.cur_size (v.cur_size + 1) e (omega (arith, valid.capacity)) refl,
  )

  pub push-full : (e : A) → v.cur_size ≡ n → push n v e ≡ some (false, v)
  unfolding push
  push-full e h = rw ((==_iff v.cur_size n).1 h)

  -- On a valid vector that is not empty, `pop` drops the last element and points at it.
  pub pop_lem :
      (xs : List A) (x : A)
      → contents v ≡ xs ++ x ∷ []
      → IsValid n (pop v).1 × (contents (pop v).1 ≡ xs) × (get_elem? v.storage (pop v).0 ≡ some x)
  unfolding pop back
  pop_lem xs x e =
      let size : v.cur_size ≡ length xs + 1 = omega (
        arith,
        ap length e,
        length-append xs (x ∷ []),
        length-take v.cur_size v.storage,
        valid.capacity,
        valid.within,
      ) in
      let shorter : (if v.cur_size == 0
            then v
            else record v { cur_size = (v.cur_size + 2 ^ 32 - 1) % 2 ^ 32 })
          ≡ record v { cur_size = length xs } =
        ground (arith, valid.small, valid.within) in
      let last : back v ≡ length xs = ground (arith, valid.small, valid.within) in
      rw (shorter, last)
        (
          record {
            capacity = valid.capacity;
            small = valid.small;
            within = omega (arith, valid.within);
          },
          sym (take-take (length xs) v.cur_size v.storage (omega arith))
              ∙ (ap (take (length xs)) e ∙ take-append_xs xs x),
          sym (get_elem?-take v.cur_size (length xs) v.storage (omega arith))
              ∙ (ap (λ ys. get_elem? ys (length xs)) e
                  ∙ get_elem?-append_mid xs x [] (length xs) refl),
        )

  -- `T *push()` hands out the first unused slot, and none when the array is full.
  pub push_slot_lem : (push_slot n v).0 ≡ (if ltb v.cur_size n then some v.cur_size else none)
  unfolding push_slot
  push_slot_lem = ground (arith, valid.small, valid.within)

  -- `push` on a valid vector stays in the array and adds the element if there is room.
  pub push_lem :
      (e : A)
      → (b : Bool) × (w : StaticVector A) × (push n v e ≡ some (b, w))
        × IsValid n w
        × (contents w ≡ take n (contents v ++ e ∷ []))
  push_lem e =
      let size : length (contents v) ≡ v.cur_size =
        omega (arith, length-take v.cur_size v.storage, valid.capacity, valid.within) in
      elim (dec_lt v.cur_size n) [
        | yes room ↦
            let (w, pushed, ok, shown) = push-room e room in
            (
              true,
              w,
              pushed,
              ok,
              shown
                  ∙ sym (
                      take_all n (contents v ++ e ∷ [])
                        (omega (arith, size, room, length-append (contents v) (e ∷ [])))),
            )
        | no full ↦ (
          false,
          v,
          push-full e (omega (arith, full, valid.within)),
          valid,
          sym (
              take-append_le n (contents v) (e ∷ []) (omega (arith, size, full))
              ∙ take_all n (contents v) (omega (arith, size, valid.within))),
        )
      ]

  pub back-used : 0 < v.cur_size → back v ≡ v.cur_size - 1
  unfolding back
  back-used used = ground (arith, valid.small, valid.within)

  pub pop-used : 0 < v.cur_size → (pop v).1 ≡ record v { cur_size = v.cur_size - 1 }
  unfolding pop
  pop-used used =
      rw (ne→== v.cur_size 0 (omega arith))
        (ap (λ k. record v { cur_size = k }) (omega (arith, valid.small, valid.within)))
