-- ===== src/PersistentStorage/Buffer.antt =====
-- What the copies into the write buffer leave there.
use pico_modbus_meter.Base.{
  ℕ, ◌+◌, ◌≤◌, ◌<◌, ◌≡◌, refl, ◌∙◌, Bool, true, false, some, List, length, get_or, take, drop,
  arith, if◌then◌else◌, length-take, length-drop, get_or-take, get_or-drop,
}
use pico_modbus_meter.Base.Memory.{
  ◌>>=◌, load_bytes, store_bytes, load_bytes-ok, store_bytes-ok, overwrite, length-overwrite,
  get_or-overwrite_before, get_or-overwrite_inside, get_or-overwrite_after,
}

-- `b'` is `b` with the `n` bytes of `f` from `i` on at `to`.
pub record Copied (f b : List ℕ) (i to n : ℕ) (b' : List ℕ) : Type 0 where
  pub same_length : length b' ≡ length b
  pub inside : (j : ℕ) → j < n → get_or b' (to + j) 0 ≡ get_or f (i + j) 0
  pub before : (j : ℕ) → j < to → get_or b' j 0 ≡ get_or b j 0
  pub after : (j : ℕ) → to + n ≤ j → get_or b' j 0 ≡ get_or b j 0

module _ (f b : List ℕ) (i to n : ℕ) (readable : i + n ≤ length f)
    (writable : to + n ≤ length b) where
  length-part : length (take n (drop i f)) ≡ n
  length-part = omega (arith, length-take n (drop i f), length-drop i f)

  pub copy_lem :
      (b' : List ℕ) × ((load_bytes f i n >>= λ part. store_bytes b to part) ≡ some b')
      × Copied f b i to n b'
  copy_lem = (
    overwrite b to (take n (drop i f)),
    rw (load_bytes-ok f i n readable) (store_bytes-ok b to _ (omega (arith, length-part))),
    record {
      same_length = length-overwrite b to _ (omega (arith, length-part));
      inside = λ j h.
          get_or-overwrite_inside b to (to + j) j _ refl (omega (arith, length-part))
            (omega (arith, length-part))
          ∙ get_or-take j n (drop i f) 0 h
          ∙ get_or-drop j i (i + j) f 0 refl;
      before = λ j h. get_or-overwrite_before b to j _ h (omega (arith, length-part));
      after = λ j h.
          get_or-overwrite_after b to j _ (omega (arith, length-part)) (omega (arith, length-part));
    },
  )

  -- the copy under its test, which skips it only if there is nothing to copy
  pub copy_unless :
      (skip : Bool)
      → (skip ≡ true → n ≡ 0)
      → (b' : List ℕ) × ((if skip
            then some b
            else (load_bytes f i n >>= λ part. store_bytes b to part))
          ≡ some b')
        × Copied f b i to n b'
  copy_unless true nothing = (
    b,
    refl,
    record {
      same_length = refl;
      inside = λ j h. absurd (omega (arith, nothing refl));
      before = λ j h. refl;
      after = λ j h. refl;
    },
  )
  copy_unless false nothing = copy_lem
