-- ===== src/StaticString/Bounds.antt =====
-- When the size of a static string is within its array, which operations keep it there, and what
-- text they leave.
use pico_modbus_meter.Base.{
  ℕ, ◌+◌, ◌-◌, ◌^◌, ◌≤◌, ◌<◌, min, ◌≡◌, refl, ◌∙◌, Option, none, some, List, [], ◌∷◌, ◌++◌, length,
  take, arith, length-take, take-append_add, length-append, take-min, length-replicate, append-nil,
  ◌%◌, ==_iff, ne→==, dec_lt, lt→ltb, take_all, get_or, ℕ_discrete,
}
use pico_modbus_meter.Base.Memory.{
  ◌>>=◌, store_bytes, store_bytes-ok, load_bytes-ok, overwrite, length-overwrite, take-overwrite,
  take-overwrite_before, get_or-overwrite_at,
}
use pico_modbus_meter.StaticString.{
  StaticString, u32, empty_string, sv, room, fill, append, append_char, fill_formatted,
  append_formatted, make_c_str_safe, sanitize,
}

pub record IsValid (n : ℕ) (s : StaticString) : Type 0 where
  pub capacity : length s.storage ≡ n
  pub small : n < 2 ^ 31
  pub within : s.cur_size ≤ n

-- the bytes that `sv` shows of a valid string
abbrev pub text : StaticString → List ℕ
text s = take s.cur_size s.storage

-- The operation stays in bounds and leaves a valid string that holds `x`.
abbrev pub Becomes : ℕ → Option StaticString → List ℕ → Type 0
Becomes n r x = (t : StaticString) × (r ≡ some t) × IsValid n t × (text t ≡ x)

pub sv-text : {n : ℕ} {s : StaticString} → IsValid n s → sv s ≡ some (text s)
unfolding sv
sv-text {n} {s} v = load_bytes-ok s.storage 0 s.cur_size (omega arith)

pub length-text : {n : ℕ} {s : StaticString} → IsValid n s → length (text s) ≡ s.cur_size
length-text {n} {s} v = omega (arith, length-take s.cur_size s.storage)

pub empty_string-IsValid : (n : ℕ) → n < 2 ^ 31 → IsValid n (empty_string n)
unfolding empty_string
empty_string-IsValid n h = record {
  capacity = length-replicate n 0;
  small = h;
  within = omega arith;
}

-- A write of `w` at `i`, with the size set to its end.
Becomes-write :
    (n : ℕ) (s : StaticString) (i k : ℕ) (w : List ℕ)
    → IsValid n s
    → k ≡ i + length w
    → k ≤ n
    → Becomes n
        (store_bytes s.storage i w >>= λ m. some (record { storage = m; cur_size = k }))
        (take i s.storage ++ w)
Becomes-write n s i k w v e h = (
  record { storage = overwrite s.storage i w; cur_size = k },
  rw (store_bytes-ok s.storage i w (omega arith)),
  record {
    capacity = length-overwrite s.storage i w (omega arith) ∙ v.capacity;
    small = v.small;
    within = h;
  },
  take-overwrite s.storage i k w e (omega arith),
)

-- On a valid string, `fill` stays in the array and leaves a valid string with the first `n` bytes of
-- the text.
pub fill_lem :
    (n : ℕ) (s : StaticString) (d : List ℕ) → IsValid n s → Becomes n (fill n s d) (take n d)
unfolding fill
fill_lem n s d v = rw (take-min n d) (
    Becomes-write n s 0 (min (length d) n) (take n d) v (omega (arith, length-take n d))
      (omega arith))

room-IsValid : {n : ℕ} {s : StaticString} → IsValid n s → room n s ≡ n - s.cur_size
room-IsValid v = omega arith

-- On a valid string, `append` stays in the array, keeps what was there and adds as much as fits.
pub append_lem :
    (n : ℕ) (s : StaticString) (d : List ℕ)
    → IsValid n s
    → Becomes n (append n s d) (take n (text s ++ d))
unfolding append
append_lem n s d v =
    rw
      (
        take-append_add n (n - s.cur_size) (text s) d (omega (arith, length-text v)),
        room-IsValid v,
        take-min (n - s.cur_size) d,
      )
      (Becomes-write n s s.cur_size ((s.cur_size + min (length d) (n - s.cur_size)) % u32)
        (take (n - s.cur_size) d) v
        (omega (arith, length-take (n - s.cur_size) d, v.small, v.within))
        (omega (arith, v.small, v.within)))

-- On a valid string, `append(char)` stays in the array and adds the character if it fits.
pub append_char_lem :
    (n : ℕ) (s : StaticString) (c : ℕ)
    → IsValid n s
    → Becomes n (append_char n s c) (take n (text s ++ c ∷ []))
unfolding append_char
append_char_lem n s c v = elim (ℕ_discrete s.cur_size n) [
  | yes full ↦
      rw
        (
          (==_iff s.cur_size n).1 full,
          take-append_add n 0 (text s) (c ∷ []) (omega (arith, length-text v)),
          append-nil,
        )
        (s, refl, v, refl)
  | no room ↦
      rw
        (
          ne→== s.cur_size n room,
          take_all n (text s ++ c ∷ [])
              (omega (arith, length-append (text s) (c ∷ []), length-text v)),
        )
        (Becomes-write n s s.cur_size ((s.cur_size + 1) % u32) (c ∷ []) v
          (omega (arith, v.small, v.within)) (omega (arith, v.small, v.within)))
]

bind-pair :
    (r : Option (List ℕ)) (f : List ℕ → StaticString) (c : ℕ) {t : StaticString}
    → (r >>= λ m. some (f m)) ≡ some t
    → ◌>>=◌ {B = StaticString × ℕ} r (λ m. some (f m, c)) ≡ some (t, c)
bind-pair none f c e = cc
bind-pair (some m) f c e = cc

-- On a valid string, `append_formatted` stays in the array, appends as much of the formatted text as
-- fits, and returns how much that is.
pub append_formatted_lem :
    (n : ℕ) (s : StaticString) (d : List ℕ)
    → IsValid n s
    → (t : StaticString) × (append_formatted n s d ≡ some (t, min (length d) (n - s.cur_size)))
      × IsValid n t
      × (text t ≡ take n (text s ++ d))
unfolding append_formatted append
append_formatted_lem n s d v =
    let (t, e, valid, shown) = append_lem n s d v in (t, paired t e, valid, shown)
  where
    paired :
        (t : StaticString)
        → append n s d ≡ some t
        → append_formatted n s d ≡ some (t, min (length d) (n - s.cur_size))
    paired t e =
        rw (room-IsValid v)
          (bind-pair _ _ (min (length d) (n - s.cur_size)) (rw (room-IsValid v) at e))

-- `fill_formatted` of a text shorter than 2 ^ 32 records the size of the whole text. If that fits, the
-- string is valid and holds it; if not, `sv` reads past the array.
pub fill_formatted_lem :
    (n : ℕ) (s : StaticString) (d : List ℕ)
    → IsValid n s
    → length d < u32
    → (t : StaticString) × (fill_formatted n s d ≡ some (t, length d))
      × (t.cur_size ≡ length d)
      × (length d ≤ n → IsValid n t × (text t ≡ d))
      × (n < length d → sv t ≡ none)
unfolding fill_formatted sv
fill_formatted_lem n s d v h = (
  record { storage = overwrite s.storage 0 (take n d); cur_size = length d % u32 },
  rw
      (
        take-min n d,
        store_bytes-ok s.storage 0 (take n d) (omega (arith, length-take n d, v.capacity)),
      )
      (ground (arith, h)),
  omega arith,
  λ fits. (
    record {
      capacity =
          length-overwrite s.storage 0 (take n d) (omega (arith, length-take n d, v.capacity))
          ∙ v.capacity;
      small = v.small;
      within = omega arith;
    },
    take-overwrite s.storage 0 (length d % u32) (take n d) (omega (arith, length-take n d))
          (omega (arith, v.capacity))
        ∙ take_all n d fits,
  ),
  λ long. ground (arith, length-overwrite s.storage 0 (take n d), length-take n d, v.capacity, h),
)

-- For any size in an array of `n` bytes, `sanitize` leaves a valid string, and it changes nothing if
-- the size is at most `n`.
pub sanitize-IsValid :
    (n : ℕ) (s : StaticString)
    → length s.storage ≡ n
    → n < 2 ^ 31
    → IsValid n (sanitize n s) × (s.cur_size ≤ n → sanitize n s ≡ s)
unfolding sanitize
sanitize-IsValid n s e h = ground arith

-- On a valid string, `make_c_str_safe` stays in the array, keeps the text, and puts a zero behind it
-- if there is room.
pub make_c_str_safe_lem :
    (n : ℕ) (s : StaticString)
    → IsValid n s
    → (t : StaticString) × (make_c_str_safe n s ≡ some t)
      × IsValid n t
      × (text t ≡ text s)
      × (s.cur_size < n → get_or t.storage t.cur_size 1 ≡ 0)
unfolding make_c_str_safe
make_c_str_safe_lem n s v = elim (dec_lt s.cur_size n) [
  | yes h ↦ (
    record s { storage = overwrite s.storage s.cur_size (0 ∷ []) },
    rw (
      lt→ltb s.cur_size n h,
      store_bytes-ok s.storage s.cur_size (0 ∷ []) (omega (arith, v.capacity)),
    ),
    record {
      capacity =
          length-overwrite s.storage s.cur_size (0 ∷ []) (omega (arith, v.capacity)) ∙ v.capacity;
      small = v.small;
      within = v.within;
    },
    take-overwrite_before s.storage s.cur_size (0 ∷ []) (omega (arith, v.capacity)),
    λ _. get_or-overwrite_at s.storage s.cur_size 0 1 (omega (arith, v.capacity)),
  )
  | no h ↦ (s, ground arith, v, refl, λ lt. absurd (h lt))
]
