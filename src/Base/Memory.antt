-- ===== src/Base/Memory.antt =====
-- A C object as a list of bytes. An access out of bounds is undefined behaviour: `none`.
use pico_modbus_meter.Base.Tests.{leb, ltb, if◌then◌else◌}
use pico_modbus_meter.Base.Lists.{
  drop-append_add, drop-drop, length, take, drop, get_or, length-append, length-take, length-drop,
  take-append_add, get_or-append_left, get_or-append_right, get_or-take, get_or-drop,
  take-append_le, take_all, take-take,
}
use Prim.Native.Nat.{ℕ, ◌+◌, ◌-◌, ◌≤◌, ◌<◌}
use mathlib.Core.Path.{refl, ◌≡◌, ap, ◌∙◌}
use mathlib.Core.Option.{Option, none, some}
use mathlib.Core.List.{List, [], ◌∷◌, ◌++◌}
use native.Mathlib.Omega.{arith}

-- Bind for partial results: `do` blocks of accesses.
infixl 5 ◌>>=◌
abbrev pub ◌>>=◌ {ℓ κ} : {A : Type ℓ} {B : Type κ} → Option A → (A → Option B) → Option B
none >>= f = none
some a >>= f = f a

-- Inversion of a bind that has a result.
pub >>=-eq-some {ℓ κ} :
    {A : Type ℓ} {B : Type κ} (m : Option A) (f : A → Option B) {b : B}
    → (m >>= f) ≡ some b
    → (a : A) × (m ≡ some a) × (f a ≡ some b)
>>=-eq-some none f h = cc
>>=-eq-some (some a) f h = (a, refl, h)

-- `m[i]`
unfoldable pub load : List ℕ → ℕ → Option ℕ
load m i = if ltb i (length m) then some (get_or m i 0) else none

-- the `n` bytes from `m + i`
unfoldable pub load_bytes : List ℕ → ℕ → ℕ → Option (List ℕ)
load_bytes m i n = if leb (i + n) (length m) then some (take n (drop i m)) else none

-- the object after `memcpy(m + i, bs, length bs)`
unfoldable pub overwrite : List ℕ → ℕ → List ℕ → List ℕ
overwrite m i bs = take i m ++ (bs ++ drop (i + length bs) m)

unfoldable pub store_bytes : List ℕ → ℕ → List ℕ → Option (List ℕ)
store_bytes m i bs = if leb (i + length bs) (length m) then some (overwrite m i bs) else none

pub load-ok : (m : List ℕ) (i : ℕ) → i < length m → load m i ≡ some (get_or m i 0)
unfolding load
load-ok m i h = ground arith

pub load-none : (m : List ℕ) (i : ℕ) → length m ≤ i → load m i ≡ none
unfolding load
load-none m i h = ground arith

pub load_bytes-ok :
    (m : List ℕ) (i n : ℕ) → i + n ≤ length m → load_bytes m i n ≡ some (take n (drop i m))
unfolding load_bytes
load_bytes-ok m i n h = ground arith

pub store_bytes-ok :
    (m : List ℕ) (i : ℕ) (bs : List ℕ)
    → i + length bs ≤ length m
    → store_bytes m i bs ≡ some (overwrite m i bs)
unfolding store_bytes
store_bytes-ok m i bs h = ground arith

pub length-overwrite :
    (m : List ℕ) (i : ℕ) (bs : List ℕ)
    → i + length bs ≤ length m
    → length (overwrite m i bs) ≡ length m
unfolding overwrite
length-overwrite m i bs h = omega (
  arith,
  length-append (take i m) (bs ++ drop (i + length bs) m),
  length-append bs (drop (i + length bs) m),
  length-take i m,
  length-drop (i + length bs) m,
)

-- Bytes outside the range that is written stay.
pub get_or-overwrite_before :
    (m : List ℕ) (i k : ℕ) (bs : List ℕ)
    → k < i
    → i + length bs ≤ length m
    → get_or (overwrite m i bs) k 0 ≡ get_or m k 0
unfolding overwrite
get_or-overwrite_before m i k bs h g =
    get_or-append_left k (take i m) _ 0 (omega (arith, length-take i m)) ∙ get_or-take k i m 0 h

pub get_or-overwrite_inside :
    (m : List ℕ) (i k j : ℕ) (bs : List ℕ)
    → k ≡ i + j
    → j < length bs
    → i + length bs ≤ length m
    → get_or (overwrite m i bs) k 0 ≡ get_or bs j 0
unfolding overwrite
get_or-overwrite_inside m i k j bs e h g =
    get_or-append_right k j (take i m) _ 0 (omega (arith, length-take i m))
    ∙ get_or-append_left j bs _ 0 h

pub get_or-overwrite_after :
    (m : List ℕ) (i k : ℕ) (bs : List ℕ)
    → i + length bs ≤ k
    → i + length bs ≤ length m
    → get_or (overwrite m i bs) k 0 ≡ get_or m k 0
unfolding overwrite
get_or-overwrite_after m i k bs h g =
    get_or-append_right k (k - i) (take i m) _ 0 (omega (arith, length-take i m))
    ∙ get_or-append_right (k - i) (k - i - length bs) bs _ 0 (omega arith)
    ∙ get_or-drop (k - i - length bs) (i + length bs) k m 0 (omega arith)

-- What lies up to the end of a write is what lay before it, then the bytes written.
pub take-overwrite :
    (m : List ℕ) (i n : ℕ) (bs : List ℕ)
    → n ≡ i + length bs
    → n ≤ length m
    → take n (overwrite m i bs) ≡ take i m ++ bs
unfolding overwrite
take-overwrite m i n bs e h =
    take-append_add n (length bs) (take i m) (bs ++ drop (i + length bs) m)
      (omega (arith, length-take i m))
    ∙ ap (◌++◌ (take i m)) (take-append_bs)
  where
    take-append_bs : take (length bs) (bs ++ drop (i + length bs) m) ≡ bs
    take-append_bs =
        take-append_add (length bs) 0 bs (drop (i + length bs) m) (omega arith) ∙ append_nil_bs
      where
        append_nil_bs : bs ++ take 0 (drop (i + length bs) m) ≡ bs
        append_nil_bs = mathlib.Core.List.append-nil bs

pub take-overwrite_before :
    (m : List ℕ) (i : ℕ) (bs : List ℕ) → i ≤ length m → take i (overwrite m i bs) ≡ take i m
unfolding overwrite
take-overwrite_before m i bs h =
    take-append_le i (take i m) _ (omega (arith, length-take i m))
    ∙ take_all i (take i m) (omega (arith, length-take i m))

pub get_or-overwrite_at :
    (m : List ℕ) (i c d : ℕ) → i < length m → get_or (overwrite m i (c ∷ [])) i d ≡ c
unfolding overwrite
get_or-overwrite_at m i c d h =
    get_or-append_right i 0 (take i m) (c ∷ drop (i + 1) m) d (omega (arith, length-take i m))

-- What lies behind a write stays.
pub drop-overwrite_after :
    (m : List ℕ) (i k : ℕ) (bs : List ℕ)
    → i + length bs ≤ k
    → i + length bs ≤ length m
    → drop k (overwrite m i bs) ≡ drop k m
unfolding overwrite
drop-overwrite_after m i k bs h g =
    drop-append_add k (k - i) (take i m) _ (omega (arith, length-take i m))
    ∙ (drop-append_add (k - i) (k - i - length bs) bs _ (omega arith)
        ∙ drop-drop (k - i - length bs) (i + length bs) k m (omega arith))

-- What is read where a write was is what was written.
pub take-drop-overwrite :
    (m : List ℕ) (i n : ℕ) (bs : List ℕ)
    → n ≡ length bs
    → i ≤ length m
    → take n (drop i (overwrite m i bs)) ≡ bs
unfolding overwrite
take-drop-overwrite m i n bs e h =
    ap (take n) (drop-append_add i 0 (take i m) _ (omega (arith, length-take i m)))
    ∙ (take-append_add n 0 bs _ (omega (arith, e)) ∙ mathlib.Core.List.append-nil bs)

-- What lies before a write stays.
pub take-overwrite_le :
    (m : List ℕ) (i k : ℕ) (bs : List ℕ)
    → k ≤ i
    → i ≤ length m
    → take k (overwrite m i bs) ≡ take k m
unfolding overwrite
take-overwrite_le m i k bs h g =
    take-append_le k (take i m) _ (omega (arith, length-take i m)) ∙ take-take k i m h
