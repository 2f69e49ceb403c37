-- ===== src/StaticVector/Each.antt =====
-- A property that every slot of a static vector has, used or not.
use pico_modbus_meter.Base.{
  ℕ, zero, suc, ◌-◌, ◌<◌, ◌≡◌, refl, Bool, some, List, [], ◌∷◌, arith, ltb, length, take, get_elem?,
  set,
}
use pico_modbus_meter.Base.Yields.{
  Yields, nothing, result, Yields-bind, Yields-at, >>=-Yields, if_Yields,
}
use pico_modbus_meter.StaticVector.{
  StaticVector, set_elem, swap, remove_at, remove_below, remove_if,
}

module _ {ℓ κ} {A : Type ℓ} (P : A → Type κ) where
  abbrev pub Each : List A → Type κ
  Each [] = Unit
  Each (x ∷ xs) = P x × Each xs

  pub Each-take : (n : ℕ) (xs : List A) → Each xs → Each (take n xs)
  Each-take zero xs h = tt
  Each-take (suc n) [] h = tt
  Each-take (suc n) (x ∷ xs) h = (h.0, Each-take n xs h.1)

  pub Each-set : (xs : List A) (i : ℕ) (x : A) → Each xs → P x → Each (set xs i x)
  Each-set [] i x h p = tt
  Each-set (y ∷ xs) zero x h p = (p, h.1)
  Each-set (y ∷ xs) (suc i) x h p = (h.0, Each-set xs i x h.1 p)

  pub Each-at :
      (xs : List A) (i : ℕ) → Each xs → i < length xs → (x : A) × (get_elem? xs i ≡ some x) × P x
  Each-at [] i h l = absurd (omega arith)
  Each-at (x ∷ xs) zero h l = (x, refl, h.0)
  Each-at (x ∷ xs) (suc i) h l = Each-at xs i h.1 (omega arith)

  pub Each-get_elem? : (xs : List A) (i : ℕ) → Each xs → Yields P (get_elem? xs i)
  Each-get_elem? [] i h = nothing
  Each-get_elem? (x ∷ xs) zero h = result h.0
  Each-get_elem? (x ∷ xs) (suc i) h = Each-get_elem? xs i h.1

  set_elem-Each : (xs : List A) (i : ℕ) (x : A) → Each xs → P x → Yields Each (set_elem xs i x)
  unfolding set_elem
  set_elem-Each xs i x h p = if_Yields (ltb i (length xs)) (result (Each-set xs i x h p)) nothing

  swap-Each : (xs : List A) (i j : ℕ) → Each xs → Yields Each (swap xs i j)
  unfolding swap
  swap-Each xs i j h = >>=-Yields (get_elem? xs i) _ (Each-get_elem? xs i h) (λ x p.
      >>=-Yields (get_elem? xs j) _ (Each-get_elem? xs j h) (λ y q.
        >>=-Yields (set_elem xs i y) _ (set_elem-Each xs i y h q)
          (λ ys r. set_elem-Each ys j x r p)))

  abbrev InStorage : StaticVector A → Type κ
  InStorage v = Each v.storage

  remove_at-Each :
      (f : A → Bool) (v : StaticVector A) (i : ℕ)
      → Each v.storage
      → Yields InStorage (remove_at f v i)
  unfolding remove_at
  remove_at-Each f v i h = Yields-bind (get_elem? v.storage i) _ (λ x.
      if_Yields (f x)
        (>>=-Yields (swap v.storage i (v.cur_size - 1)) _ (swap-Each v.storage i (v.cur_size - 1) h)
          (λ zs p. result p))
        (result h))

  remove_below-Each :
      (i : ℕ) (f : A → Bool) (v : StaticVector A)
      → Each v.storage
      → Yields InStorage (remove_below i f v)
  unfolding remove_below
  remove_below-Each zero f v h = result h
  remove_below-Each (suc i) f v h =
      >>=-Yields (remove_at f v i) _ (remove_at-Each f v i h) (λ w p. remove_below-Each i f w p)

  pub remove_if-Each :
      (f : A → Bool) (v w : StaticVector A)
      → Each v.storage
      → remove_if f v ≡ some w
      → Each w.storage
  unfolding remove_if
  remove_if-Each f v w h e =
      Yields-at (remove_below v.cur_size f v) w (remove_below-Each v.cur_size f v h) e
