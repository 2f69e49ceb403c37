-- ===== src/StaticVector/RemoveIf.antt =====
-- `remove_if` keeps exactly the elements that the test rejects.
use pico_modbus_meter.Base.{
  ℕ, zero, suc, ◌+◌, ◌-◌, ◌≤◌, ◌<◌, ◌≡◌, refl, ap, ◌∙◌, Bool, not, ◌&&◌, some, List, [], ◌∷◌,
  length, take, set, arith, length-set, get_elem?, get_elem?-lt, get_elem?-set_self,
  get_elem?-set_ne, take-set_after, Bool-cases, sym, not, lt→ltb, ℕ_discrete, if◌then◌else◌, inl,
  inr,
}
use pico_modbus_meter.StaticVector.{
  StaticVector, contents, swap, remove_at, remove_below, remove_if,
}
use pico_modbus_meter.StaticVector.Bounded.{IsValid}

pred_suc : (c i : ℕ) → i < c → suc (c - 1) ≡ c
pred_suc c i h = omega arith

module _ {ℓ} {A : Type ℓ} where
  -- how many elements pass the test
  abbrev pub count : (A → Bool) → List A → ℕ
  count p [] = 0
  count p (x ∷ xs) = (if p x then 1 else 0) + count p xs

  abbrev pub one : (A → Bool) → A → ℕ
  one p x = if p x then 1 else 0

  pub count-take-suc :
      (p : A → Bool) (xs : List A) (i : ℕ) (x : A)
      → get_elem? xs i ≡ some x
      → count p (take (suc i) xs) ≡ count p (take i xs) + one p x
  count-take-suc p [] i x h = cc
  count-take-suc p (y ∷ xs) zero x h = ground arith
  count-take-suc p (y ∷ xs) (suc i) x h = omega (arith, count-take-suc p xs i x h)

  pub count-take-set :
      (p : A → Bool) (xs : List A) (n i : ℕ) (x y : A)
      → get_elem? xs i ≡ some x
      → i < n
      → count p (take n (set xs i y)) + one p x ≡ count p (take n xs) + one p y
  count-take-set p [] n i x y h l = cc
  count-take-set p (z ∷ xs) zero i x y h l = absurd (omega arith)
  count-take-set p (z ∷ xs) (suc n) zero x y h l = ground (arith, h)
  count-take-set p (z ∷ xs) (suc n) (suc i) x y h l =
      omega (arith, count-take-set p xs n i x y h (omega arith))

  -- After `swap` the two elements have changed places; whole prefixes keep their elements.
  record Swapped (xs : List A) (i j : ℕ) (x : A) (zs : List A) : Type ℓ where
    done : swap xs i j ≡ some zs
    same_length : length zs ≡ length xs
    moved : get_elem? zs j ≡ some x
    before : take i zs ≡ take i xs
    counts : (p : A → Bool) (n : ℕ) → i < n → j < n → count p (take n zs) ≡ count p (take n xs)

  swap_lem :
      (xs : List A) (i j : ℕ) (x : A)
      → i ≤ j
      → j < length xs
      → get_elem? xs i ≡ some x
      → (zs : List A) × Swapped xs i j x zs
  unfolding swap
  swap_lem xs i j x h l e =
      let (y, q) = get_elem?-lt xs j l in
      (
        set (set xs i y) j x,
        record {
          done =
              rw (
                e,
                q,
                lt→ltb i (length xs) (omega arith),
                length-set xs i y,
                lt→ltb j (length xs) l,
              );
          same_length = length-set (set xs i y) j x ∙ length-set xs i y;
          moved = get_elem?-set_self (set xs i y) j x (rw (length-set xs i y) l);
          before = take-set_after (set xs i y) i j x h ∙ take-set_after xs i i y (omega arith);
          counts = λ p n a b. omega (
            arith,
            count-take-set p xs n i x y e a,
            count-take-set p (set xs i y) n j y x (other y q) b,
          );
        },
      )
    where
      other : (y : A) → get_elem? xs j ≡ some y → get_elem? (set xs i y) j ≡ some y
      other y q = elim (ℕ_discrete i j) [
        | yes same ↦ rw (← same) (get_elem?-set_self xs i y (omega arith))
        | no ne ↦ get_elem?-set_ne xs i j y ne ∙ q
      ]

  -- One round, at an element `x`: the untested prefix stays, and `x` goes if it passes the test.
  record Tested (n : ℕ) (f : A → Bool) (v : StaticVector A) (i : ℕ) (x : A) (w : StaticVector A)
      : Type ℓ where
    done : remove_at f v i ≡ some w
    valid : IsValid n w
    left : i ≤ w.cur_size
    before : take i w.storage ≡ take i v.storage
    counts :
        (p : A → Bool) → count p (contents w) + (if f x then one p x else 0) ≡ count p (contents v)

  remove_at-Tested :
      (n : ℕ) (f : A → Bool) (v : StaticVector A) (i : ℕ) (x : A)
      → IsValid n v
      → i < v.cur_size
      → get_elem? v.storage i ≡ some x
      → (w : StaticVector A) × Tested n f v i x w
  unfolding remove_at
  remove_at-Tested n f v i x valid h e = elim (Bool-cases (f x)) [
    | inl hit ↦
        let (zs, s) =
          swap_lem v.storage i (v.cur_size - 1) x (omega arith)
            (omega (arith, valid.capacity, valid.within)) e in
        (
          record { storage = zs; cur_size = v.cur_size - 1 },
          record {
            done = rw (e, hit, s.done);
            valid = record {
              capacity = s.same_length ∙ valid.capacity;
              small = valid.small;
              within = omega (arith, valid.within);
            };
            left = omega arith;
            before = s.before;
            counts = λ p. rw hit (
                sym (count-take-suc p zs (v.cur_size - 1) x s.moved)
                ∙ (ap (λ k. count p (take k zs)) (pred_suc v.cur_size i h)
                    ∙ s.counts p v.cur_size h (omega arith)));
          },
        )
    | inr miss ↦ (
      v,
      record {
        done = rw (e, miss);
        valid = valid;
        left = omega arith;
        before = refl;
        counts = λ p. rw miss (omega arith);
      },
    )
  ]

  record Kept (n i : ℕ) (f : A → Bool) (v w : StaticVector A) : Type ℓ where
    done : remove_below i f v ≡ some w
    valid : IsValid n w
    counts :
        (p : A → Bool)
        → count p (contents w) + count p (take i v.storage)
          ≡ count (λ x. p x && not (f x)) (take i v.storage) + count p (contents v)

  remove_below-Kept :
      (n i : ℕ) (f : A → Bool) (v : StaticVector A)
      → IsValid n v
      → i ≤ v.cur_size
      → (w : StaticVector A) × Kept n i f v w
  unfolding remove_below
  remove_below-Kept n zero f v valid h =
      (v, record { done = refl; valid = valid; counts = λ p. omega arith })
  remove_below-Kept n (suc i) f v valid h =
      let (x, e) = get_elem?-lt v.storage i (omega (arith, valid.capacity, valid.within)) in
      let (u, t) = remove_at-Tested n f v i x valid h e in
      let (w, k) = remove_below-Kept n i f u t.valid t.left in
      (
        w,
        record {
          done = rw t.done k.done;
          valid = k.valid;
          counts = λ p. counts_step p x u w e t k;
        },
      )
    where
      counts_step :
          (p : A → Bool) (x : A) (u w : StaticVector A)
          → get_elem? v.storage i ≡ some x
          → Tested n f v i x u
          → Kept n i f u w
          → count p (contents w) + count p (take (suc i) v.storage)
            ≡ count (λ y. p y && not (f y)) (take (suc i) v.storage) + count p (contents v)
      counts_step p x u w e t k = ground (
        arith,
        count-take-suc p v.storage i x e,
        count-take-suc (λ y. p y && not (f y)) v.storage i x e,
        t.counts p,
        k.counts p,
        ap (count p) t.before,
        ap (count (λ y. p y && not (f y))) t.before,
      )

  -- `remove_if` stays in bounds, and for every test of elements it leaves as many that pass as
  -- there were among the elements that `f` rejects: those elements, as often, in some order.
  pub remove_if_lem :
      (n : ℕ) (f : A → Bool) (v : StaticVector A)
      → IsValid n v
      → (w : StaticVector A) × (remove_if f v ≡ some w)
        × IsValid n w
        × ((p : A → Bool) → count p (contents w) ≡ count (λ x. p x && not (f x)) (contents v))
  unfolding remove_if
  remove_if_lem n f v valid =
      let (w, k) = remove_below-Kept n v.cur_size f v valid (omega arith) in
      (w, k.done, k.valid, λ p. omega (arith, k.counts p))
