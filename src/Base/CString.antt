-- ===== src/Base/CString.antt =====
-- What a function of C reads of a text that is passed as a pointer.
use pico_modbus_meter.Base.{
  ℕ, zero, suc, ◌≡◌, refl, sym, ap, ◌∙◌, inl, inr, Option, none, some, List, [], ◌∷◌, ◌++◌,
  append-nil, ◌==◌, if◌then◌else◌, take, drop, get_or, Bool-cases, ==_iff, take-append-drop,
}
use pico_modbus_meter.Base.Memory.{◌>>=◌}

-- The bytes up to the first zero; none if the object has no zero, so that the read goes past it.
abbrev pub c_string : List ℕ → Option (List ℕ)
c_string [] = none
c_string (c ∷ cs) = if c == 0 then some [] else (c_string cs >>= λ s. some (c ∷ s))

-- the bytes up to the first zero, or all
abbrev pub until_zero : List ℕ → List ℕ
until_zero [] = []
until_zero (c ∷ cs) = if c == 0 then [] else c ∷ until_zero cs

prepended-nil : (o : Option (List ℕ)) → o ≡ (o >>= λ s. some ([] ++ s))
prepended-nil none = refl
prepended-nil (some s) = refl

prepended-cons :
    (x : ℕ) (xs : List ℕ) (o : Option (List ℕ))
    → ((o >>= λ s. some (xs ++ s)) >>= λ s. some (x ∷ s)) ≡ (o >>= λ s. some ((x ∷ xs) ++ s))
prepended-cons x xs none = refl
prepended-cons x xs (some s) = refl

-- Bytes without a zero come before what is read behind them.
pub c_string-append :
    (xs ys : List ℕ)
    → until_zero xs ≡ xs
    → c_string (xs ++ ys) ≡ (c_string ys >>= λ s. some (xs ++ s))
c_string-append [] ys h = prepended-nil (c_string ys)
c_string-append (x ∷ xs) ys h = elim (Bool-cases (x == 0)) [
  | inl e ↦ let bad = rw e at h in cc
  | inr e ↦
      let tail : until_zero xs ≡ xs = let same = rw e at h in cc in
      rw e (
        ap (λ o. o >>= λ s. some (x ∷ s)) (c_string-append xs ys tail)
        ∙ prepended-cons x xs (c_string ys))
]

c_string-zero : (m : List ℕ) (n : ℕ) → get_or m n 1 ≡ 0 → c_string (drop n m) ≡ some []
c_string-zero [] zero h = cc
c_string-zero [] (suc n) h = cc
c_string-zero (x ∷ xs) zero h = rw ((==_iff x 0).1 h) refl
c_string-zero (x ∷ xs) (suc n) h = c_string-zero xs n h

-- a text at the start of an object, with a zero behind it
pub c_string-take :
    (m x : List ℕ) (n : ℕ)
    → take n m ≡ x
    → get_or m n 1 ≡ 0
    → until_zero x ≡ x
    → c_string m ≡ some x
c_string-take m x n shown ends clean =
    ap c_string (sym (take-append-drop n m))
    ∙ (ap (λ y. c_string (y ++ drop n m)) shown
        ∙ (c_string-append x (drop n m) clean
            ∙ (ap (λ o. o >>= λ s. some (x ++ s)) (c_string-zero m n ends)
                ∙ ap some (append-nil x))))
