-- ===== src/StringUtil/Cut.antt =====
-- What `extract_word`, `extract_until_newline` and `extract_newline` take from a text that starts with
-- a word or a line, and that they never lengthen a text.
use pico_modbus_meter.Base.{
  ℕ, ◌+◌, ◌≤◌, ◌≡◌, refl, sym, ap, ap₂, ◌∙◌, inl, inr, Bool, true, false, ◌||◌, Option, none, some,
  List, [], ◌∷◌, ◌++◌, append-nil, arith, ◌==◌, if◌then◌else◌, length, take, drop, Bool-cases,
  length-append, length-drop, drop-drop, take-append_add, drop-append_add,
}
use pico_modbus_meter.StringUtil.{
  first_from, is_not, is_end, rest_at, starts_line_end, extract_word, extract_until_newline,
  extract_newline, cut_line,
}
use pico_modbus_meter.StringUtil.Word.{None, cons, extract_word-IsCut}

-- without the delimiters at the front
abbrev pub skip : ℕ → List ℕ → List ℕ
skip delim [] = []
skip delim (c ∷ cs) = if c == delim then skip delim cs else c ∷ cs

-- a byte of a line end
abbrev pub is_line : ℕ → Bool
is_line c = c == 13 || c == 10

-- The first byte that passes, behind a stretch that does not.
first_from-append :
    (p : ℕ → Bool) (w : List ℕ) (e : ℕ) (t : List ℕ) (i : ℕ)
    → None p w
    → p e ≡ true
    → first_from p (w ++ e ∷ t) i ≡ some (i + length w)
first_from-append p [] e t i n h = rw h (ap some (omega arith))
first_from-append p (c ∷ w) e t i (cons miss n) h =
    rw miss (first_from-append p w e t (i + 1) n h ∙ ap some (omega arith))

rest_at-skip :
    (delim : ℕ) (content t : List ℕ) (i : ℕ)
    → drop i content ≡ t
    → rest_at content (first_from (is_not delim) t i) ≡ skip delim t
rest_at-skip delim content [] i e = refl
rest_at-skip delim content (c ∷ cs) i e = elim (Bool-cases (c == delim)) [
  | inl same ↦ rw same (
      rest_at-skip delim content cs (i + 1)
        (sym (drop-drop 1 i (i + 1) content (omega arith)) ∙ ap (drop 1) e))
  | inr other ↦ rw other e
]

starts_line_end-other : (x : ℕ) (cs : List ℕ) → (x == 13) ≡ false → starts_line_end (x ∷ cs) ≡ false
starts_line_end-other x [] h = refl
starts_line_end-other x (c ∷ cs) h = rw h refl

-- the first of two texts, and what follows it
pub take-front : (n : ℕ) (xs ys : List ℕ) → n ≡ length xs → take n (xs ++ ys) ≡ xs
take-front n xs ys h = take-append_add n 0 xs ys (omega (arith, h)) ∙ append-nil xs

pub drop-front : (n : ℕ) (xs ys : List ℕ) → n ≡ length xs → drop n (xs ++ ys) ≡ ys
drop-front n xs ys h = drop-append_add n 0 xs ys (omega (arith, h))

-- A word up to a byte that ends words: the word, and what follows without delimiters.
pub extract_word-word :
    (delim x : ℕ) (w : List ℕ) (e : ℕ) (t : List ℕ)
    → None (is_end delim) (x ∷ w)
    → is_end delim e ≡ true
    → extract_word ((x ∷ w) ++ e ∷ t) delim ≡ (x ∷ w, skip delim (e ∷ t))
unfolding extract_word
extract_word-word delim x w e t (cons miss n) h =
    let no_cr : (x == 13) ≡ false = ground arith in
    let start : is_not delim x ≡ true = ground arith in
    let stop = first_from-append (is_end delim) (x ∷ w) e t 0 (cons miss n) h in
    let place = drop-front (0 + length (x ∷ w)) (x ∷ w) (e ∷ t) (omega arith) in
    rw (starts_line_end-other x (w ++ e ∷ t) no_cr, start, stop)
      (ap₂ (λ a b. (a, b)) (take-front _ (x ∷ w) (e ∷ t) (omega arith))
        (ap (λ t'. rest_at ((x ∷ w) ++ e ∷ t) (first_from (is_not delim) t' (0 + length (x ∷ w))))
            place
          ∙ rest_at-skip delim ((x ∷ w) ++ e ∷ t) (e ∷ t) _ place))

abbrev pub starts_space : List ℕ → Bool
starts_space [] = false
starts_space (c ∷ cs) = c == 32

-- A line up to its end.
pub extract_until_newline-line :
    (v t : List ℕ)
    → None is_line v
    → starts_space v ≡ false
    → extract_until_newline (v ++ 13 ∷ 10 ∷ t) ≡ (v, 13 ∷ 10 ∷ t)
unfolding extract_until_newline
extract_until_newline-line [] t n s = refl
extract_until_newline-line (x ∷ v) t (cons miss n) s =
    let no_cr : (x == 13) ≡ false = ground arith in
    let start : is_not 32 x ≡ true = rw s refl in
    let stop = first_from-append is_line (x ∷ v) 13 (10 ∷ t) 0 (cons miss n) refl in
    rw (starts_line_end-other x (v ++ 13 ∷ 10 ∷ t) no_cr, start, stop)
      (ap₂ (λ a b. (a, b)) (take-front _ (x ∷ v) (13 ∷ 10 ∷ t) (omega arith))
        (drop-front _ (x ∷ v) (13 ∷ 10 ∷ t) (omega arith)))

pub extract_word-length :
    (content : List ℕ) (delim : ℕ)
    → length (extract_word content delim).0 + length (extract_word content delim).1 ≤ length content
extract_word-length content delim =
    let c = extract_word-IsCut content delim in
    omega (
      arith,
      ap length c.whole,
      length-append c.before
          ((extract_word content delim).0 ++ (c.between ++ (extract_word content delim).1)),
      length-append (extract_word content delim).0 (c.between ++ (extract_word content delim).1),
      length-append c.between (extract_word content delim).1,
    )

cut_line-length :
    (content : List ℕ) (start : ℕ) (e : Option ℕ)
    → length (cut_line content start e).1 ≤ length content
cut_line-length content start none = omega arith
cut_line-length content start (some e) = omega (arith, length-drop e content)

pub extract_until_newline-length :
    (content : List ℕ) → length (extract_until_newline content).1 ≤ length content
unfolding extract_until_newline
extract_until_newline-length content = elim (Bool-cases (starts_line_end content)) [
  | inl line_end ↦ rw line_end (omega arith)
  | inr text ↦ rw text (cut_line-length content _ _)
]

pub extract_newline-length :
    (content : List ℕ) → length (extract_newline content).1 ≤ length content
unfolding extract_newline
extract_newline-length content = ground (arith, length-drop 2 content)
