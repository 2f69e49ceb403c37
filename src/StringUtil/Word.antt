-- ===== src/StringUtil/Word.antt =====
-- The parts into which `extract_word` and `extract_until_newline` cut a text.
use pico_modbus_meter.Base.{
  ℕ, suc, ◌+◌, ◌-◌, ◌≤◌, ◌≡◌, refl, sym, ap, ◌∙◌, Bool, false, Option, none, some, List, [], ◌∷◌,
  ◌++◌, take, drop, arith, Bool-cases, inl, inr, append-nil, drop-drop, subst, take-append-drop,
}
use pico_modbus_meter.StringUtil.{
  first_from, first_at, is_not, is_end, or_zero, rest_at, cut_word, starts_line_end, extract_word,
}

-- every byte fails the test
pub data None (p : ℕ → Bool) : List ℕ → Type 0 where
  nil : None p []
  cons : {c : ℕ} {cs : List ℕ} → p c ≡ false → None p cs → None p (c ∷ cs)

-- Up to the first byte that passes the test, none does.
first_from-None :
    (p : ℕ → Bool) (cs : List ℕ) (i : ℕ)
    → (first_from p cs i ≡ none → None p cs)
      × ((j : ℕ) → first_from p cs i ≡ some j → (i ≤ j) × None p (take (j - i) cs))
first_from-None p [] i = (λ e. nil, λ j e. cc)
first_from-None p (c ∷ cs) i = elim (Bool-cases (p c)) [
  | inl hit ↦ (
    λ e. cc (rw hit at e),
    λ j e.
        let same : i ≡ j = cc (rw hit at e) in
        let start : j - i ≡ 0 = omega (arith, same) in (omega (arith, same), rw start nil),
  )
  | inr miss ↦
      let (no_hit, before) = first_from-None p cs (i + 1) in
      (
        λ e. cons miss (no_hit (rw miss at e)),
        λ j e.
            let (later, rest) = before j (rw miss at e) in
            let next : j - i ≡ suc (j - (i + 1)) = omega (arith, later) in
            (omega (arith, later), rw next (cons miss rest)),
      )
]

-- A text from position `a` on, cut at a later position `b`.
cut_at : (xs : List ℕ) (a b : ℕ) → a ≤ b → drop a xs ≡ take (b - a) (drop a xs) ++ drop b xs
cut_at xs a b h =
    sym (take-append-drop (b - a) (drop a xs))
    ∙ ap (◌++◌ (take (b - a) (drop a xs))) (drop-drop (b - a) a b xs (omega (arith, h)))

-- `content` is spaces, a word, spaces and the rest; the word has no byte that ends words.
pub record IsCut (delim : ℕ) (content word rest : List ℕ) : Type 0 where
  pub before : List ℕ
  pub between : List ℕ
  pub whole : content ≡ before ++ (word ++ (between ++ rest))
  pub before_spaces : None (is_not delim) before
  pub between_spaces : None (is_not delim) between
  pub one_word : None (is_end delim) word

start-None :
    (delim : ℕ) (content : List ℕ) (s : Option ℕ)
    → first_at (is_not delim) content 0 ≡ s
    → None (is_not delim) (take (or_zero s) content)
start-None delim content none e = nil
start-None delim content (some j) e =
    let (_, rest) = (first_from-None (is_not delim) content 0).1 j e in
    let same : j - 0 ≡ j = omega arith in
    subst (λ k. None (is_not delim) (take k content)) same rest

cut_word-IsCut :
    (delim : ℕ) (content : List ℕ) (start : ℕ) (e : Option ℕ)
    → None (is_not delim) (take start content)
    → first_at (is_end delim) content start ≡ e
    → IsCut delim content (cut_word content delim start e).0 (cut_word content delim start e).1
cut_word-IsCut delim content start none spaces at = record {
  before = take start content;
  between = [];
  whole =
      sym (take-append-drop start content)
      ∙ ap (◌++◌ (take start content)) (sym (append-nil (drop start content)));
  before_spaces = spaces;
  between_spaces = nil;
  one_word = (first_from-None (is_end delim) (drop start content) start).0 at;
}
cut_word-IsCut delim content start (some e) spaces at = go (first_at (is_not delim) content e) refl
  where
    later : (start ≤ e) × None (is_end delim) (take (e - start) (drop start content))
    later = (first_from-None (is_end delim) (drop start content) start).1 e at

    cut : Option ℕ → Type 0
    cut o = IsCut delim content (take (e - start) (drop start content)) (rest_at content o)

    go :
        (s : Option ℕ)
        → first_at (is_not delim) content e ≡ s
        → IsCut delim content
            (cut_word content delim start (some e)).0
            (cut_word content delim start (some e)).1
    go none gap = subst cut (sym gap) (record {
      before = take start content;
      between = drop e content;
      whole =
          sym (take-append-drop start content)
          ∙ ap (◌++◌ (take start content)) (
              cut_at content start e later.0
              ∙ ap (◌++◌ (take (e - start) (drop start content)))
                  (sym (append-nil (drop e content))));
      before_spaces = spaces;
      between_spaces = (first_from-None (is_not delim) (drop e content) e).0 gap;
      one_word = later.1;
    })
    go (some s) gap =
        let (order, gaps) = (first_from-None (is_not delim) (drop e content) e).1 s gap in
        subst cut (sym gap) (record {
          before = take start content;
          between = take (s - e) (drop e content);
          whole =
              sym (take-append-drop start content)
              ∙ ap (◌++◌ (take start content)) (
                  cut_at content start e later.0
                  ∙ ap (◌++◌ (take (e - start) (drop start content))) (cut_at content e s order));
          before_spaces = spaces;
          between_spaces = gaps;
          one_word = later.1;
        })

-- `extract_word` loses nothing of a text but spaces: the text is spaces, the word, spaces and what is
-- left, and the word has no space and no byte of a line end.
pub extract_word-IsCut :
    (content : List ℕ) (delim : ℕ)
    → IsCut delim content (extract_word content delim).0 (extract_word content delim).1
unfolding extract_word
extract_word-IsCut content delim = elim (Bool-cases (starts_line_end content)) [
  | inl line_end ↦ rw line_end (record {
    before = [];
    between = [];
    whole = refl;
    before_spaces = nil;
    between_spaces = nil;
    one_word = nil;
  })
  | inr text ↦ rw text (
      cut_word-IsCut delim content (or_zero (first_at (is_not delim) content 0)) _
        (start-None delim content _ refl) refl)
]
