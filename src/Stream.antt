-- ===== src/Stream.antt =====
-- What the program uses of `std::istream`: words, and the state of the stream. A `std::string` is the list of its bytes.
use pico_modbus_meter.Base.{
  ℕ, List, [], ◌∷◌, Bool, true, false, ◌&&◌, ◌||◌, leb, ◌==◌, if◌then◌else◌, not,
}

-- the characters that are left, and the fail bit
pub record Stream : Type 0 where
  pub chars : List ℕ
  pub fail : Bool

-- `std::isspace`
abbrev pub is_space : ℕ → Bool
is_space c = c == 32 || (leb 9 c && leb c 13)

abbrev pub skip_space : List ℕ → List ℕ
skip_space [] = []
skip_space (c ∷ cs) = if is_space c then skip_space cs else c ∷ cs

-- the characters up to the next space, and what is left
abbrev pub word_of : List ℕ → List ℕ
word_of [] = []
word_of (c ∷ cs) = if is_space c then [] else c ∷ word_of cs

abbrev pub after_word : List ℕ → List ℕ
after_word [] = []
after_word (c ∷ cs) = if is_space c then c ∷ cs else after_word cs

-- `in >> word`, of an empty string: without a word it stays empty and the stream fails.
unfoldable pub read_word : Stream → List ℕ × Stream
read_word input =
    if input.fail
    then ([], input)
    else (let cs = skip_space input.chars in
        elim cs [
          | [] ↦ ([], record { chars = []; fail = true })
          | c ∷ rest ↦ (word_of (c ∷ rest), record input { chars = after_word (c ∷ rest) })
        ])

-- `in >> x` of a `float`. What the library makes of the characters is an argument: the value that it stores, whether it
-- found one, and what is left.
unfoldable pub read_float : (List ℕ → ℕ × Bool × List ℕ) → Stream → ℕ → ℕ × Stream
read_float parse input old =
    if input.fail
    then (old, input)
    else (let cs = skip_space input.chars in
        elim cs [
          | [] ↦ (old, record { chars = []; fail = true })
          | c ∷ rest ↦
              let (v, found, left) = parse (c ∷ rest) in
              (v, record { chars = left; fail = not found })
        ])

-- `in.clear()`
abbrev pub clear : Stream → Stream
clear input = record input { fail = false }
