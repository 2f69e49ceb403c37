-- ===== src/StringUtil.antt =====
-- include/string_util.h: taking words and lines from the front of a text. A `string_view` is the list
-- of its bytes; each function gives its result and the text that is left. A position is none for
-- `npos`.
pub mod Word
pub mod Cut
use pico_modbus_meter.Base.{
  ℕ, ◌+◌, ◌-◌, Bool, true, false, ◌&&◌, ◌||◌, Option, none, some, List, [], ◌∷◌, take, drop, ◌==◌,
  if◌then◌else◌,
}

abbrev pub cr : ℕ
cr = 13

abbrev pub lf : ℕ
lf = 10

-- `content.size() >= 2 && content[0] == '\r' && content[1] == '\n'`
abbrev pub starts_line_end : List ℕ → Bool
starts_line_end [] = false
starts_line_end (a ∷ []) = false
starts_line_end (a ∷ b ∷ cs) = a == cr && b == lf

-- the position of the first byte that passes the test, `i` being the position of the head
abbrev pub first_from : (ℕ → Bool) → List ℕ → ℕ → Option ℕ
first_from p [] i = none
first_from p (c ∷ cs) i = if p c then some i else first_from p cs (i + 1)

-- `find_first_of` and `find_first_not_of` from position `i` on
abbrev pub first_at : (ℕ → Bool) → List ℕ → ℕ → Option ℕ
first_at p content i = first_from p (drop i content) i

abbrev pub is_not : ℕ → ℕ → Bool
is_not delim c = if c == delim then false else true

-- the characters of `ends`
abbrev pub is_end : ℕ → ℕ → Bool
is_end delim c = c == delim || (c == cr || c == lf)

abbrev pub or_zero : Option ℕ → ℕ
or_zero none = 0
or_zero (some i) = i

-- the text from a position on, nothing from `npos`
abbrev pub rest_at : List ℕ → Option ℕ → List ℕ
rest_at content none = []
rest_at content (some s) = drop s content

-- The word from `start` on and what is left, given where it ends. `delim` is not 0.
abbrev pub cut_word : List ℕ → ℕ → ℕ → Option ℕ → List ℕ × List ℕ
cut_word content delim start none = (drop start content, [])
cut_word content delim start (some end_word) = (
  take (end_word - start) (drop start content),
  rest_at content (first_at (is_not delim) content end_word),
)

unfoldable pub extract_word : List ℕ → ℕ → List ℕ × List ℕ
extract_word content delim =
    if starts_line_end content
    then ([], content)
    else (let start = or_zero (first_at (is_not delim) content 0) in
        cut_word content delim start (first_at (is_end delim) content start))

abbrev pub cut_line : List ℕ → ℕ → Option ℕ → List ℕ × List ℕ
cut_line content start none = (drop start content, [])
cut_line content start (some end_word) =
    (take (end_word - start) (drop start content), drop end_word content)

unfoldable pub extract_until_newline : List ℕ → List ℕ × List ℕ
extract_until_newline content =
    if starts_line_end content
    then ([], content)
    else (let start = or_zero (first_at (is_not 32) content 0) in
        cut_line content start (first_at (λ c. c == cr || c == lf) content start))

unfoldable pub extract_newline : List ℕ → Bool × List ℕ
extract_newline content =
    if starts_line_end content then (true, drop 2 content) else (false, content)

unfoldable pub extract_line : List ℕ → List ℕ × List ℕ
extract_line content =
    elim (first_at (λ c. if c == 32 || (c == lf || c == cr) then false else true) content 0) [
      | none ↦ extract_until_newline content
      | some whitespace ↦ extract_until_newline (drop whitespace content)
    ]
