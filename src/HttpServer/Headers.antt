-- ===== src/HttpServer/Headers.antt =====
-- The loop of `req_update_structured_views` over the headers of a request: it ends, and it reads the
-- headers that a client prints.
use pico_modbus_meter.Base.{
  ℕ, zero, suc, ◌+◌, ◌≤◌, ◌<◌, ◌≡◌, refl, sym, ap, ◌∙◌, ◌≢◌, Bool, true, false, some, List, [], ◌∷◌,
  ◌++◌, append-nil, append_assoc, arith, ℕ_discrete, length, length-append, length-take, ==_iff,
  ne→==,
}
use pico_modbus_meter.HttpServer.{Header, max_headers}
use pico_modbus_meter.HttpServer.Request.{without_last, read_headers}
use pico_modbus_meter.StaticVector.{StaticVector, contents, push}
use pico_modbus_meter.StaticVector.Bounded.{IsValid, push-room, push_lem}
use pico_modbus_meter.StringUtil.{is_end, extract_word, extract_until_newline, extract_newline}
use pico_modbus_meter.StringUtil.Word.{None, nil, cons}
use pico_modbus_meter.StringUtil.Cut.{
  skip, is_line, starts_space, extract_word-word, extract_until_newline-line, extract_word-length,
  extract_until_newline-length, extract_newline-length,
}

-- With more rounds than bytes, the loop ends on a valid vector, whatever the text is.
pub read_headers-ends :
    (fuel : ℕ) (headers : StaticVector Header) (view : List ℕ)
    → IsValid max_headers headers
    → length view < fuel
    → (after : StaticVector Header) × (rest : List ℕ) × (read_headers fuel headers view
        ≡ some (after, rest))
      × IsValid max_headers after
unfolding read_headers
read_headers-ends zero headers view v h = absurd (omega (arith, h))
read_headers-ends (suc fuel) headers view v h =
    let key : List ℕ = (extract_word view 32).0 in
    let after : List ℕ = (extract_word view 32).1 in
    let rest : List ℕ = (extract_until_newline after).1 in
    elim (ℕ_discrete (length key) 0) [
      | yes empty ↦ (headers, rest, rw ((==_iff (length key) 0).1 empty) refl, v)
      | no some_key ↦
          let (b, headers', e, v', _) =
            push_lem max_headers headers v
              (record { key = without_last key; value = (extract_until_newline after).0 }) in
          let (after', rest', e', v'') =
            read_headers-ends fuel headers' (extract_newline rest).1 v' (
              omega (
                arith,
                h,
                some_key,
                extract_word-length view 32,
                extract_until_newline-length after,
                extract_newline-length rest,
              )) in
          (after', rest', rw (ne→== (length key) 0 some_key, e) e', v'')
    ]

-- a word: neither empty nor with a space or a byte of a line end
pub record IsToken (w : List ℕ) : Type 0 where
  pub some_bytes : length w ≢ 0
  pub one_word : None (is_end 32) w

-- a value: of one line, that does not start with a space
pub record IsValue (v : List ℕ) : Type 0 where
  pub one_line : None is_line v
  pub no_space : starts_space v ≡ false

pub data Printable : List Header → Type 0 where
  no_lines : Printable []
  line :
      {h : Header} {hs : List Header}
      → IsToken h.key
      → IsValue h.value
      → Printable hs
      → Printable (h ∷ hs)

-- the lines of headers, and what follows them
abbrev pub print_headers : List Header → List ℕ → List ℕ
print_headers [] tail = tail
print_headers (h ∷ hs) tail = h.key ++ (58 ∷ 32 ∷ (h.value ++ (13 ∷ 10 ∷ print_headers hs tail)))

pub length-print_headers :
    (hs : List Header) (tail : List ℕ) → length hs + length tail ≤ length (print_headers hs tail)
length-print_headers [] tail = omega arith
length-print_headers (h ∷ hs) tail = omega (
  arith,
  length-append h.key (58 ∷ 32 ∷ (h.value ++ (13 ∷ 10 ∷ print_headers hs tail))),
  length-append h.value (13 ∷ 10 ∷ print_headers hs tail),
  length-print_headers hs tail,
)

None-append : (p : ℕ → Bool) (w v : List ℕ) → None p w → None p v → None p (w ++ v)
None-append p [] v nil m = m
None-append p (c ∷ w) v (cons h n) m = cons h (None-append p w v n m)

without_last-append : (w : List ℕ) (c : ℕ) → without_last (w ++ c ∷ []) ≡ w
without_last-append [] c = refl
without_last-append (x ∷ []) c = refl
without_last-append (x ∷ y ∷ w) c = ap (◌∷◌ x) (without_last-append (y ∷ w) c)

-- A token in front of a byte that ends words.
pub extract_word-token :
    (w : List ℕ) (e : ℕ) (t : List ℕ)
    → IsToken w
    → is_end 32 e ≡ true
    → extract_word (w ++ e ∷ t) 32 ≡ (w, skip 32 (e ∷ t))
extract_word-token [] e t k h = absurd (k.some_bytes refl)
extract_word-token (x ∷ w) e t k h = extract_word-word 32 x w e t k.one_word h

-- A value keeps its first byte when spaces are skipped.
skip-value : (v t : List ℕ) → starts_space v ≡ false → skip 32 (v ++ 13 ∷ t) ≡ v ++ 13 ∷ t
skip-value [] t h = refl
skip-value (x ∷ v) t h = rw h refl

IsToken-colon : (w : List ℕ) → IsToken w → IsToken (w ++ 58 ∷ [])
IsToken-colon w k = record {
  some_bytes = λ z. omega (arith, z, length-append w (58 ∷ []));
  one_word = None-append (is_end 32) w (58 ∷ []) k.one_word (cons refl nil);
}

read_headers-stop :
    (fuel : ℕ) (headers : StaticVector Header) (body : List ℕ)
    → read_headers (suc fuel) headers (13 ∷ 10 ∷ body) ≡ some (headers, 13 ∷ 10 ∷ body)
unfolding read_headers extract_word extract_until_newline
read_headers-stop fuel headers body = refl

contents-size :
    (v w : StaticVector Header) (h : Header)
    → IsValid max_headers v
    → IsValid max_headers w
    → contents w ≡ contents v ++ h ∷ []
    → w.cur_size ≡ v.cur_size + 1
contents-size v w h a b e = omega (
  arith,
  ap length e,
  length-append (contents v) (h ∷ []),
  length-take v.cur_size v.storage,
  length-take w.cur_size w.storage,
  a.capacity,
  a.within,
  b.capacity,
  b.within,
)

-- One round of the loop on a header.
read_headers-line :
    (fuel : ℕ) (headers after : StaticVector Header) (h : Header) (t : List ℕ)
    → IsToken h.key
    → IsValue h.value
    → push max_headers headers h ≡ some (true, after)
    → read_headers (suc fuel) headers (h.key ++ (58 ∷ 32 ∷ (h.value ++ (13 ∷ 10 ∷ t))))
      ≡ read_headers fuel after t
unfolding read_headers extract_newline
read_headers-line fuel headers after h t k v e =
    let value : List ℕ = h.value ++ (13 ∷ 10 ∷ t) in
    let word : extract_word (h.key ++ (58 ∷ 32 ∷ value)) 32 ≡ (h.key ++ 58 ∷ [], value) =
      ap (λ x. extract_word x 32) (sym (append_assoc h.key (58 ∷ []) (32 ∷ value)))
      ∙ (extract_word-token (h.key ++ 58 ∷ []) 32 value (IsToken-colon h.key k) refl
          ∙ ap (λ x. (h.key ++ 58 ∷ [], x)) (skip-value h.value (10 ∷ t) v.no_space)) in
    let long : length (h.key ++ 58 ∷ []) ≢ 0 =
      (λ z. omega (arith, z, length-append h.key (58 ∷ []))) in
    rw
      (
        word,
        extract_until_newline-line h.value t v.one_line v.no_space,
        ne→== (length (h.key ++ 58 ∷ [])) 0 long,
        without_last-append h.key 58,
        e,
      )
      refl

-- The loop reads the headers that are printed, in order, and stops at the empty line.
pub read_headers-print :
    (fuel : ℕ) (headers : StaticVector Header) (hs : List Header) (body : List ℕ)
    → IsValid max_headers headers
    → Printable hs
    → headers.cur_size + length hs ≤ max_headers
    → length hs < fuel
    → (after : StaticVector Header) × (read_headers fuel headers (print_headers hs (13 ∷ 10 ∷ body))
        ≡ some (after, 13 ∷ 10 ∷ body))
      × IsValid max_headers after
      × (contents after ≡ contents headers ++ hs)
read_headers-print zero headers hs body v p room h = absurd (omega (arith, h))
read_headers-print (suc fuel) headers [] body v p room h =
    (headers, read_headers-stop fuel headers body, v, sym (append-nil _))
read_headers-print (suc fuel) headers (x ∷ hs) body v (line k w p) room h =
    let (headers', e, v', shown) = push-room max_headers headers v x (omega (arith, room)) in
    let size : headers'.cur_size ≡ headers.cur_size + 1 =
      contents-size headers headers' x v v' shown in
    let (after, e', v'', all) =
      read_headers-print fuel headers' hs body v' p (omega (arith, room, size))
        (omega (arith, h)) in
    (
      after,
      read_headers-line fuel headers headers' x _ k w e ∙ e',
      v'',
      all ∙ (ap (λ c. c ++ hs) shown ∙ append_assoc (contents headers) (x ∷ []) hs),
    )
