-- ===== src/HttpServer/Parsing.antt =====
-- `req_update_structured_views` ends on every text, and reads the request that a client prints.
use pico_modbus_meter.Base.{
  ℕ, suc, ◌-◌, ◌≤◌, ◌≡◌, refl, sym, ap, ◌∙◌, false, some, List, [], ◌∷◌, ◌++◌, append_assoc, arith,
  ◌==◌, length, take, drop, length-append, take-append_add,
}
use pico_modbus_meter.HttpServer.{Header, MessageBuffer, View, buf_size, max_headers}
use pico_modbus_meter.HttpServer.Request.{req_update_structured_views, structured}
use pico_modbus_meter.HttpServer.Headers.{
  IsToken, Printable, print_headers, length-print_headers, extract_word-token, read_headers-ends,
  read_headers-print,
}
use pico_modbus_meter.StaticString.{StaticString}
use pico_modbus_meter.StaticString.Bounds.{text, sv-text, append_char_lem, length-text}
use pico_modbus_meter.StaticVector.{StaticVector, contents}
use pico_modbus_meter.StringUtil.{extract_word, extract_newline, is_end}
use pico_modbus_meter.StringUtil.Cut.{skip, take-front, drop-front}
use pico_modbus_meter.StringUtil.Word.{cons}

-- For a valid buffer and a valid vector of headers, the parser ends, whatever was received, and leaves both valid.
pub req_update_structured_views-ends :
    (m : MessageBuffer)
    → pico_modbus_meter.StaticString.Bounds.IsValid buf_size m.buffer
    → pico_modbus_meter.StaticVector.Bounded.IsValid max_headers m.headers
    → (after : MessageBuffer) × (req_update_structured_views m ≡ some after)
      × pico_modbus_meter.StaticString.Bounds.IsValid buf_size after.buffer
      × pico_modbus_meter.StaticVector.Bounded.IsValid max_headers after.headers
unfolding req_update_structured_views
req_update_structured_views-ends m v h =
    let line : List ℕ =
      (extract_newline
        (extract_word (extract_word (extract_word (text m.buffer) 32).1 32).1 32).1).1 in
    let (headers, rest, e, h') =
      read_headers-ends (suc (length line)) m.headers line h (omega arith) in
    let (buffer, e', v', _) = append_char_lem buf_size m.buffer 0 v in
    (
      structured m (extract_word (text m.buffer) 32).0
          (extract_word (extract_word (text m.buffer) 32).1 32).0
          (extract_word (extract_word (extract_word (text m.buffer) 32).1 32).1 32).0 headers
          (extract_newline rest).1 buffer,
      rw (sv-text v, e, e') refl,
      v',
      h',
    )

pub record Request : Type 0 where
  pub method : List ℕ
  pub path : List ℕ
  pub http_version : List ℕ
  pub headers : List Header
  pub body : List ℕ

pub record IsRequest (r : Request) : Type 0 where
  pub method_token : IsToken r.method
  pub path_token : IsToken r.path
  pub version_token : IsToken r.http_version
  pub lines : Printable r.headers
  pub few : length r.headers ≤ max_headers

-- a request as a client sends it
abbrev pub print_request : Request → List ℕ
print_request r =
    r.method
    ++ (32
        ∷ (r.path
            ++ (32 ∷ (r.http_version ++ (13 ∷ 10 ∷ print_headers r.headers (13 ∷ 10 ∷ r.body))))))

skip-token : (w t : List ℕ) → IsToken w → skip 32 (w ++ t) ≡ w ++ t
skip-token [] t k = absurd (k.some_bytes refl)
skip-token (x ∷ w) t k = go k.one_word
  where
    go :
        pico_modbus_meter.StringUtil.Word.None (is_end 32) (x ∷ w)
        → skip 32 ((x ∷ w) ++ t) ≡ (x ∷ w) ++ t
    go (cons h n) = let other : (x == 32) ≡ false = ground arith in rw other refl

-- the body is at the end
print_headers-ends :
    (hs : List Header) (body : List ℕ)
    → (before : List ℕ) × (print_headers hs (13 ∷ 10 ∷ body) ≡ before ++ body)
print_headers-ends [] body = (13 ∷ 10 ∷ [], refl)
print_headers-ends (h ∷ hs) body =
    let (before, e) = print_headers-ends hs body in
    (
      h.key ++ (58 ∷ 32 ∷ (h.value ++ (13 ∷ 10 ∷ before))),
      ap (λ t. h.key ++ (58 ∷ 32 ∷ (h.value ++ (13 ∷ 10 ∷ t)))) e
          ∙ (ap (λ t. h.key ++ (58 ∷ 32 ∷ t)) (sym (append_assoc h.value (13 ∷ 10 ∷ before) body))
              ∙ sym (append_assoc h.key (58 ∷ 32 ∷ (h.value ++ (13 ∷ 10 ∷ before))) body)),
    )

print_request-ends : (r : Request) → (before : List ℕ) × (print_request r ≡ before ++ r.body)
print_request-ends r =
    let (before, e) = print_headers-ends r.headers r.body in
    let b2 : List ℕ = r.http_version ++ (13 ∷ 10 ∷ before) in
    let b1 : List ℕ = r.path ++ (32 ∷ b2) in
    (
      r.method ++ (32 ∷ b1),
      ap (λ t. r.method ++ (32 ∷ (r.path ++ (32 ∷ (r.http_version ++ (13 ∷ 10 ∷ t)))))) e
          ∙ (ap (λ t. r.method ++ (32 ∷ (r.path ++ (32 ∷ t))))
                (sym (append_assoc r.http_version (13 ∷ 10 ∷ before) r.body))
              ∙ (ap (λ t. r.method ++ (32 ∷ t)) (sym (append_assoc r.path (32 ∷ b2) r.body))
                  ∙ sym (append_assoc r.method (32 ∷ b1) r.body))),
    )

-- the text that a view shows
abbrev pub view_text : View → StaticString → List ℕ
view_text v s = take v.size (drop v.start (text s))

view_text-end :
    (before body : List ℕ) (s t : StaticString) (start : ℕ)
    → text s ≡ before ++ body
    → text t ≡ take buf_size (text s ++ 0 ∷ [])
    → length (text s) ≤ buf_size
    → start ≡ length before
    → take (length body) (drop start (text t)) ≡ body
view_text-end before body s t start e shown short at =
    ap (λ x. take (length body) (drop start x))
      (shown
        ∙ (take-append_add buf_size (buf_size - length (text s)) (text s) (0 ∷ [])
              (omega (arith, short))
            ∙ (ap (λ x. x ++ more) e ∙ append_assoc before body more)))
    ∙ (ap (take (length body)) (drop-front start before (body ++ more) at)
        ∙ take-front (length body) body more refl)
  where
    more : List ℕ
    more = take (buf_size - length (text s)) (0 ∷ [])

-- A request of tokens, of at most 32 printable headers and of any body, that stands in a valid buffer as a client
-- prints it, is read back: the method, the path, the version, the headers in their order, and the body.
pub req_update_structured_views-print :
    (r : Request) (m : MessageBuffer)
    → IsRequest r
    → pico_modbus_meter.StaticString.Bounds.IsValid buf_size m.buffer
    → pico_modbus_meter.StaticVector.Bounded.IsValid max_headers m.headers
    → m.headers.cur_size ≡ 0
    → text m.buffer ≡ print_request r
    → (after : MessageBuffer) × (req_update_structured_views m ≡ some after)
      × (after.method ≡ r.method)
      × (after.path ≡ r.path)
      × (after.http_version ≡ r.http_version)
      × (contents after.headers ≡ r.headers)
      × (view_text after.body after.buffer ≡ r.body)
unfolding req_update_structured_views extract_newline
req_update_structured_views-print r m k v h none_yet shown =
    let lines : List ℕ = print_headers r.headers (13 ∷ 10 ∷ r.body) in
    let tail : List ℕ = r.http_version ++ (13 ∷ 10 ∷ lines) in
    let word1 : extract_word (print_request r) 32 ≡ (r.method, r.path ++ 32 ∷ tail) =
      extract_word-token r.method 32 (r.path ++ 32 ∷ tail) k.method_token refl
      ∙ ap (λ t. (r.method, t)) (skip-token r.path (32 ∷ tail) k.path_token) in
    let word2 : extract_word (r.path ++ 32 ∷ tail) 32 ≡ (r.path, tail) =
      extract_word-token r.path 32 tail k.path_token refl
      ∙ ap (λ t. (r.path, t)) (skip-token r.http_version (13 ∷ 10 ∷ lines) k.version_token) in
    let word3 = extract_word-token r.http_version 13 (10 ∷ lines) k.version_token refl in
    let (headers, read, _, all) =
      read_headers-print (suc (length lines)) m.headers r.headers r.body h k.lines
        (omega (arith, none_yet, k.few))
        (omega (arith, length-print_headers r.headers (13 ∷ 10 ∷ r.body))) in
    let (buffer, e, v', end) = append_char_lem buf_size m.buffer 0 v in
    let (before, whole) = print_request-ends r in
    let size = length-text v in
    let total = length-append before r.body in
    (
      structured m r.method r.path r.http_version headers r.body buffer,
      rw (sv-text v, shown, word1, word2, word3, read, e) refl,
      refl,
      refl,
      refl,
      all ∙ ap (λ n. take n m.headers.storage ++ r.headers) none_yet,
      view_text-end before r.body m.buffer buffer _ (shown ∙ whole) end
          (omega (arith, size, v.within)) (omega (arith, size, ap length (shown ∙ whole), total)),
    )
