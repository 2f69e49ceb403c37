-- ===== src/CryptoStorage.antt =====
-- include/crypto_storage.h: the stored password of the web interface and the check of a digest
-- authorization header. Views into the header are the texts that they show; `mbedtls_sha256` is a
-- parameter, from a message to its 32 digest bytes.
pub mod Hex
pub mod Authorization
mod Tests
use pico_modbus_meter.Base.{
  ℕ, zero, suc, ◌+◌, ◌*◌, ◌/◌, ◌%◌, Bool, true, false, ◌&&◌, Option, none, some, List, [], ◌∷◌,
  ◌++◌, length, drop, ◌==◌, if◌then◌else◌, bytes_eq, get_or, set, codes,
}
use pico_modbus_meter.Base.Memory.{◌>>=◌, store_bytes, load_bytes}
use pico_modbus_meter.StaticString.{StaticString, fill, sanitize, make_c_str_safe, sv}
use pico_modbus_meter.StringUtil.{extract_word}

abbrev pub qop : List ℕ
qop = codes "auth"

abbrev pub realm : List ℕ
realm = codes "user@webui.org"

abbrev pub algorithm : List ℕ
algorithm = codes "SHA-256"

abbrev pub hex_map : List ℕ
hex_map = codes "0123456789abcdef"

abbrev pub sha_size : ℕ
sha_size = 32

-- `static_string<64> user_pwd`
abbrev pub pwd_size : ℕ
pwd_size = 64

pub record CryptoStorage : Type 0 where
  pub user_pwd : StaticString

-- The argument is the string that `read` gives from the flash.
unfoldable pub load_from_persistent_storage : StaticString → Option CryptoStorage
unfolding sanitize make_c_str_safe
load_from_persistent_storage stored =
    make_c_str_safe pwd_size (sanitize pwd_size stored) >>= λ pwd. some (record { user_pwd = pwd })

-- The result, the object after it, and the string that goes to the flash.
unfoldable pub set_password : CryptoStorage → List ℕ → Option (Bool × CryptoStorage × StaticString)
unfolding fill
set_password c password =
    fill pwd_size c.user_pwd password >>= λ pwd. some (false, record { user_pwd = pwd }, pwd)

-- the views that the loop over the header sets
pub record Fields : Type 0 where
  pub username : List ℕ
  pub response : List ℕ
  pub nonce : List ℕ
  pub cnonce : List ℕ
  pub nc : List ℕ
  pub uri : List ℕ

abbrev pub no_fields : Fields
no_fields = record { username = []; response = []; nonce = []; cnonce = []; nc = []; uri = [] }

-- `remove_prefix(1)` and `remove_suffix(1)` while there is a space
abbrev pub trim_front : List ℕ → List ℕ
trim_front [] = []
trim_front (c ∷ cs) = if c == 32 then trim_front cs else c ∷ cs

abbrev pub cons_trimmed : ℕ → List ℕ → List ℕ
cons_trimmed c [] = if c == 32 then [] else c ∷ []
cons_trimmed c (d ∷ ds) = c ∷ d ∷ ds

abbrev pub trim_back : List ℕ → List ℕ
trim_back [] = []
trim_back (c ∷ cs) = cons_trimmed c (trim_back cs)

-- one quote at the front and one at the back
abbrev pub unquote_front : List ℕ → List ℕ
unquote_front [] = []
unquote_front (c ∷ cs) = if c == 34 then cs else c ∷ cs

abbrev pub unquote_back : List ℕ → List ℕ
unquote_back [] = []
unquote_back (c ∷ []) = if c == 34 then [] else c ∷ []
unquote_back (c ∷ d ∷ cs) = c ∷ unquote_back (d ∷ cs)

-- `if (cur != expected) return {};`
abbrev pub demand : List ℕ → List ℕ → Fields → Option Fields
demand expected cur f = if bytes_eq cur expected then some f else none

-- the chain of tests on the key; `none` is a return
unfoldable pub set_field : List ℕ → List ℕ → Fields → Option Fields
set_field key cur f =
    if bytes_eq key (codes "username")
    then some (record f { username = cur })
    else if bytes_eq key (codes "realm")
    then demand realm cur f
    else if bytes_eq key (codes "qop")
    then demand qop cur f
    else if bytes_eq key (codes "algorithm")
    then demand algorithm cur f
    else if bytes_eq key (codes "response")
    then some (record f { response = cur })
    else if bytes_eq key (codes "nonce")
    then some (record f { nonce = cur })
    else if bytes_eq key (codes "cnonce")
    then some (record f { cnonce = cur })
    else if bytes_eq key (codes "nc")
    then some (record f { nc = cur })
    else if bytes_eq key (codes "uri")
    then some (record f { uri = cur })
    else some f

-- one round of the loop: `cur` is a key, `=` and a value
unfoldable pub read_field : List ℕ → Fields → Option Fields
unfolding extract_word set_field
read_field cur f =
    let (key, value) = extract_word cur 61 in
    set_field (trim_back (trim_front key)) (unquote_back (unquote_front value)) f

-- the loop from a round on, given how many rounds `i < 20` leaves and the last `extract_word`
unfoldable pub read_fields : ℕ → List ℕ × List ℕ → Fields → Option Fields
unfolding extract_word read_field
read_fields zero (cur, content) f = some f
read_fields (suc i) ([], content) f = some f
read_fields (suc i) (c ∷ cur, content) f =
    read_field (c ∷ cur) f >>= λ g. read_fields i (extract_word content 44) g

-- the fields of a header; `none` is a return before the response is looked at
unfoldable pub header_fields : List ℕ → Option Fields
unfolding extract_word read_fields
header_fields content =
    let (cur, rest) = extract_word content 32 in
    if bytes_eq cur (codes "Digest") then read_fields 20 (extract_word rest 44) no_fields else none

abbrev pub high_digit : ℕ → ℕ
high_digit c = get_or hex_map (c / 16) 0

abbrev pub low_digit : ℕ → ℕ
low_digit c = get_or hex_map (c % 16) 0

-- The loop that writes the digits of the `k` bytes from `base` on over them, the last byte first:
-- `*d-- = hex_map[(*c) & 0xf]; *d-- = hex_map[(*c) >> 4];`
unfoldable pub expand_hex : ℕ → ℕ → List ℕ → List ℕ
expand_hex base zero m = m
expand_hex base (suc k) m =
    let low = set m (base + 2 * k + 1) (low_digit (get_or m (base + k) 0)) in
    expand_hex base k (set low (base + 2 * k) (high_digit (get_or low (base + k) 0)))

-- the last loop: the digits of the digest against the response
unfoldable pub compare_response : List ℕ → List ℕ → Bool
compare_response [] r = true
compare_response (c ∷ cs) r =
    high_digit c == get_or r 0 0 && (low_digit c == get_or r 1 0 && compare_response cs (drop 2 r))

abbrev pub colon : List ℕ
colon = 58 ∷ []

module _ (sha256 : List ℕ → List ℕ) where
  -- The digest of the response in `sha_storage`, from its first content on: the two digests at 0 and
  -- 64, their digits over them, the last digest at 0.
  unfoldable pub final_digest : List ℕ → List ℕ → List ℕ → Fields → Option (List ℕ)
  final_digest sha_storage pwd method f = do
    m1 ← store_bytes sha_storage 0 (sha256 (f.username ++ (colon ++ (realm ++ (colon ++ pwd)))))
    m2 ← store_bytes m1 (sha_size * 2) (sha256 (method ++ (colon ++ f.uri)))
    let m3 = expand_hex 0 sha_size (expand_hex (2 * sha_size) sha_size m2)
    h1 ← load_bytes m3 0 (sha_size * 2)
    h2 ← load_bytes m3 (sha_size * 2) (sha_size * 2)
    m4 ← store_bytes m3 0 (
        sha256 (
          h1
          ++ (colon
              ++ (f.nonce
                  ++ (colon
                      ++ (f.nc ++ (colon ++ (f.cnonce ++ (colon ++ (qop ++ (colon ++ h2)))))))))))
    load_bytes m4 0 sha_size

  -- `check_authorization`: the username, or the empty view. `none` is an access outside an object;
  -- `sha_storage` is not initialised in the source, so its content is an argument.
  unfoldable pub check_authorization : List ℕ → CryptoStorage → List ℕ → List ℕ → Option (List ℕ)
  check_authorization sha_storage c method content = elim (header_fields content) [
    | none ↦ some []
    | some f ↦
        if length f.response == sha_size * 2
        then (sv c.user_pwd >>= λ pwd. final_digest sha_storage pwd method f >>= λ digest.
            some (if compare_response digest f.response then f.username else []))
        else some []
  ]
