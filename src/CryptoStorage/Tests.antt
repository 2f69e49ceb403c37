-- ===== src/CryptoStorage/Tests.antt =====
-- A client that answers with a digest, with a stand-in for the hash, and a stored password.
use pico_modbus_meter.Base.{
  ℕ, ◌%◌, ◌≡◌, refl, false, some, List, [], arith, bytes_eq, length, take, replicate, codes,
  length-replicate,
}
use pico_modbus_meter.StaticString.{StaticString, empty_string}
use pico_modbus_meter.StaticString.Bounds.{IsValid, text, empty_string-IsValid}
use pico_modbus_meter.CryptoStorage.{
  CryptoStorage, pwd_size, header_fields, check_authorization, load_from_persistent_storage,
  set_password, set_field, read_field, read_fields,
}
use pico_modbus_meter.CryptoStorage.Authorization.{
  user_of, check_authorization-user_of, set_password-load,
}
use pico_modbus_meter.StringUtil.{extract_word}

-- a hash of 32 bytes for the tests: the length of the message, everywhere
abbrev weak_hash : List ℕ → List ℕ
weak_hash message = replicate 32 (length message % 256)

size : (message : List ℕ) → length (weak_hash message) ≡ 32
size message = length-replicate {A = ℕ} 32 (length message % 256)

abbrev fresh : CryptoStorage
fresh = record { user_pwd = empty_string 64 }

fresh-IsValid : IsValid pwd_size fresh.user_pwd
fresh-IsValid = empty_string-IsValid 64 (omega arith)

abbrev header : List ℕ
header =
    codes
      "Digest username=\"joe\", realm=\"user@webui.org\", nonce=\"n\", uri=\"/user\", algorithm=SHA-256, qop=auth, nc=00000001, cnonce=\"c\", response=\"9393939393939393939393939393939393939393939393939393939393939393\""

check_authorization-user_of_example :
    check_authorization weak_hash (replicate 128 0) fresh (codes "GET") header
    ≡ some (user_of weak_hash (text fresh.user_pwd) (codes "GET") (header_fields header))
check_authorization-user_of_example =
    check_authorization-user_of weak_hash size (replicate 128 0) (length-replicate {A = ℕ} 128 0)
      fresh (codes "GET") header fresh-IsValid

joe_in : user_of weak_hash [] (codes "GET") (header_fields header) ≡ codes "joe"
unfolding header_fields read_fields read_field set_field extract_word bytes_eq
joe_in = refl

set_password-load_example :
    (stored : StaticString) × (after : CryptoStorage) × (again : CryptoStorage) × (set_password
        fresh
        (codes "secret")
      ≡ some (false, after, stored))
    × (load_from_persistent_storage stored ≡ some again)
    × IsValid pwd_size again.user_pwd
    × (text after.user_pwd ≡ take 64 (codes "secret"))
    × (text again.user_pwd ≡ take 64 (codes "secret"))
set_password-load_example = set_password-load fresh (codes "secret") fresh-IsValid
