-- ===== src/CryptoStorage/Authorization.antt =====
-- `check_authorization` against the response that digest authentication prescribes.
use pico_modbus_meter.Base.{
  ℕ, ◌*◌, ◌≡◌, refl, sym, ap, ◌∙◌, inl, inr, false, Option, none, some, List, [], ◌∷◌, ◌++◌, arith,
  bytes_eq, ◌==◌, if◌then◌else◌, length, take, drop, Bool-cases, ==_iff,
}
use pico_modbus_meter.CryptoStorage.{
  CryptoStorage, Fields, realm, qop, colon, sha_size, pwd_size, header_fields, high_digit,
  low_digit, expand_hex, compare_response, final_digest, check_authorization,
  load_from_persistent_storage, set_password,
}
use pico_modbus_meter.CryptoStorage.Hex.{
  hex, expand_hex-hex, expand_hex-elsewhere, length-expand_hex,
}
use pico_modbus_meter.StaticString.{StaticString, sv}
use pico_modbus_meter.StaticString.Bounds.{
  IsValid, text, sv-text, fill_lem, sanitize-IsValid, make_c_str_safe_lem,
}
use pico_modbus_meter.Base.Memory.{
  ◌>>=◌, store_bytes, load_bytes, store_bytes-ok, load_bytes-ok, overwrite, length-overwrite,
  take-overwrite_le, take-drop-overwrite,
}

==_comm : (a b : ℕ) → (a == b) ≡ (b == a)
==_comm a b = ground arith

-- The digits that the comparison accepts are those of the digest.
pub compare_response-hex :
    (cs r : List ℕ) → length r ≡ 2 * length cs → compare_response cs r ≡ bytes_eq r (hex cs)
unfolding compare_response bytes_eq
compare_response-hex [] [] h = refl
compare_response-hex [] (x ∷ r) h = absurd (omega (arith, h))
compare_response-hex (c ∷ cs) [] h = absurd (omega (arith, h))
compare_response-hex (c ∷ cs) (x ∷ []) h = absurd (omega (arith, h))
compare_response-hex (c ∷ cs) (x ∷ y ∷ r) h =
    rw
      (
        compare_response-hex cs r (omega (arith, h)),
        ==_comm (high_digit c) x,
        ==_comm (low_digit c) y,
      )
      refl

module _ (sha256 : List ℕ → List ℕ) where
  -- the digest whose digits are the response: of the digits of the two digests, the nonces, their
  -- count and the quality of protection
  abbrev pub prescribed : List ℕ → List ℕ → Fields → List ℕ
  prescribed pwd method f = sha256 (
      hex (sha256 (f.username ++ (colon ++ (realm ++ (colon ++ pwd)))))
      ++ (colon
          ++ (f.nonce
              ++ (colon
                  ++ (f.nc
                      ++ (colon
                          ++ (f.cnonce
                              ++ (colon
                                  ++ (qop
                                      ++ (colon
                                          ++ hex (sha256 (method ++ (colon ++ f.uri)))))))))))))

  -- who is let in with these fields
  abbrev pub user_of : List ℕ → List ℕ → Option Fields → List ℕ
  user_of pwd method none = []
  user_of pwd method (some f) =
      if length f.response == 64
      then (if bytes_eq f.response (hex (prescribed pwd method f)) then f.username else [])
      else []

  module _ (size : (message : List ℕ) → length (sha256 message) ≡ 32) (sha_storage : List ℕ)
      (room : length sha_storage ≡ 128) where
    -- both digests written, before their digits
    abbrev both : List ℕ → List ℕ → List ℕ
    both a b = overwrite (overwrite sha_storage 0 (sha256 a)) 64 (sha256 b)

    length-first : (a : List ℕ) → length (overwrite sha_storage 0 (sha256 a)) ≡ 128
    length-first a = length-overwrite sha_storage 0 (sha256 a) (omega (arith, size a, room)) ∙ room

    length-both : (a b : List ℕ) → length (both a b) ≡ 128
    length-both a b =
        length-overwrite (overwrite sha_storage 0 (sha256 a)) 64 (sha256 b)
          (omega (arith, size b, length-first a))
        ∙ length-first a

    -- the storage with the digits of both
    abbrev digits : List ℕ → List ℕ → List ℕ
    digits a b = expand_hex 0 32 (expand_hex 64 32 (both a b))

    length-digits : (a b : List ℕ) → length (digits a b) ≡ 128
    length-digits a b =
        length-expand_hex 0 32 (expand_hex 64 32 (both a b))
        ∙ (length-expand_hex 64 32 (both a b) ∙ length-both a b)

    first-both : (a b : List ℕ) → take 32 (drop 0 (both a b)) ≡ sha256 a
    first-both a b =
        take-overwrite_le _ 64 32 _ (omega arith) (omega (arith, length-first a))
        ∙ take-drop-overwrite sha_storage 0 32 (sha256 a) (sym (size a)) (omega arith)

    second-both : (a b : List ℕ) → take 32 (drop 64 (both a b)) ≡ sha256 b
    second-both a b =
        take-drop-overwrite _ 64 32 (sha256 b) (sym (size b)) (omega (arith, length-first a))

    digits-first : (a b : List ℕ) → take 64 (drop 0 (digits a b)) ≡ hex (sha256 a)
    digits-first a b =
        expand_hex-hex 0 32 (expand_hex 64 32 (both a b))
          (omega (arith, length-expand_hex 64 32 (both a b), length-both a b))
        ∙ ap hex (expand_hex-elsewhere 64 32 0 32 (both a b) (inl (omega arith)) ∙ first-both a b)

    digits-second : (a b : List ℕ) → take 64 (drop 64 (digits a b)) ≡ hex (sha256 b)
    digits-second a b =
        expand_hex-elsewhere 0 32 64 64 (expand_hex 64 32 (both a b)) (inr (omega arith))
        ∙ (expand_hex-hex 64 32 (both a b) (omega (arith, length-both a b))
            ∙ ap hex (second-both a b))

    read_first : (a b : List ℕ) → load_bytes (digits a b) 0 64 ≡ some (hex (sha256 a))
    read_first a b =
        load_bytes-ok (digits a b) 0 64 (omega (arith, length-digits a b))
        ∙ ap some (digits-first a b)

    read_second : (a b : List ℕ) → load_bytes (digits a b) 64 64 ≡ some (hex (sha256 b))
    read_second a b =
        load_bytes-ok (digits a b) 64 64 (omega (arith, length-digits a b))
        ∙ ap some (digits-second a b)

    -- the last digest, written at the front and read from there
    read_last :
        (m c : List ℕ)
        → length m ≡ 128
        → (store_bytes m 0 (sha256 c) >>= λ n. load_bytes n 0 32) ≡ some (sha256 c)
    read_last m c h =
        let long : length (overwrite m 0 (sha256 c)) ≡ 128 =
          length-overwrite m 0 (sha256 c) (omega (arith, size c, h)) ∙ h in
        rw
          (
            store_bytes-ok m 0 (sha256 c) (omega (arith, size c, h)),
            load_bytes-ok (overwrite m 0 (sha256 c)) 0 32 (omega (arith, long)),
          )
          (ap some (take-drop-overwrite m 0 32 (sha256 c) (sym (size c)) (omega arith)))

    pub final_digest-prescribed :
        (pwd method : List ℕ) (f : Fields)
        → final_digest sha256 sha_storage pwd method f ≡ some (prescribed pwd method f)
    unfolding final_digest
    final_digest-prescribed pwd method f =
        let a : List ℕ = f.username ++ (colon ++ (realm ++ (colon ++ pwd))) in
        let b : List ℕ = method ++ (colon ++ f.uri) in
        rw
          (
            store_bytes-ok sha_storage 0 (sha256 a) (omega (arith, size a, room)),
            store_bytes-ok (overwrite sha_storage 0 (sha256 a)) 64 (sha256 b)
                (omega (arith, size b, length-first a)),
            read_first a b,
            read_second a b,
          )
          (read_last (digits a b) _ (length-digits a b))

    -- For a hash with digests of 32 bytes and a valid password, `check_authorization` stays in
    -- its objects and lets in the user whom digest authentication prescribes for the fields of the header.
    pub check_authorization-user_of :
        (c : CryptoStorage) (method content : List ℕ)
        → IsValid pwd_size c.user_pwd
        → check_authorization sha256 sha_storage c method content
          ≡ some (user_of (text c.user_pwd) method (header_fields content))
    unfolding check_authorization
    check_authorization-user_of c method content v = decide (header_fields content)
      where
        decide :
            (fields : Option Fields)
            → (elim fields [
              | none ↦ some []
              | some f ↦
                  if length f.response == sha_size * 2
                  then (sv c.user_pwd >>= λ pwd.
                      final_digest sha256 sha_storage pwd method f >>= λ digest.
                      some (if compare_response digest f.response then f.username else []))
                  else some []
            ])
              ≡ some (user_of (text c.user_pwd) method fields)
        decide none = refl
        decide (some f) = elim (Bool-cases (length f.response == 64)) [
          | inl long ↦
              rw
                (
                  long,
                  sv-text v,
                  final_digest-prescribed (text c.user_pwd) method f,
                  compare_response-hex (prescribed (text c.user_pwd) method f) f.response
                      (omega (arith, (==_iff (length f.response) 64).0 long, size _)),
                )
                refl
          | inr short ↦ rw short refl
        ]

-- For a valid password object, `set_password` stays in bounds and keeps the first 64 bytes of the
-- password, what it writes to the flash is loaded again as the same password, and its result is false.
pub set_password-load :
    (c : CryptoStorage) (password : List ℕ)
    → IsValid pwd_size c.user_pwd
    → (stored : StaticString) × (after : CryptoStorage) × (again : CryptoStorage) × (set_password c
          password
        ≡ some (false, after, stored))
      × (load_from_persistent_storage stored ≡ some again)
      × IsValid pwd_size again.user_pwd
      × (text after.user_pwd ≡ take 64 password)
      × (text again.user_pwd ≡ take 64 password)
unfolding set_password load_from_persistent_storage
set_password-load c password v =
    let (pwd, filled, valid, shown) = fill_lem pwd_size c.user_pwd password v in
    let (safe, made, valid', same, _) = make_c_str_safe_lem pwd_size pwd valid in
    (
      pwd,
      record { user_pwd = pwd },
      record { user_pwd = safe },
      rw filled refl,
      rw ((sanitize-IsValid pwd_size pwd valid.capacity valid.small).1 valid.within, made) refl,
      valid',
      shown,
      same ∙ shown,
    )
