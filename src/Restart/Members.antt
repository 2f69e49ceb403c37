-- ===== src/Restart/Members.antt =====
-- The storage in flash is a map from the members to what was written last.
use pico_modbus_meter.Base.{
  ℕ, ◌+◌, ◌≤◌, ◌<◌, ◌≡◌, refl, ap, ◌∙◌, ◌≢◌, ◌⊎◌, inl, inr, Option, some, List, [], ◌∷◌, arith,
  ◌==◌, if◌then◌else◌, length, length-append, ==_iff, ne→==,
}
use pico_modbus_meter.StaticString.{StaticString}
use pico_modbus_meter.PersistentStorage.{PersistentStorage, pico_ok, Result, write}
use pico_modbus_meter.PersistentStorage.Flash.{FlashOps, Documented}
use pico_modbus_meter.PersistentStorage.Write.{both_run}
use pico_modbus_meter.PersistentStorage.ReadBack.{IsValid, read-write}
use pico_modbus_meter.WebServer.{
  Stored, modbus_id, invert_watts, hostname, ssid_wifi, pwd_wifi, user_pwd,
}
use pico_modbus_meter.Restart.{
  Member, inverted, address, user_password, host, wifi_ssid, wifi_password, offset, size,
  layout_size, member_of, le32, string_bytes, bytes_of, write_stored, read_member,
}

-- a text with an array of 64 bytes
abbrev pub IsSized : Stored → Type 0
IsSized (modbus_id id) = Unit {0}
IsSized (invert_watts i) = Unit {0}
IsSized (hostname s) = length s.storage ≡ 64
IsSized (ssid_wifi s) = length s.storage ≡ 64
IsSized (pwd_wifi s) = length s.storage ≡ 64
IsSized (user_pwd s) = length s.storage ≡ 64

pub data AllSized : List Stored → Type 0 where
  nil : AllSized []
  cons : {x : Stored} {xs : List Stored} → IsSized x → AllSized xs → AllSized (x ∷ xs)

string_bytes-size : (s : StaticString) → length s.storage ≡ 64 → length (string_bytes s) ≡ 68
string_bytes-size s e = omega (arith, length-append (le32 s.cur_size) s.storage, e)

bytes_of-size : (x : Stored) → IsSized x → length (bytes_of x) ≡ size (member_of x)
bytes_of-size (modbus_id id) h = refl
bytes_of-size (invert_watts i) h = refl
bytes_of-size (hostname s) h = string_bytes-size s h
bytes_of-size (ssid_wifi s) h = string_bytes-size s h
bytes_of-size (pwd_wifi s) h = string_bytes-size s h
bytes_of-size (user_pwd s) h = string_bytes-size s h

-- the same member, or members that do not overlap
apart : (m k : Member) → (m ≡ k) ⊎ ((offset m + size m ≤ offset k) ⊎ (offset k + size k ≤ offset m))
apart inverted inverted = inl refl
apart address address = inl refl
apart user_password user_password = inl refl
apart host host = inl refl
apart wifi_ssid wifi_ssid = inl refl
apart wifi_password wifi_password = inl refl
apart inverted _ = inr (inl (omega arith))
apart address inverted = inr (inr (omega arith))
apart address _ = inr (inl (omega arith))
apart user_password inverted = inr (inr (omega arith))
apart user_password address = inr (inr (omega arith))
apart user_password _ = inr (inl (omega arith))
apart host wifi_ssid = inr (inl (omega arith))
apart host wifi_password = inr (inl (omega arith))
apart host _ = inr (inr (omega arith))
apart wifi_ssid wifi_password = inr (inl (omega arith))
apart wifi_ssid _ = inr (inr (omega arith))
apart wifi_password _ = inr (inr (omega arith))

inside : (m : Member) → offset m + size m ≤ layout_size
inside inverted = omega arith
inside address = omega arith
inside user_password = omega arith
inside host = omega arith
inside wifi_ssid = omega arith
inside wifi_password = omega arith

-- a success for each write
abbrev pub all_ok : List Stored → List Result
all_ok [] = []
all_ok (x ∷ xs) = pico_ok ∷ all_ok xs

-- What a member holds after the writes, given what it held before: a map that is overwritten.
abbrev pub latest : List Stored → (Member → Option (List ℕ)) → Member → Option (List ℕ)
latest [] before m = before m
latest (x ∷ xs) before m =
    latest xs (λ k. if offset k == offset (member_of x) then some (bytes_of x) else before k) m

latest-cong :
    (xs : List Stored) (f g : Member → Option (List ℕ)) (m : Member)
    → ((k : Member) → f k ≡ g k)
    → latest xs f m ≡ latest xs g m
latest-cong [] f g m h = h m
latest-cong (x ∷ xs) f g m h =
    latest-cong xs _ _ m
      (λ k. ap (λ r. if offset k == offset (member_of x) then some (bytes_of x) else r) (h k))

module _ (ops : FlashOps) (docs : Documented ops) (flash_size : ℕ) where
  -- after one write
  written :
      (s : PersistentStorage) (x : Stored)
      → IsValid flash_size layout_size s
      → IsSized x
      → (s' : PersistentStorage) × (write ops flash_size layout_size both_run s
            (bytes_of x)
            (offset (member_of x))
          ≡ some (pico_ok, s'))
        × IsValid flash_size layout_size s'
        × ((k : Member)
            → read_member ops flash_size s' k ≡ (
                if offset k == offset (member_of x)
                then some (bytes_of x)
                else read_member ops flash_size s k))
  unfolding read_member
  written s x v h =
      let full = bytes_of-size x h in
      let (s', done, v', back, others) =
        read-write ops docs flash_size layout_size s v (bytes_of x)
          (omega (arith, full, inside (member_of x))) (offset (member_of x))
          (omega (arith, full, inside (member_of x))) in
      (
        s',
        done,
        v',
        λ k. elim (apart k (member_of x)) [
          | inl e ↦
              rw (e, (==_iff (offset (member_of x)) (offset (member_of x))).1 refl)
                (rw full at back)
          | inr d ↦
              rw (ne→== (offset k) (offset (member_of x)) (differs k (member_of x) d))
                (others (offset k) (size k) (inside k) (rw full d))
        ],
      )
    where
      positive : (m : Member) → 0 < size m
      positive inverted = omega arith
      positive address = omega arith
      positive user_password = omega arith
      positive host = omega arith
      positive wifi_ssid = omega arith
      positive wifi_password = omega arith

      differs :
          (k m : Member)
          → (offset k + size k ≤ offset m) ⊎ (offset m + size m ≤ offset k)
          → offset k ≢ offset m
      differs k m (inl a) e = omega (arith, a, e, positive k)
      differs k m (inr a) e = omega (arith, a, e, positive m)

  -- With a flash that holds the layout, the documented flash functions, which run, and texts of 64 bytes: each write of any
  -- list of writes to the members succeeds, and each member of the layout then reads as what was written to it last, or
  -- as before if nothing was.
  pub read_member-write_stored :
      (xs : List Stored) (s : PersistentStorage)
      → IsValid flash_size layout_size s
      → AllSized xs
      → (s' : PersistentStorage) × (write_stored ops flash_size both_run xs s
          ≡ some (all_ok xs, s'))
        × IsValid flash_size layout_size s'
        × ((m : Member)
            → read_member ops flash_size s' m ≡ latest xs (read_member ops flash_size s) m)
  unfolding write_stored
  read_member-write_stored [] s v nil = (s, refl, v, λ m. refl)
  read_member-write_stored (x ∷ xs) s v (cons h hs) =
      let (s1, first, v1, r1) = written s x v h in
      let (s2, rest, v2, r2) = read_member-write_stored xs s1 v1 hs in
      (s2, rw (first, rest) refl, v2, λ m. r2 m ∙ latest-cong xs _ _ m r1)
