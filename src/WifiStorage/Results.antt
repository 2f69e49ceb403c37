-- ===== src/WifiStorage/Results.antt =====
-- What a result of a scan does to the networks in reach.
use pico_modbus_meter.Base.{
  ℕ, suc, ◌+◌, ◌≤◌, ◌<◌, ◌≡◌, refl, sym, ◌∙◌, ◌⊎◌, inl, inr, Option, none, some, List, [], ◌∷◌,
  arith, dec_lt, bytes_eq, if◌then◌else◌, length, get_elem?, set, Bool-cases, length-set,
  length-take, ne→==, take_all, bytes_eq→eq, get_elem?-set_self, get_elem?-take, bytes_eq_refl, ◌≢◌,
  false,
}
use pico_modbus_meter.StaticString.Bounds.{IsValid, text, sv-text, fill_lem}
use pico_modbus_meter.StaticVector.{contents, push_slot, StaticVector}
use pico_modbus_meter.StaticVector.Each.{Each, Each-set, Each-at, Each-take}
use pico_modbus_meter.WifiStorage.{
  WifiInfo, WifiStorage, ssid_size, max_wifis, find_ssid, seen_again, add_wifi, scan_result,
}

-- The name of a network is a valid string.
abbrev pub HasName : WifiInfo → Type 0
HasName w = IsValid ssid_size w.ssid

-- Each network has a valid name.
abbrev pub AllValid : List WifiInfo → Type 0
AllValid ws = Each HasName ws

-- Every slot of the vector has a valid name, and its size is within its array.
pub record IsSound (s : WifiStorage) : Type 0 where
  pub slots : length s.wifis.storage ≡ max_wifis
  pub within : s.wifis.cur_size ≤ max_wifis
  pub names : AllValid s.wifis.storage

-- a network of the list with this name
abbrev Named : List ℕ → List WifiInfo → ℕ → WifiInfo → Type 0
Named ssid ws k w =
    (k < length ws) × (get_elem? ws k ≡ some w) × IsValid ssid_size w.ssid × (text w.ssid ≡ ssid)

find_ssid_step :
    (ssid : List ℕ) (x : WifiInfo) (ws : List WifiInfo) (i : ℕ)
    → IsValid ssid_size x.ssid
    → find_ssid ssid (x ∷ ws) i
      ≡ (if bytes_eq (text x.ssid) ssid then some (some i) else find_ssid ssid ws (i + 1))
unfolding find_ssid
find_ssid_step ssid x ws i v = rw (sv-text v) refl

-- No network of the list has this name.
abbrev pub Absent : List ℕ → List WifiInfo → Type 0
Absent ssid [] = Unit {0}
Absent ssid (w ∷ ws) = (text w.ssid ≢ ssid) × Absent ssid ws

bytes_eq-differs : (xs ys : List ℕ) → bytes_eq xs ys ≡ false → xs ≢ ys
bytes_eq-differs xs ys h e = let one = rw e at h in let two = bytes_eq_refl ys in cc

-- The search ends, without a network if none has that name, or with the place of one.
pub find_ssid_lem :
    (ssid : List ℕ) (ws : List WifiInfo) (i : ℕ)
    → AllValid ws
    → ((find_ssid ssid ws i ≡ some none) × Absent ssid ws)
      ⊎ ((k : ℕ) × (w : WifiInfo) × (find_ssid ssid ws i ≡ some (some (i + k))) × Named ssid ws k w)
unfolding find_ssid
find_ssid_lem ssid [] i h = inl (refl, tt)
find_ssid_lem ssid (x ∷ ws) i h =
    rw (find_ssid_step ssid x ws i h.0) (elim (Bool-cases (bytes_eq (text x.ssid) ssid)) [
      | inl e ↦
          inr (
            0,
            x,
            rw (e, plus_zero) refl,
            (omega arith, refl, h.0, bytes_eq→eq (text x.ssid) ssid e),
          )
      | inr e ↦ rw e (elim (find_ssid_lem ssid ws (i + 1) h.1) [
        | inl (g, others) ↦ inl (g, (bytes_eq-differs (text x.ssid) ssid e, others))
        | inr (k, w, g, (l, at, v, n)) ↦
            inr (suc k, w, rw (g, plus_suc k) refl, (omega arith, at, v, n))
      ])
    ])
  where
    plus_zero : i + 0 ≡ i
    plus_zero = omega arith

    plus_suc : (k : ℕ) → i + 1 + k ≡ i + suc k
    plus_suc k = omega arith

-- a network that is listed under this name, last seen now
abbrev pub Lists : List ℕ → ℕ → WifiStorage → Type 0
Lists ssid now s =
    (k : ℕ) × (w : WifiInfo) × (k < s.wifis.cur_size)
    × (get_elem? s.wifis.storage k ≡ some w)
    × (text w.ssid ≡ ssid)
    × (w.last_seen_us ≡ now)

-- The operation gives a sound storage that lists the network, or leaves one whose slots are all in use by others.
abbrev pub Recorded : List ℕ → ℕ → WifiStorage → Option WifiStorage → Type 0
Recorded ssid now s r =
    (t : WifiStorage) × (r ≡ some t)
    × IsSound t
    × (Lists ssid now t
        ⊎ ((t ≡ s) × (s.wifis.cur_size ≡ max_wifis) × Absent ssid (contents s.wifis)))

push_slot-room :
    (v : StaticVector WifiInfo)
    → v.cur_size < max_wifis
    → push_slot max_wifis v ≡ (some v.cur_size, record v { cur_size = v.cur_size + 1 })
unfolding push_slot
push_slot-room v l = ground arith

push_slot-full :
    (v : StaticVector WifiInfo) → v.cur_size ≡ max_wifis → push_slot max_wifis v ≡ (none, v)
unfolding push_slot
push_slot-full v e = rw e refl

module _ (mix : ℕ → ℕ → ℕ) (s : WifiStorage) (ssid : List ℕ) (rssi now : ℕ)
    (sound : IsSound s) where
  seen_again-Recorded :
      (k : ℕ) (w : WifiInfo)
      → k < s.wifis.cur_size
      → get_elem? s.wifis.storage k ≡ some w
      → IsValid ssid_size w.ssid
      → text w.ssid ≡ ssid
      → Recorded ssid now s (seen_again mix s k rssi now)
  unfolding seen_again
  seen_again-Recorded k w l at v n =
      let seen = record w { rssi = mix w.rssi rssi; last_seen_us = now } in
      rw at (
        record s { wifis = record s.wifis { storage = set s.wifis.storage k seen } },
        refl,
        record {
          slots = length-set s.wifis.storage k seen ∙ sound.slots;
          within = sound.within;
          names = Each-set HasName s.wifis.storage k seen sound.names v;
        },
        inl (
          k,
          seen,
          l,
          get_elem?-set_self s.wifis.storage k seen (omega (arith, sound.slots, sound.within)),
          n,
          refl,
        ),
      )

  add_wifi-Recorded :
      length ssid ≤ ssid_size
      → Absent ssid (contents s.wifis)
      → Recorded ssid now s (add_wifi mix s ssid rssi now)
  unfolding add_wifi
  add_wifi-Recorded short absent = elim (dec_lt s.wifis.cur_size max_wifis) [
    | yes l ↦
        let n = s.wifis.cur_size in
        let (w, at, v) =
          Each-at HasName s.wifis.storage n sound.names (omega (arith, sound.slots)) in
        let (name, filled, valid, shown) = fill_lem ssid_size w.ssid ssid v in
        let new : WifiInfo = record { ssid = name; rssi = rssi; last_seen_us = now } in
        rw (add_wifi, push_slot-room s.wifis l, push_slot-room s.wifis l, at, filled)
          (
            record s { wifis = record { storage = set s.wifis.storage n new; cur_size = n + 1 } },
            refl,
            record {
              slots = length-set s.wifis.storage n new ∙ sound.slots;
              within = omega arith;
              names = Each-set HasName s.wifis.storage n new sound.names valid;
            },
            inl (
              n,
              new,
              omega arith,
              get_elem?-set_self s.wifis.storage n new (omega (arith, sound.slots)),
              shown ∙ take_all ssid_size ssid short,
              refl,
            ),
          )
    | no f ↦
        let all : s.wifis.cur_size ≡ max_wifis = omega (arith, sound.within) in
        rw (add_wifi, push_slot-full s.wifis all) (s, refl, sound, inr (refl, all, absent))
  ]

  -- In a sound storage, a result of a scan with a name of 1 to 256 bytes accesses no slot out of bounds and leaves a
  -- sound storage. It lists the network as seen now, unless all slots are in use by others: then nothing changes.
  pub scan_result-Recorded :
      0 < length ssid
      → length ssid ≤ ssid_size
      → Recorded ssid now s (scan_result mix s ssid rssi now)
  unfolding scan_result
  scan_result-Recorded named short =
      let listed = Each-take HasName s.wifis.cur_size s.wifis.storage sound.names in
      rw (ne→== (length ssid) 0 (omega arith))
        (elim (find_ssid_lem ssid (contents s.wifis) 0 listed) [
          | inl (g, absent) ↦ rw g (add_wifi-Recorded short absent)
          | inr (k, w, g, (l, at, v, n)) ↦
              let inside : k < s.wifis.cur_size =
                omega (arith, l, length-take s.wifis.cur_size s.wifis.storage) in
              rw (g, zero_plus k)
                (seen_again-Recorded k w inside
                  (sym (get_elem?-take s.wifis.cur_size k s.wifis.storage inside) ∙ at) v n)
        ])
    where
      zero_plus : (k : ℕ) → 0 + k ≡ k
      zero_plus k = omega arith
