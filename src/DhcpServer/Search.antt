-- ===== src/DhcpServer/Search.antt =====
-- Which lease the loop of DHCPDISCOVER picks.
use pico_modbus_meter.Base.{
  ℕ, ◌+◌, ◌≤◌, ◌≡◌, ◌≢◌, refl, ◌||◌, Option, none, some, List, [], ◌∷◌, length, arith,
  if◌then◌else◌, bytes_eq, Bool-cases, inl, inr, ne→==,
}
use pico_modbus_meter.DhcpServer.{Lease, no_mac, max_ip, is_expired, visit, discover}

-- the index of the first lease of the client, from index `i` on
abbrev pub own_lease : List ℕ → ℕ → List Lease → Option ℕ
own_lease mac i [] = none
own_lease mac i (l ∷ ls) = if bytes_eq l.mac mac then some i else own_lease mac (i + 1) ls

-- the index of the first lease that is free or has expired
abbrev pub free_lease : (ℕ → ℕ) → ℕ → List Lease → Option ℕ
free_lease ticks i [] = none
free_lease ticks i (l ∷ ls) =
    if is_expired l.expiry (ticks i) || bytes_eq l.mac no_mac
    then some i
    else free_lease ticks (i + 1) ls

abbrev pub or_else : Option ℕ → ℕ → ℕ
or_else none d = d
or_else (some i) d = i

discover-found :
    (ticks : ℕ → ℕ) (mac : List ℕ) (i : ℕ) (ls : List Lease) (yi : ℕ)
    → yi ≢ max_ip
    → (discover ticks mac i ls yi).1 ≡ or_else (own_lease mac i ls) yi
unfolding discover visit
discover-found ticks mac i [] yi h = refl
discover-found ticks mac i (l ∷ ls) yi h = elim (Bool-cases (bytes_eq l.mac mac)) [
  | inl own ↦ rw own
  | inr other ↦ rw (other, ne→== yi max_ip h) (discover-found ticks mac (i + 1) ls yi h)
]

-- On at most `max_ip` leases from index `i` on, the loop picks the client's own lease if it has one;
-- else the first lease that is free or expired; else none.
pub discover-picks :
    (ticks : ℕ → ℕ) (mac : List ℕ) (i : ℕ) (ls : List Lease)
    → i + length ls ≤ max_ip
    → (discover ticks mac i ls max_ip).1
      ≡ or_else (own_lease mac i ls) (or_else (free_lease ticks i ls) max_ip)
unfolding discover visit
discover-picks ticks mac i [] h = refl
discover-picks ticks mac i (l ∷ ls) h = elim (Bool-cases (bytes_eq l.mac mac)) [
  | inl own ↦ rw own
  | inr other ↦ elim (Bool-cases (is_expired l.expiry (ticks i))) [
    | inl old ↦ rw (other, old) (discover-found ticks mac (i + 1) ls i (omega arith))
    | inr running ↦ elim (Bool-cases (bytes_eq l.mac no_mac)) [
      | inl free ↦ rw (other, running, free) (discover-found ticks mac (i + 1) ls i (omega arith))
      | inr taken ↦ rw (other, running, taken) (discover-picks ticks mac (i + 1) ls (omega arith))
    ]
  ]
]
