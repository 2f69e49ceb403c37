-- ===== src/DhcpServer/Leases.antt =====
-- What handling a packet does to the table of leases.
use pico_modbus_meter.Base.{
  ℕ, zero, suc, ◌+◌, ◌-◌, ◌%◌, ◌≡◌, refl, true, Option, none, some, List, [], ◌∷◌, take, get_elem?,
  set, bytes_eq, ◌==◌, leb, Bool-cases, inl, inr, ◌⊎◌, subst, bytes_eq→eq,
}
use pico_modbus_meter.Base.Memory.{load, load_bytes, >>=-eq-some}
use pico_modbus_meter.DhcpServer.{
  Server, Lease, no_mac, max_ip, is_expired, visit, discover, request, new_expiry, Outcome,
  handle_discover, handle_request, write_reply, Found, acknowledge, on_found, found, opt_find,
  options, opt_requested_ip, base_ip,
}

-- How one lease may change when the client `mac` is served: not at all; cleared, once expired; or
-- taken by the client, if it was its own or free.
pub data Change (ticks : ℕ → ℕ) (mac : List ℕ) (l l' : Lease) : Type 0 where
  same : l' ≡ l → Change ticks mac l l'
  cleared : (k : ℕ) → is_expired l.expiry (ticks k) ≡ true → l'.mac ≡ no_mac → Change ticks mac l l'
  taken : (l.mac ≡ mac) ⊎ (l.mac ≡ no_mac) → l'.mac ≡ mac → Change ticks mac l l'

-- Two tables of equal length, related lease by lease.
pub data Changes (ticks : ℕ → ℕ) (mac : List ℕ) : List Lease → List Lease → Type 0 where
  done : Changes ticks mac [] []
  more :
      {l l' : Lease} {ls ls' : List Lease}
      → Change ticks mac l l'
      → Changes ticks mac ls ls'
      → Changes ticks mac (l ∷ ls) (l' ∷ ls')

module _ (ticks : ℕ → ℕ) (mac : List ℕ) where
  Changes-refl : (ls : List Lease) → Changes ticks mac ls ls
  Changes-refl [] = done
  Changes-refl (l ∷ ls) = more (same refl) (Changes-refl ls)

  visit-Change : (i : ℕ) (l : Lease) (yi : ℕ) → Change ticks mac l (visit (ticks i) i l yi).0
  unfolding visit
  visit-Change i l yi = elim (Bool-cases (yi == max_ip)) [
    | inr chosen ↦ rw chosen (same refl)
    | inl open_yet ↦ elim (Bool-cases (is_expired l.expiry (ticks i))) [
      | inl old ↦ rw (open_yet, old) (cleared i old refl)
      | inr running ↦ rw (open_yet, running) (same refl)
    ]
  ]

  discover-Changes :
      (i : ℕ) (ls : List Lease) (yi : ℕ) → Changes ticks mac ls (discover ticks mac i ls yi).0
  unfolding discover
  discover-Changes i [] yi = done
  discover-Changes i (l ∷ ls) yi = elim (Bool-cases (bytes_eq l.mac mac)) [
    | inl own ↦ rw own (Changes-refl (l ∷ ls))
    | inr other ↦
        rw other
          (more (visit-Change i l yi) (discover-Changes (i + 1) ls (visit (ticks i) i l yi).1))
  ]

  set-Changes :
      (ls : List Lease) (i : ℕ) (l l' : Lease)
      → get_elem? ls i ≡ some l
      → Change ticks mac l l'
      → Changes ticks mac ls (set ls i l')
  set-Changes [] i l l' e c = done
  set-Changes (x ∷ ls) zero l l' e c =
      more (subst (λ y. Change ticks mac y l') (cc) c) (Changes-refl ls)
  set-Changes (x ∷ ls) (suc i) l l' e c = more (same refl) (set-Changes ls i l l' e c)

  request-Changes :
      (ls ls' : List Lease) (yi : ℕ)
      → request (ticks 0) mac ls yi ≡ some ls'
      → Changes ticks mac ls ls'
  unfolding request
  request-Changes ls ls' yi e =
      let (l, at, e') = >>=-eq-some (get_elem? ls yi) _ e in
      elim (Bool-cases (bytes_eq l.mac mac)) [
        | inl own ↦ subst (Changes ticks mac ls) (cc (rw own at e')) (
            set-Changes ls yi l (record l { expiry = new_expiry (ticks 0) }) at
              (taken (inl (bytes_eq→eq l.mac mac own)) (bytes_eq→eq l.mac mac own)))
        | inr other ↦ elim (Bool-cases (bytes_eq l.mac no_mac)) [
          | inl free ↦ subst (Changes ticks mac ls) (cc (rw (other, free) at e')) (
              set-Changes ls yi l (record { mac = mac; expiry = new_expiry (ticks 0) }) at
                (taken (inr (bytes_eq→eq l.mac no_mac free)) refl))
          | inr used ↦ cc (rw (other, used) at e')
        ]
      ]

-- What `on_found` goes on with.
pub on_found-cases :
    (f : Found) (d : Server) (k : ℕ → Option Outcome) (d' : Server) (r : Option (List ℕ × ℕ))
    → on_found f d k ≡ some (d', r)
    → (d' ≡ d) ⊎ ((i : ℕ) × (k i ≡ some (d', r)))
on_found-cases Found.overrun d k d' r e = cc
on_found-cases Found.not_found d k d' r e = inl (cc)
on_found-cases (found i) d k d' r e = inr (i, e)

module _ (ticks : ℕ → ℕ) (mac : List ℕ) (d d' : Server) (r : Option (List ℕ × ℕ)) where
  abbrev Served : Type 0
  Served = Changes ticks mac d.lease d'.lease

  pub ignored-Served : d' ≡ d → Served
  ignored-Served e = rw e (Changes-refl ticks mac d.lease)

  acknowledge-Served :
      (o : Option (List Lease)) (msg : List ℕ) (yi : ℕ)
      → request (ticks 0) mac d.lease yi ≡ o
      → acknowledge o d msg yi ≡ some (d', r)
      → Served
  acknowledge-Served none msg yi e h = ignored-Served (cc)
  acknowledge-Served (some ls) msg yi e h =
      let (w, at, h') = >>=-eq-some (write_reply (record d { lease = ls }) msg yi 5) _ h in
      let same_table : ls ≡ d'.lease = cc in
      subst (Changes ticks mac d.lease) same_table (request-Changes ticks mac d.lease ls yi e)

  pub handle_discover-Served :
      (msg : List ℕ) → handle_discover d ticks msg mac ≡ some (d', r) → Served
  unfolding handle_discover
  handle_discover-Served msg e =
      let (ls, yi) = discover ticks mac 0 d.lease max_ip in
      let table : (discover ticks mac 0 d.lease max_ip).0 ≡ d'.lease =
        elim (Bool-cases ((discover ticks mac 0 d.lease max_ip).1 == max_ip)) [
          | inl none_free ↦ cc (rw none_free at e)
          | inr offered ↦
              let (w, at, e') =
                >>=-eq-some
                  (write_reply (record d { lease = (discover ticks mac 0 d.lease max_ip).0 }) msg
                    (discover ticks mac 0 d.lease max_ip).1 2)
                  _ (rw offered at e) in
              cc
        ] in
      subst (Changes ticks mac d.lease) table (discover-Changes ticks mac 0 d.lease max_ip)

  pub handle_request-Served :
      (msg : List ℕ) → handle_request d ticks msg mac ≡ some (d', r) → Served
  unfolding handle_request
  handle_request-Served msg e =
      let (f, _, e1) = >>=-eq-some (opt_find msg options opt_requested_ip) _ e in
      elim (on_found-cases f d _ d' r e1) [
        | inl unchanged ↦ ignored-Served unchanged
        | inr (i, e2) ↦
            let (net, _, e3) = >>=-eq-some (load_bytes msg (options + (i + 2)) 3) _ e2 in
            elim (Bool-cases (bytes_eq net (take 3 d.ip))) [
              | inr foreign ↦ ignored-Served (cc (rw foreign at e3))
              | inl ours ↦
                  let (last, _, e4) =
                    >>=-eq-some (load msg (options + (i + 5))) _ (rw ours at e3) in
                  elim (Bool-cases (leb max_ip ((last + 256 - base_ip) % 256))) [
                    | inl beyond ↦ ignored-Served (cc (rw beyond at e4))
                    | inr within ↦
                        acknowledge-Served _ msg ((last + 256 - base_ip) % 256) refl
                          (rw within at e4)
                  ]
            ]
      ]
