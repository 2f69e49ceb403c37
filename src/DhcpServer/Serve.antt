-- ===== src/DhcpServer/Serve.antt =====
-- What serving a packet does to the table of leases: `handle` and `process` with the client that
-- the packet names.
use pico_modbus_meter.Base.{
  ℕ, if◌then◌else◌, zero, suc, ◌+◌, ◌≤◌, ◌≡◌, ◌≢◌, sym, ap, ◌∙◌, subst, true, false, Option, none,
  some, List, [], ◌∷◌, length, take, drop, get_elem?, arith, ◌==◌, Bool-cases, inl, inr, dec_le,
  le→leb, lt→leb, length-take, ltb,
}
use pico_modbus_meter.Base.Memory.{
  >>=-eq-some, load, load_bytes, overwrite, store_bytes, drop-overwrite_after,
}
use pico_modbus_meter.Lwip.{Answers, Pbuf, Event}
use pico_modbus_meter.DhcpServer.{
  Server, Lease, no_mac, is_expired, chaddr, yiaddr, options, msg_size, handle, process,
  dhcp_min_size, handle_discover, handle_request, respond, sendto,
}
use pico_modbus_meter.DhcpServer.Options.{opt_find, opt_msg_type}
use pico_modbus_meter.DhcpServer.Leases.{
  on_found-cases, ignored-Served, handle_discover-Served, handle_request-Served, Changes, same,
  cleared, taken, done, more,
}

-- The client's hardware address, where the message holds it.
abbrev pub client : List ℕ → List ℕ
client msg = take 6 (drop chaddr msg)

load_bytes-eq_some :
    (m : List ℕ) (i n : ℕ) (bs : List ℕ) → load_bytes m i n ≡ some bs → bs ≡ take n (drop i m)
unfolding load_bytes
load_bytes-eq_some m i n bs e = ground (arith, e)

store_bytes-eq_some :
    (m : List ℕ) (i : ℕ) (bs m' : List ℕ)
    → store_bytes m i bs ≡ some m'
    → (i + length bs ≤ length m) × (m' ≡ overwrite m i bs)
unfolding store_bytes
store_bytes-eq_some m i bs m' e = elim (dec_le (i + length bs) (length m)) [
  | yes h ↦ (h, cc (rw (le→leb (i + length bs) (length m) h) at e))
  | no h ↦ cc (rw (lt→leb (i + length bs) (length m) (omega arith)) at e)
]

store_bytes-client :
    (m : List ℕ) (i : ℕ) (bs m' : List ℕ)
    → i + length bs ≤ chaddr
    → store_bytes m i bs ≡ some m'
    → client m' ≡ client m
store_bytes-client m i bs m' h e =
    let (fits, eq) = store_bytes-eq_some m i bs m' e in
    rw (eq, drop-overwrite_after m i chaddr bs h fits)

-- the switch on the message type
switch-Changes :
    (d d' : Server) (ticks : ℕ → ℕ) (msg mac : List ℕ) (r : Option (List ℕ × ℕ)) (type : ℕ)
    → (if type == 1
        then handle_discover d ticks msg mac
        else if type == 3
        then handle_request d ticks msg mac
        else some (d, none))
      ≡ some (d', r)
    → Changes ticks mac d.lease d'.lease
switch-Changes d d' ticks msg mac r type e = elim (Bool-cases (type == 1)) [
  | inl discovers ↦ handle_discover-Served ticks mac d d' r msg (rw discovers at e)
  | inr otherwise ↦ elim (Bool-cases (type == 3)) [
    | inl requests ↦ handle_request-Served ticks mac d d' r msg (rw (otherwise, requests) at e)
    | inr other ↦ ignored-Served ticks mac d d' r (cc (rw (otherwise, other) at e))
  ]
]

handle-Changes :
    (d d' : Server) (ticks : ℕ → ℕ) (msg : List ℕ) (r : Option (List ℕ × ℕ))
    → length d.ip ≡ 4
    → handle d ticks msg ≡ some (d', r)
    → Changes ticks (client msg) d.lease d'.lease
unfolding handle
handle-Changes d d' ticks msg r four e =
    let (m1, e1, f1) = >>=-eq-some (store_bytes msg 0 (2 ∷ [])) _ e in
    let (m2, e2, f2) = >>=-eq-some (store_bytes m1 yiaddr (take 4 d.ip)) _ f1 in
    let (f, _, f3) = >>=-eq-some (opt_find m2 options opt_msg_type) _ f2 in
    let same_client : client m2 ≡ client msg =
      store_bytes-client m1 yiaddr (take 4 d.ip) m2 (omega (arith, length-take 4 d.ip)) e2
      ∙ store_bytes-client msg 0 (2 ∷ []) m1 (omega arith) e1 in
    elim (on_found-cases f d _ d' r f3) [
      | inl unchanged ↦ ignored-Served ticks (client msg) d d' r unchanged
      | inr (i, f4) ↦
          let (type, _, f5) = >>=-eq-some (load m2 (options + (i + 2))) _ f4 in
          let (mac, e6, f6) = >>=-eq-some (load_bytes m2 chaddr 6) _ f5 in
          let mac_eq : mac ≡ client msg = load_bytes-eq_some m2 chaddr 6 mac e6 ∙ same_client in
          subst (λ c. Changes ticks c d.lease d'.lease) mac_eq
            (switch-Changes d d' ticks m2 mac r type f6)
    ]

some_eq : {x l : Lease} → some x ≡ some l → x ≡ l
some_eq e = cc

Changes-keep :
    (ticks : ℕ → ℕ) (mac : List ℕ) {ls ls' : List Lease} (i : ℕ) (l : Lease)
    → Changes ticks mac ls ls'
    → get_elem? ls i ≡ some l
    → l.mac ≢ mac
    → l.mac ≢ no_mac
    → ((k : ℕ) → is_expired l.expiry (ticks k) ≡ false)
    → get_elem? ls' i ≡ some l
Changes-keep ticks mac i l done at other used running = at
Changes-keep ticks mac (suc i) l (more c cs) at other used running =
    Changes-keep ticks mac i l cs at other used running
Changes-keep ticks mac zero l (more {l = x} (same e) cs) at other used running = cc
Changes-keep ticks mac zero l (more {l = x} (cleared k old e) cs) at other used running =
    let xl : x ≡ l = cc in
    let clash : true ≡ false =
      sym old ∙ ap (λ (y : Lease). is_expired y.expiry (ticks k)) xl ∙ running k in
    cc
Changes-keep ticks mac zero l (more {l = x} (taken (inl own) e) cs) at other used running =
    absurd (other (sym (ap (λ (y : Lease). y.mac) (some_eq at)) ∙ own))
Changes-keep ticks mac zero l (more {l = x} (taken (inr free) e) cs) at other used running =
    absurd (used (sym (ap (λ (y : Lease). y.mac) (some_eq at)) ∙ free))

respond-server :
    (a : Answers) (nif : Option ℕ) (d d' : Server) (r : Option (List ℕ × ℕ)) (es : List Event)
    → respond a nif d r ≡ some (d', es)
    → d ≡ d'
respond-server a nif d d' none es e = cc
respond-server a nif d d' (some (reply, len)) es e =
    let (s, _, e') = >>=-eq-some (sendto a nif reply len) _ e in cc

-- Whenever a packet is processed without undefined behaviour, a lease that has an owner other than
-- the client in the packet, and has not expired at any reading of the clock, stays as it is.
pub process-keeps_lease :
    (a : Answers) (d : Server) (ticks : ℕ → ℕ) (nif : Option ℕ) (stack : List ℕ) (p : Pbuf)
    (d' : Server) (es : List Event) (i : ℕ) (l : Lease)
    → length d.ip ≡ 4
    → process a d ticks nif stack p ≡ some (d', es)
    → get_elem? d.lease i ≡ some l
    → l.mac ≢ client (p.copy_partial stack msg_size 0).0
    → l.mac ≢ no_mac
    → ((k : ℕ) → is_expired l.expiry (ticks k) ≡ false)
    → get_elem? d'.lease i ≡ some l
unfolding process
process-keeps_lease a d ticks nif stack p d' es i l four e at other used running =
    elim (Bool-cases (ltb p.tot_len dhcp_min_size)) [
      | inl short ↦ cc (rw short at e)
      | inr long ↦ elim (Bool-cases (ltb (p.copy_partial stack msg_size 0).1 dhcp_min_size)) [
        | inl cut ↦ cc (rw (long, cut) at e)
        | inr whole ↦
            let ((d1, r), e1, e2) =
              >>=-eq-some (handle d ticks (p.copy_partial stack msg_size 0).0) _
                (rw (long, whole) at e) in
            let kept : get_elem? d1.lease i ≡ some l =
              Changes-keep ticks _ i l
                (handle-Changes d d1 ticks (p.copy_partial stack msg_size 0).0 r four e1) at other
                used running in
            subst (λ (x : Server). get_elem? x.lease i ≡ some l)
              (respond-server a nif d1 d' r es e2) kept
      ]
    ]
