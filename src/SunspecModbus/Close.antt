-- ===== src/SunspecModbus/Close.antt =====
-- What closing a connection does to the table.
use pico_modbus_meter.Base.{
  ℕ, zero, suc, ◌+◌, ◌-◌, ◌≤◌, ◌<◌, ◌≡◌, refl, sym, ap, ◌∙◌, Bool, some, List, [], ◌∷◌, length,
  take, get_elem?, set, arith, length-set, take-set_after, get_elem?-lt, get_elem?-take, lt→ltb,
  ℕ_discrete, Bool-cases, inl, inr, ◌==◌, ==_iff,
}
use pico_modbus_meter.StaticVector.{StaticVector, contents, pop, set_elem}
use pico_modbus_meter.StaticVector.Bounded
use pico_modbus_meter.StaticVector.RemoveIf.{count, one, count-take-suc, count-take-set}
use pico_modbus_meter.SunspecModbus.{
  TcpIo, Connection, close_socket, max_connections, find, find_from, tcp_server_result,
}
use pico_modbus_meter.StaticVector.Bounded.{back-used, pop-used}

-- Overwriting an element by the last one, and dropping that, removes the element.
replace-last {ℓ} :
    {A : Type ℓ} (p : A → Bool) (xs : List A) (m i : ℕ) (x y : A)
    → get_elem? xs i ≡ some x
    → get_elem? xs m ≡ some y
    → i ≤ m
    → count p (take m (set xs i y)) + one p x ≡ count p (take (suc m) xs)
replace-last p xs m i x y a b h = elim (ℕ_discrete i m) [
  | no ne ↦ omega (arith, count-take-set p xs m i x y a (omega arith), count-take-suc p xs m y b)
  | yes e ↦
      ap (λ zs. count p zs + one p x) (take-set_after xs m i y (omega arith))
      ∙ sym (count-take-suc p xs m x (ap (get_elem? xs) (sym e) ∙ a))
]

-- `find` gives the slot of a connection in use that has the socket.
find_from_lem :
    (socket i j : ℕ) (cs : List Connection)
    → find_from socket cs i ≡ some j
    → (c : Connection) × (i ≤ j) × (get_elem? cs (j - i) ≡ some c) × (c.client_socket ≡ socket)
find_from_lem socket i j [] e = cc
find_from_lem socket i j (c ∷ cs) e = elim (Bool-cases (c.client_socket == socket)) [
  | inl hit ↦
      let same : i ≡ j = cc (rw hit at e) in
      let start : j - i ≡ 0 = omega (arith, same) in
      (c, omega (arith, same), rw start refl, (==_iff c.client_socket socket).0 hit)
  | inr miss ↦
      let (d, later, at, is) = find_from_lem socket (i + 1) j cs (rw miss at e) in
      let next : j - i ≡ suc (j - (i + 1)) = omega (arith, later) in
      (d, omega (arith, later), rw next at, is)
]

in_use : {A : Type 0} (xs : List A) (n i : ℕ) (x : A) → get_elem? (take n xs) i ≡ some x → i < n
in_use xs zero i x e = cc
in_use [] (suc n) i x e = cc
in_use (y ∷ xs) (suc n) zero x e = omega arith
in_use (y ∷ xs) (suc n) (suc i) x e = omega (arith, in_use xs n i x e)

find_lem :
    (io : TcpIo) (socket i : ℕ)
    → find io socket ≡ some i
    → (c : Connection) × (get_elem? (contents io.conns) i ≡ some c) × (c.client_socket ≡ socket)
unfolding find
find_lem io socket i e =
    let (c, _, at, is) = find_from_lem socket 0 i (contents io.conns) e in
    let same : i ≡ i - 0 = omega arith in (c, ap (get_elem? (contents io.conns)) same ∙ at, is)

-- With a valid table of eight slots, `tcp_server_result` for a socket that `find` finds removes one
-- connection, which has that socket; the others stay, in some order, and so does the rest of the state.
pub tcp_server_result_lem :
    (close_ok : Bool) (io : TcpIo) (client i : ℕ)
    → Bounded.IsValid max_connections io.conns
    → find io client ≡ some i
    → (c : Connection) × (c.client_socket ≡ client)
      × (conns : StaticVector Connection) × (tcp_server_result close_ok io client
          ≡ some (close_socket close_ok client, record io { conns = conns }))
      × Bounded.IsValid max_connections conns
      × ((p : Connection → Bool) → count p (contents conns) + one p c ≡ count p (contents io.conns))
unfolding tcp_server_result set_elem pop
tcp_server_result_lem close_ok io client i v found =
    let (c, at, is) = find_lem io client i found in
    let used : i < io.conns.cur_size = in_use io.conns.storage io.conns.cur_size i c at in
    let stored : get_elem? io.conns.storage i ≡ some c =
      sym (get_elem?-take io.conns.cur_size i io.conns.storage used) ∙ at in
    let (y, last) =
      get_elem?-lt io.conns.storage (io.conns.cur_size - 1)
        (omega (arith, used, v.capacity, v.within)) in
    let whole : suc (io.conns.cur_size - 1) ≡ io.conns.cur_size = omega (arith, used) in
    (
      c,
      is,
      record { storage = set io.conns.storage i y; cur_size = io.conns.cur_size - 1 },
      rw (
        found,
        back-used max_connections io.conns v (omega (arith, used)),
        pop-used max_connections io.conns v (omega (arith, used)),
        last,
        lt→ltb i (length io.conns.storage) (omega (arith, used, v.capacity, v.within)),
      ),
      record {
        capacity = length-set io.conns.storage i y ∙ v.capacity;
        small = v.small;
        within = omega (arith, v.within);
      },
      λ p.
          replace-last p io.conns.storage (io.conns.cur_size - 1) i c y stored last
            (omega (arith, used))
          ∙ ap (λ k. count p (take k io.conns.storage)) whole,
    )
