-- ===== src/DhcpServer/Overrun.antt =====
-- Where `opt_find` stops: it ends, what it finds is there, and when it reads past the message.
use pico_modbus_meter.Base.{
  ℕ, zero, suc, ◌+◌, ◌≤◌, ◌<◌, ◌≡◌, ◌≢◌, some, List, length, get_or, arith, dec_lt, ℕ_discrete,
  lt→ltb, le→ltb, ne→==, ==_iff,
}
use pico_modbus_meter.Base.Memory.{load, load-ok, load-none}
use pico_modbus_meter.DhcpServer.Options.{
  Found, found, not_found, overrun, opt_find_from, opt_find, opt_end,
}

-- An option that is found stands in the option area and has the code.
abbrev pub IsAt : List ℕ → ℕ → ℕ → Found → Type 0
IsAt msg base cmd (found i) = (i < 308) × (get_or msg (base + i) 0 ≡ cmd)
IsAt msg base cmd not_found = Unit {0}
IsAt msg base cmd overrun = length msg ≤ base + 308

opt_find_from_byte :
    (fuel : ℕ) (msg : List ℕ) (base cmd i : ℕ)
    → i < 308
    → base + i < length msg
    → ((len : ℕ)
        → (r : Found) × (opt_find_from fuel msg base cmd (i + (2 + len)) ≡ some r)
          × IsAt msg base cmd r)
    → (r : Found) × (opt_find_from (suc fuel) msg base cmd i ≡ some r) × IsAt msg base cmd r
unfolding opt_find_from
opt_find_from_byte fuel msg base cmd i inside first rest =
    let read : load msg (base + i) ≡ some (get_or msg (base + i) 0) =
      load-ok msg (base + i) first in
    elim (ℕ_discrete (get_or msg (base + i) 0) opt_end) [
      | yes stop ↦ (
        not_found,
        rw (lt→ltb i 308 inside, read, (==_iff (get_or msg (base + i) 0) opt_end).1 stop),
        tt,
      )
      | no more ↦ elim (ℕ_discrete (get_or msg (base + i) 0) cmd) [
        | yes hit ↦ (
          found i,
          rw (
            lt→ltb i 308 inside,
            read,
            ne→== (get_or msg (base + i) 0) opt_end more,
            (==_iff (get_or msg (base + i) 0) cmd).1 hit,
          ),
          (inside, hit),
        )
        | no miss ↦ elim (dec_lt (base + (i + 1)) (length msg)) [
          | no out ↦ (
            overrun,
            rw (
              lt→ltb i 308 inside,
              read,
              ne→== (get_or msg (base + i) 0) opt_end more,
              ne→== (get_or msg (base + i) 0) cmd miss,
              load-none msg (base + (i + 1)) (omega arith),
            ),
            omega arith,
          )
          | yes second ↦
              let (r, e, at) = rest (get_or msg (base + (i + 1)) 0) in
              (
                r,
                rw
                    (
                      lt→ltb i 308 inside,
                      read,
                      ne→== (get_or msg (base + i) 0) opt_end more,
                      ne→== (get_or msg (base + i) 0) cmd miss,
                      load-ok msg (base + (i + 1)) second,
                    )
                    e,
                at,
              )
        ]
      ]
    ]

opt_find_from_total :
    (fuel : ℕ) (msg : List ℕ) (base cmd i : ℕ)
    → 308 < fuel + i
    → 0 < fuel
    → (r : Found) × (opt_find_from fuel msg base cmd i ≡ some r) × IsAt msg base cmd r
unfolding opt_find_from
opt_find_from_total zero msg base cmd i h z = absurd (omega arith)
opt_find_from_total (suc fuel) msg base cmd i h z = elim (dec_lt i 308) [
  | no past ↦ (not_found, rw (le→ltb i 308 (omega arith)), tt)
  | yes inside ↦ elim (dec_lt (base + i) (length msg)) [
    | no out ↦
        (overrun, rw (lt→ltb i 308 inside, load-none msg (base + i) (omega arith)), omega arith)
    | yes first ↦
        opt_find_from_byte fuel msg base cmd i inside first
          (λ len. opt_find_from_total fuel msg base cmd (i + (2 + len)) (omega arith) (omega arith))
  ]
]

-- `opt_find` ends. What it finds is an option with the code, inside the option area; it reads
-- outside a message only if that holds at most 308 bytes of options.
pub opt_find_total :
    (msg : List ℕ) (base cmd : ℕ)
    → (r : Found) × (opt_find msg base cmd ≡ some r) × IsAt msg base cmd r
unfolding opt_find
opt_find_total msg base cmd = opt_find_from_total 309 msg base cmd 0 (omega arith) (omega arith)

-- The options chain from offset `i` to offset `j`: each is read whole, and none is the one that is
-- searched or the end.
pub data Chain (msg : List ℕ) (base cmd j : ℕ) : ℕ → Type 0 where
  here : Chain msg base cmd j j
  skip :
      {i : ℕ}
      → i < 307
      → get_or msg (base + i) 0 ≢ cmd
      → get_or msg (base + i) 0 ≢ opt_end
      → Chain msg base cmd j (i + (2 + get_or msg (base + (i + 1)) 0))
      → Chain msg base cmd j i

overrun_from :
    (fuel : ℕ) (msg : List ℕ) (base cmd : ℕ) {i : ℕ}
    → length msg ≡ base + 308
    → 307 < fuel + i
    → get_or msg (base + 307) 0 ≢ cmd
    → get_or msg (base + 307) 0 ≢ opt_end
    → Chain msg base cmd 307 i
    → opt_find_from fuel msg base cmd i ≡ some overrun
unfolding opt_find_from
overrun_from zero msg base cmd whole f other more here = absurd (omega arith)
overrun_from zero msg base cmd whole f other more (skip l a b c) = absurd (omega arith)
overrun_from (suc fuel) msg base cmd whole f other more here = rw (
  load-ok msg (base + 307) (omega arith),
  ne→== (get_or msg (base + 307) 0) opt_end more,
  ne→== (get_or msg (base + 307) 0) cmd other,
  load-none msg (base + 308) (omega arith),
)
overrun_from (suc fuel) msg base cmd whole f other more (skip {i = i} l a b c) =
    rw
      (
        lt→ltb i 308 (omega arith),
        load-ok msg (base + i) (omega arith),
        ne→== (get_or msg (base + i) 0) opt_end b,
        ne→== (get_or msg (base + i) 0) cmd a,
        load-ok msg (base + (i + 1)) (omega arith),
      )
      (overrun_from fuel msg base cmd whole (omega arith) other more c)

-- In a message of the full size whose last byte is neither the code that is searched nor the end mark, a chain of options, none
-- of them the one that is searched or the end mark, that lands on this byte makes `opt_find` read the byte behind the
-- message.
pub opt_find-overrun :
    (msg : List ℕ) (base cmd : ℕ)
    → length msg ≡ base + 308
    → get_or msg (base + 307) 0 ≢ cmd
    → get_or msg (base + 307) 0 ≢ opt_end
    → Chain msg base cmd 307 0
    → opt_find msg base cmd ≡ some overrun
unfolding opt_find
opt_find-overrun msg base cmd whole other more c =
    overrun_from 309 msg base cmd whole (omega arith) other more c
