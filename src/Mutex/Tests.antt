-- ===== src/Mutex/Tests.antt =====
-- A semaphore that is a flag, and two tasks.
use pico_modbus_meter.Base.{ℕ, ◌≡◌, refl, Bool, true, false, Option, none, some}
use pico_modbus_meter.Mutex.{
  Semaphore, System, Reach, here, next, enter_scope, scoped, start, move, scoped_lock, init,
}
use pico_modbus_meter.Mutex.Exclusion.{mutual_exclusion}

abbrev take_flag : Bool → Option Bool
take_flag true = some false
take_flag false = none

take_flag-take : (s t : Bool) → take_flag s ≡ some t → take_flag t ≡ none
take_flag-take true t h = let same : t ≡ false = cc in rw same refl
take_flag-take false t h = cc

abbrev flag : Semaphore
flag = record { State = Bool; take = take_flag; give = λ s. true; take-take = take_flag-take }

-- task 4 in the scope of a guard
abbrev busy : System flag
busy = move flag (start flag (some false)) 4 (record { handle = some false }) (scoped true)

busy-Reach : Reach flag (some false) busy
unfolding scoped_lock init
busy-Reach = next here (enter_scope 4 (record { handle = some false }) true refl refl)

mutual_exclusion_example : ◌≡◌ {A = ℕ} 4 4
mutual_exclusion_example = mutual_exclusion flag false {s = busy} busy-Reach 4 4 refl refl
