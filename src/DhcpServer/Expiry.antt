-- ===== src/DhcpServer/Expiry.antt =====
-- How long a lease lasts, in the 16 bits that are kept of its end.
use pico_modbus_meter.Base.{ℕ, ◌+◌, ◌^◌, ◌≤◌, ◌<◌, ◌≡◌, true, false, arith}
use pico_modbus_meter.DhcpServer.{is_expired, new_expiry}

-- A lease granted at `now` is not expired at any time of the next 24 hours.
pub is_expired-fresh :
    (now later : ℕ)
    → now ≤ later
    → later ≤ now + 86_400_000
    → now + 86_400_000 < 2 ^ 64
    → is_expired (new_expiry now) later ≡ false
unfolding is_expired new_expiry
is_expired-fresh now later a b c = ground arith

-- From 65536 ms after the 24 hours on, a lease granted at `now` is expired, as long as less than
-- 2 ^ 31 ms have passed since they ended.
pub is_expired-old :
    (now later : ℕ)
    → now + 86_400_000 + 65_536 ≤ later
    → later < now + 86_400_000 + 2 ^ 31
    → later < 2 ^ 64
    → is_expired (new_expiry now) later ≡ true
unfolding is_expired new_expiry
is_expired-old now later a b c = ground arith

-- The expiry test gives the same answer 2 ^ 32 ms later, so an expired lease that stays in the
-- table counts as running again.
pub is_expired-periodic :
    (expiry now : ℕ)
    → expiry < 2 ^ 16
    → now + 2 ^ 32 < 2 ^ 64
    → is_expired expiry (now + 2 ^ 32) ≡ is_expired expiry now
unfolding is_expired
is_expired-periodic expiry now h k = ground arith
