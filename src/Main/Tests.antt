-- ===== src/Main/Tests.antt =====
-- The task without a network in reach.
use pico_modbus_meter.Base.{◌≡◌, refl, true, some, List, [], ◌∷◌, arith}
use pico_modbus_meter.WebServer.Samples.{platform}
use pico_modbus_meter.WifiStorage.Samples.{fresh-IsInOrder}
use pico_modbus_meter.Main.{SearchTask, Actions, search_rounds}
use pico_modbus_meter.Main.Round.{search_rounds-opens}
use pico_modbus_meter.Main.Retry.{NoAttempt, search_rounds-NoAttempt}
use pico_modbus_meter.Main.Samples.{searching, silent}

search_rounds-opens_example :
    (t : SearchTask) × (actions : List Actions) × (search_rounds platform.setup searching
        (silent 3_000_000 ∷ silent 12_000_000 ∷ [])
      ≡ some (t, actions))
    × (t.app.ap.active ≡ true)
search_rounds-opens_example =
    search_rounds-opens platform.setup searching (silent 3_000_000 ∷ []) (silent 12_000_000) []
      fresh-IsInOrder (refl, tt) (omega arith)

-- the rounds at 4.5 and 6 seconds: the fifth second falls between them
search_rounds-NoAttempt_example :
    (t : SearchTask) × (actions : List Actions) × (search_rounds platform.setup searching
        (silent 4_500_000 ∷ silent 6_000_000 ∷ [])
      ≡ some (t, actions))
    × NoAttempt actions
search_rounds-NoAttempt_example =
    search_rounds-NoAttempt platform.setup searching 0 3 (silent 4_500_000 ∷ silent 6_000_000 ∷ [])
      fresh-IsInOrder refl (omega arith) refl (omega arith) (refl, refl, (refl, refl, tt))
