-- ===== src/Tests/Queue.antt =====
-- Runs of the theorem on `ThreadSafeQueue`.
use mathlib.Core.Path.{◌≡◌}
use things_mqtt_lua.Prelude.{ℕ, List, [], ◌∷◌, ◌++◌, string_eq}
use things_mqtt_lua.ThreadSafeQueue.{ThreadSafeQueue}
use things_mqtt_lua.ThreadSafeQueue.Fifo.{Call, pushes, pops, serve, serve-fifo}

abbrev two : ThreadSafeQueue ℕ
two = record { m_queue = 1 ∷ 2 ∷ [] }

abbrev some_calls : List (Call ℕ)
some_calls = pops ∷ pushes 3 ∷ pops ∷ pushes 4 ∷ []

serve-fifo_example :
    (serve some_calls two).0 ++ (serve some_calls two).1.m_queue ≡ 1 ∷ 2 ∷ 3 ∷ 4 ∷ []
serve-fifo_example = serve-fifo some_calls two
