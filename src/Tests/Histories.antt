-- ===== src/Tests/Histories.antt =====
-- Runs of the theorems on histories of a controller.
use things_mqtt_lua.Prelude.{some, List, [], ◌∷◌, arith, string_eq}
use things_mqtt_lua.Tests.Library.{small_platform, number}
use things_mqtt_lua.Controller.State.{new, default_config}
use things_mqtt_lua.Controller.Changed.{IsWellFormed}
use things_mqtt_lua.Controller.Rpc.{AllBelow}
use things_mqtt_lua.Controller.History.{
  Op, publishes, sends, connects, loops, adds, removes, apply_all, history-IsWellFormed,
}
use things_mqtt_lua.Controller.Identifiers.{history_ids}

abbrev session : List (Op small_platform)
session =
    adds "h"
    ∷ publishes "t" (number 21)
    ∷ connects (record default_config { host = some "localhost" })
    ∷ loops
    ∷ sends
    ∷ adds "g"
    ∷ removes 1
    ∷ []

history-IsWellFormed_example :
    IsWellFormed small_platform
      (apply_all small_platform session (1, new {p = small_platform} [])).1
history-IsWellFormed_example = history-IsWellFormed small_platform session []

history_ids_example :
    let (next_id, c) = apply_all small_platform session (1, new {p = small_platform} []) in
    AllBelow small_platform next_id c.m_rpc_handlers
history_ids_example = history_ids small_platform session [] (omega arith)
