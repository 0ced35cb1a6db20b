-- ===== src/LuaThingsmqtt/Scripts.antt =====
-- lua-thingsmqtt.cpp: any calls that scripts make of the module, and what they keep of the controllers.
use things_mqtt_lua.Prelude.{List, [], ◌∷◌, nat_eq}
use things_mqtt_lua.Prelude.Effect.{}
use things_mqtt_lua.Lua.{Value, Machine}
use things_mqtt_lua.Controller.Changed.{}
use things_mqtt_lua.Controller.Stability.{}
use things_mqtt_lua.LuaThingsmqtt.Entries.{Entry}
use things_mqtt_lua.LuaThingsmqtt.Process.{Host, Process}
use things_mqtt_lua.LuaThingsmqtt.Methods.{run}
use things_mqtt_lua.LuaThingsmqtt.Publishing.{called}
use things_mqtt_lua.LuaThingsmqtt.WellFormed.{AllWellFormed, run-Keeps}

-- A script calls a C function with these arguments, the last one first; or the interpreter runs other code,
-- which sees nothing of the controllers.
pub data Deed (host : Host) : Type 0 where
  calls : Entry → List (Value host.lua.types) → Deed host
  works : (Machine host.lua → Machine host.lua) → Deed host

module _ (host : Host) where
  abbrev pub perform : Deed host → Process host → Process host
  perform (calls e arguments) P = (run host e (called host arguments P)).1
  perform (works f) P = record P { lua = f P.lua }

  abbrev pub perform_all : List (Deed host) → Process host → Process host
  perform_all [] P = P
  perform_all (d ∷ ds) P = perform_all ds (perform d P)

  -- After any calls of the C functions by scripts, with any arguments and whether they return or throw, and
  -- any other work of the interpreter between them: if there was a well-formed controller at every address
  -- at the start, then there is one at every address.
  pub perform_all-AllWellFormed :
      (ds : List (Deed host)) (P : Process host)
      → AllWellFormed host P
      → AllWellFormed host (perform_all ds P)
  perform_all-AllWellFormed [] P all = all
  perform_all-AllWellFormed (calls e arguments ∷ ds) P all =
      perform_all-AllWellFormed ds _ (run-Keeps host e (called host arguments P) all)
  perform_all-AllWellFormed (works f ∷ ds) P all = perform_all-AllWellFormed ds _ all
