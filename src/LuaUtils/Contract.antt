-- ===== src/LuaUtils/Contract.antt =====
-- lua-utils.hpp: what it promises of the two conversions, whatever the interpreter answers.
use things_mqtt_lua.Prelude.{ℕ, List, ◌∷◌}
use things_mqtt_lua.Prelude.Int.{ℤ}
use things_mqtt_lua.Prelude.Effect.{Action, Void}
use things_mqtt_lua.Platform.{Json}
use things_mqtt_lua.JsonValues.{JsonValues}
use things_mqtt_lua.Lua.{Lua, Value, Machine}
use things_mqtt_lua.LuaUtils.{lua_value_to_json, lua_json_to_value}
use things_mqtt_lua.LuaUtils.Balance.{Leaves, lua_value_to_json-balance}
use things_mqtt_lua.LuaUtils.Pushes.{lua_json_to_value-balance}

-- The value at an index is converted and nothing on the stack has changed; "pushes the resulting value
-- onto the Lua stack".
pub record Conversions {C : Type 0} (l : Lua C) (j : Json) : Type 0 where
  pub value_to_json : ℤ → Action (Machine l) j.Value
  pub value_to_json-leaves :
      (i : ℤ) (st : List (Value l.types)) (h : l.Heap)
      → Leaves l st (value_to_json i (record { stack = st; heap = h }))
  pub json_to_value : j.Value → Action (Machine l) Void
  pub json_to_value-pushes :
      (json : j.Value) (st : List (Value l.types)) (h : l.Heap)
      → (x : Value l.types) × Leaves l
          (x ∷ st)
          (json_to_value json (record { stack = st; heap = h }))

abbrev pub conversions :
    {C : Type 0} (l : Lua C) {j : Json} (v : JsonValues j l.Number) (fuel : ℕ) → Conversions l j
conversions l v fuel = record {
  value_to_json = lua_value_to_json l v fuel;
  value_to_json-leaves = lua_value_to_json-balance l v fuel;
  json_to_value = lua_json_to_value l v fuel;
  json_to_value-pushes = lua_json_to_value-balance l v fuel;
}
