-- ===== src/Tests/Values.antt =====
-- Runs of the theorems on the conversions between Lua values and JSON.
use things_mqtt_lua.Prelude.{◌≡◌, refl, List, [], ◌∷◌, arith}
use things_mqtt_lua.Prelude.Int.{pos, negsuc, int_of}
use things_mqtt_lua.Prelude.Effect.{ok, raised, lua_error, ◌>>=◌}
use things_mqtt_lua.Lua.{Value, Machine}
use things_mqtt_lua.LuaUtils.{lua_value_to_json, lua_json_to_value, top}
use things_mqtt_lua.LuaUtils.Flat.{flat_object}
use things_mqtt_lua.LuaUtils.Listed.{listed_array}
use things_mqtt_lua.LuaUtils.Nested.{nested_table_raises}
use things_mqtt_lua.LuaUtils.Depth.{Ends, lua_json_to_value-Ends}
use things_mqtt_lua.LuaUtils.Scalars.{scalar_there_and_back, scalar_roundtrip}
use things_mqtt_lua.Tests.Interpreter.{
  Val, small_lua, small_tables, tree_values, tree_views, tree_heights, no_entry, entry, str,
  antenna, nested, row, int, element, no_element,
}

abbrev holding : List Val → Machine small_lua
holding st = record { stack = st; heap = [] }

flat_object_example :
    lua_value_to_json small_lua tree_values 4 (pos 1) (holding (Value.table antenna ∷ []))
    ≡ (ok (entry "name" (str "dipole") no_entry), holding (Value.table antenna ∷ []))
flat_object_example =
    flat_object small_lua tree_values small_tables 1 antenna (Value.table antenna ∷ []) [] 3
      (("name", Value.string "dipole") ∷ []) (omega arith, refl) tt refl refl (tt, tt) (omega arith)

nested_table_raises_example :
    (lua_value_to_json small_lua tree_values 4 (pos 1) (holding (Value.table nested ∷ []))).0
    ≡ raised (lua_error "attempt to index")
nested_table_raises_example =
    nested_table_raises small_lua tree_values (lua_error "attempt to index") small_tables 1 nested
      (Value.table nested ∷ []) [] 3 [] "inner" antenna [] refl (omega arith, refl) tt refl refl tt
      (omega arith)

lua_json_to_value-Ends_example :
    Ends (
      lua_json_to_value small_lua tree_values 2 (entry "name" (str "dipole") no_entry) (holding []))
lua_json_to_value-Ends_example =
    lua_json_to_value-Ends small_lua (λ t k x h. tt) tree_values tree_heights 2
      (entry "name" (str "dipole") no_entry) (holding []) (omega arith)

-- 2³² + 5 comes back as 5.
scalar_there_and_back_example :
    (lua_value_to_json small_lua tree_values 1 top >>= lua_json_to_value small_lua tree_values 1)
      (holding (Value.number (pos 4294967301) ∷ []))
    ≡ (ok tt, holding (Value.number (pos 5) ∷ Value.number (pos 4294967301) ∷ []))
unfolding int_of
scalar_there_and_back_example =
    scalar_there_and_back small_lua tree_values tree_views 0 (Value.number (pos 4294967301)) [] []
      tt

scalar_roundtrip_example :
    (lua_value_to_json small_lua tree_values 1 top >>= lua_json_to_value small_lua tree_values 1)
      (holding (Value.number (negsuc 6) ∷ []))
    ≡ (ok tt, holding (Value.number (negsuc 6) ∷ Value.number (negsuc 6) ∷ []))
scalar_roundtrip_example =
    scalar_roundtrip small_lua tree_values tree_views 0 (Value.number (negsuc 6)) [] []
      (omega arith, refl)

listed_array_example :
    lua_value_to_json small_lua tree_values 4 (pos 1) (holding (Value.table row ∷ []))
    ≡ (ok (element (int (pos 8)) no_element), holding (Value.table row ∷ []))
listed_array_example =
    listed_array small_lua tree_values small_tables 1 row (Value.table row ∷ []) [] 3
      ((Value.number (pos 1), Value.number (pos 8)) ∷ []) (omega arith, refl) tt refl refl
      (tt, tt, tt) (omega arith)
