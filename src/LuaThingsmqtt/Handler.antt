-- ===== src/LuaThingsmqtt/Handler.antt =====
-- lua-thingsmqtt.cpp: the lambda of `lua_thingsmqtt_add_rpc_handler`, and `lua_push_error_func`.
use things_mqtt_lua.Prelude.{ℕ, List, [], ◌∷◌, String}
use things_mqtt_lua.Prelude.Int.{ℤ}
use things_mqtt_lua.Prelude.Effect.{Action, Void, pure, put, ◌>>=◌, ◌>>◌}
use things_mqtt_lua.Platform.{Json}
use things_mqtt_lua.JsonValues.{JsonValues}
use things_mqtt_lua.Lua.{
  Lua, Value, Machine, push, pop, on_heap, get_field, c_str, drop, first, second, from_top, or_nil,
}
use things_mqtt_lua.LuaUtils.{top, lua_value_to_json, lua_json_to_value}

module _ {C : Type 0} (l : Lua C) where
  -- `lua_remove(L, -2)`
  abbrev pub remove_second : List (Value l.types) → List (Value l.types)
  remove_second [] = []
  remove_second (x ∷ []) = x ∷ []
  remove_second (x ∷ y ∷ st) = x ∷ st

  unfoldable pub push_error_func : Action (Machine l) Void
  push_error_func = do
    debug ← on_heap (l.global "debug")
    push debug
    get_field top "traceback"
    put (λ s. record s { stack = remove_second s.stack })

  -- `lua_pcall(L, 2, 1, 0)`: what is third from the top is called with the two values above it; all
  -- three give way to one value, which is the error if the call raised one.
  unfoldable pub call_with_two : Action (Machine l) Void
  call_with_two s =
      let (result, h) =
        l.protected_call (or_nil (from_top s.stack 2)) (second s.stack ∷ first s.stack ∷ [])
          s.heap in
      push result (record { stack = drop 3 s.stack; heap = h })

  module _ {j : Json} (v : JsonValues j l.Number) (fuel : ℕ) where
    -- The lambda, which holds the reference to the function.
    unfoldable pub rpc_handler : ℤ → String → j.Value → Action (Machine l) j.Value
    unfolding push_error_func call_with_two
    rpc_handler func_ref method params = do
      push_error_func
      push (Value.string (c_str method))
      lua_json_to_value l v fuel params
      call_with_two
      result ← lua_value_to_json l v fuel top
      pop 2
      pure result
