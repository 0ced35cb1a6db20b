-- ===== src/LuaThingsmqtt/Handlers.antt =====
-- lua-thingsmqtt.cpp: `add_rpc_handler` and `remove_rpc_handler` as the documentation calls them, and
-- what a registered handler does.
use things_mqtt_lua.Prelude.{ℕ, suc, ◌≡◌, ◌∙◌, arith, some, List, [], ◌∷◌, String}
use things_mqtt_lua.Prelude.Int.{ℤ, pos}
use things_mqtt_lua.Prelude.Effect.{
  bad_argument, lua_error, ok, raised, Action, pure, ◌>>=◌, ◌>>◌, >>=-ok, >>-ok,
}
use things_mqtt_lua.Platform.{Json}
use things_mqtt_lua.JsonValues.{JsonValues}
use things_mqtt_lua.Lua.{Lua, Value, Machine, c_str, push, pop, drop}
use things_mqtt_lua.LuaUtils.{lua_value_to_json, lua_json_to_value, top}
use things_mqtt_lua.LuaUtils.Tables.{IsScalar, scalar, lua_value_to_json-scalar}
use things_mqtt_lua.LuaThingsmqtt.Handler.{rpc_handler, push_error_func, call_with_two}
use things_mqtt_lua.LuaThingsmqtt.Process.{Host, Process, check_controller, address_in}
use things_mqtt_lua.LuaThingsmqtt.Methods.{
  add_rpc_handler, remove_rpc_handler, add_rpc_handler_to, remove_rpc_handler_from,
}
use things_mqtt_lua.LuaThingsmqtt.Publishing.{called, check_controller-ok}

module _ (host : Host) where
  open host use {lua}

  -- As the documentation calls them, `object:add_rpc_handler(f)` and `object:remove_rpc_handler(x)` always
  -- raise an error, whatever `x` is, and change nothing but the stack: the first that it expected a
  -- function, the second that a number is missing.
  pub handler_calls_raise :
      (a : ℕ) (u : lua.Userdata) (f : lua.Function) (x : Value lua.types) (P : Process host)
      → address_in host (some (Value.userdata u)) P.lua.heap ≡ some a
      → let after = called host (Value.userdata u ∷ []) P in
        (add_rpc_handler host (called host (Value.function f ∷ Value.userdata u ∷ []) P)
          ≡ (raised (lua_error "Expected a function"), after))
        × (remove_rpc_handler host (called host (x ∷ Value.userdata u ∷ []) P)
            ≡ (raised (bad_argument (pos 2) "number"), after))
  unfolding add_rpc_handler remove_rpc_handler
  handler_calls_raise a u f x P here =
      let added = called host (Value.function f ∷ Value.userdata u ∷ []) P in
      let removed = called host (x ∷ Value.userdata u ∷ []) P in
      (
        >>=-ok (check_controller host) added added (add_rpc_handler_to host)
            (check_controller-ok host a added here),
        >>=-ok (check_controller host) removed removed (remove_rpc_handler_from host)
            (check_controller-ok host a removed here),
      )

module _ {C : Type 0} (l : Lua C) {j : Json} (v : JsonValues j l.Number) where
  abbrev on_stack : List (Value l.types) → l.Heap → Machine l
  on_stack st h = record { stack = st; heap = h }

  push_error_func-ok :
      (st : List (Value l.types)) (h : l.Heap) (debug traceback : Value l.types)
      → l.global "debug" h ≡ (ok debug, h)
      → l.index debug (Value.string "traceback") h ≡ (ok traceback, h)
      → push_error_func l (on_stack st h) ≡ (ok tt, on_stack (traceback ∷ st) h)
  unfolding push_error_func
  push_error_func-ok st h debug traceback got_debug got_traceback =
      ground (arith, got_debug, got_traceback)

  -- A handler registered from a script, called in the middle of a `loop` whose stack is `st`. The value
  -- that it calls, with the method and the parameters, is `debug.traceback`; the registered function
  -- plays no part. If the call gives a value that is no table, the handler returns the JSON of that
  -- value, and has popped one value of `st` as well.
  pub rpc_handler_calls_traceback :
      (fuel : ℕ) (func_ref : ℤ) (method : String) (params : j.Value) (st : List (Value l.types))
      (h h' : l.Heap) (debug traceback x : Value l.types)
      → l.global "debug" h ≡ (ok debug, h)
      → l.index debug (Value.string "traceback") h ≡ (ok traceback, h)
      → let name : Value l.types = Value.string (c_str method) in
        lua_json_to_value l v (suc fuel) params (record { stack = name ∷ traceback ∷ st; heap = h })
          ≡ (ok tt, record { stack = x ∷ name ∷ traceback ∷ st; heap = h' })
        → let (result, h'') = l.protected_call traceback (name ∷ x ∷ []) h' in
          IsScalar l result
          → rpc_handler l v (suc fuel) func_ref method params (record { stack = st; heap = h })
            ≡ (ok (scalar l v result), record { stack = drop 1 st; heap = h'' })
  unfolding rpc_handler call_with_two
  rpc_handler_calls_traceback fuel func_ref method params st h h' debug traceback x got_debug
        got_traceback pushed plain =
      let name : Value l.types = Value.string (c_str method) in
      let (result, h'') = l.protected_call traceback (name ∷ x ∷ []) h' in
      let finish : Action (Machine l) j.Value =
        lua_value_to_json l v (suc fuel) top >>= λ json. pop 2 >> pure json in
      let called = on_stack (result ∷ st) h'' in
      >>-ok (push_error_func l) (on_stack st h) (on_stack (traceback ∷ st) h)
        (push name >> (lua_json_to_value l v (suc fuel) params >> (call_with_two l >> finish)))
        (push_error_func-ok st h debug traceback got_debug got_traceback)
      ∙ >>-ok (lua_json_to_value l v (suc fuel) params) (on_stack (name ∷ traceback ∷ st) h)
          (on_stack (x ∷ name ∷ traceback ∷ st) h') (call_with_two l >> finish) pushed
      ∙ >>=-ok (lua_value_to_json l v (suc fuel) top) called called (λ json. pop 2 >> pure json)
          (lua_value_to_json-scalar l v fuel result st h'' plain)
