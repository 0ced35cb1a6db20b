-- ===== src/LuaThingsmqtt/Methods.antt =====
-- lua-thingsmqtt.cpp: the C functions. The result is the number of values that are returned, which are
-- the topmost ones of the stack.
use things_mqtt_lua.Prelude.{
  ℕ, ◌+◌, ◌-◌, ◌^◌, Bool, true, false, Option, none, some, List, ◌∷◌, String, length, ◌==◌, nat_eq,
  if◌then◌else◌, ltb,
}
use things_mqtt_lua.Prelude.Int.{ℤ, pos, negsuc, int_of}
use things_mqtt_lua.Prelude.Effect.{
  lua_error, type_error, ok, Action, Void, pure, throw, gets, put, ◌>>=◌, ◌>>◌,
}
use things_mqtt_lua.Lua.{
  Value, Machine, value_at, push, pop, on_heap, set_field, push_table, check_text, check_integer,
  c_str, or_nil, first, second, drop,
}
use things_mqtt_lua.LuaUtils.{top, lua_value_to_json, lua_json_to_value, push_integer}
use things_mqtt_lua.Controller.State
use things_mqtt_lua.Controller.State.{Controller}
use things_mqtt_lua.Controller.Sending
use things_mqtt_lua.Controller.Reactions
use things_mqtt_lua.LuaThingsmqtt.Entries.{
  Entry, Method, RpcMethod, JsonFunction, thingsmqtt_meta, library_methods, thingsmqtt_methods,
}
use things_mqtt_lua.LuaThingsmqtt.Config.{read_config}
use things_mqtt_lua.LuaThingsmqtt.Process.{
  Host, Process, lua_platform, check_controller, on_controller, on_lua, set_controller,
}

-- `STACK_START(f, nargs)` before and `STACK_END(f, nresults)` after print nothing.
unfoldable pub stack_check {ℓ} : {A : Type ℓ} → ℕ → ℕ → List A → List A → Bool
stack_check nargs nresults before after = length after + nargs == length before + nresults

-- `size_t` of an `int`, and `lua_Integer` of a `size_t`
abbrev pub to_size : ℤ → ℕ
to_size (pos n) = n
to_size (negsuc n) = 2 ^ 64 - 1 - n

abbrev pub of_size : ℕ → ℤ
of_size n = if ltb n (2 ^ 63) then pos n else negsuc (2 ^ 64 - 1 - n)

module _ (host : Host) where
  open host use {lua, json_values, fuel}

  abbrev pub push_new_userdata : Action (Machine lua) lua.Userdata
  push_new_userdata s =
      let (u, h) = lua.new_userdata s.heap in
      (ok u, record { stack = Value.userdata u ∷ s.stack; heap = h })

  -- `new Controller()`
  abbrev pub new_controller : Action (Process host) ℕ
  new_controller P = (
    ok P.allocated,
    record P {
      controllers =
          set_controller P.allocated (State.new {p = lua_platform host} (P.world, P.lua))
            P.controllers;
      allocated = P.allocated + 1;
    },
  )

  -- `lua_setmetatable(L, -2)`
  abbrev pub set_metatable_below : Action (Machine lua) Void
  set_metatable_below = put (λ s. record s {
    stack = drop 1 s.stack;
    heap = lua.set_metatable (second s.stack) (first s.stack) s.heap;
  })

  unfoldable pub new : Action (Process host) ℕ
  new = do
    u ← on_lua host push_new_userdata
    address ← new_controller
    on_lua host (put (λ s. record s { heap = lua.set_block u address s.heap }))
    on_lua host (gets (λ s. lua.metatable thingsmqtt_meta s.heap) >>= push)
    on_lua host set_metatable_below
    pure 1

  unfoldable pub connect : Action (Process host) ℕ
  connect = do
    controller ← check_controller host
    config ← on_lua host (read_config lua)
    on_controller host controller (State.connect config)
    pure 0

  unfoldable pub telemetry : Action (Process host) ℕ
  telemetry = do
    controller ← check_controller host
    key ← on_lua host (check_text (pos 2))
    value ← on_lua host (lua_value_to_json lua json_values fuel (pos 3))
    on_controller host controller (put (Sending.publish_telemetry (c_str key) value))
    on_lua host (pop 3)
    pure 0

  unfoldable pub set_attribute : Action (Process host) ℕ
  set_attribute = do
    controller ← check_controller host
    key ← on_lua host (check_text (pos 2))
    value ← on_lua host (lua_value_to_json lua json_values fuel (pos 3))
    on_controller host controller (put (Sending.set_attribute (c_str key) value))
    on_lua host (pop 3)
    pure 0

  unfoldable pub send : Action (Process host) ℕ
  send = do
    controller ← check_controller host
    on_lua host (pop 1)
    on_controller host controller Sending.send
    pure 0

  unfoldable pub loop : Action (Process host) ℕ
  loop = do
    controller ← check_controller host
    on_lua host (pop 1)
    on_controller host controller Reactions.loop
    pure 0

  unfoldable pub is_connected : Action (Process host) ℕ
  is_connected = do
    controller ← check_controller host
    on_lua host (pop 1)
    connected ← on_controller host controller (gets State.is_connected)
    on_lua host (push (Value.boolean connected))
    pure 1

  -- `lua_isfunction`
  abbrev pub is_function : Option (Value lua.types) → Bool
  is_function (some (Value.function f)) = true
  is_function _ = false

  -- `luaL_ref` of the value at the top, which is popped
  abbrev pub ref_top : Action (Machine lua) ℤ
  ref_top s =
      let (func_ref, h) = lua.ref (first s.stack) s.heap in
      (ok func_ref, record { stack = drop 1 s.stack; heap = h })

  -- `controller->addRpcHandler(handler)`
  abbrev pub add_handler : ℕ → ℤ → Action (Process host) ℕ
  add_handler controller handler P =
      let (id, next_id, c) =
        Reactions.add_rpc_handler {p = lua_platform host} handler
          (P.next_id, P.controllers controller) in
      (
        ok id,
        record P { controllers = set_controller controller c P.controllers; next_id = next_id },
      )

  -- `lua_thingsmqtt_add_rpc_handler` once the function is known to be one
  unfoldable pub register_handler : ℕ → Option (Value lua.types) → Action (Process host) ℕ
  register_handler controller f = do
    on_lua host (push (or_nil f))
    func_ref ← on_lua host ref_top
    handler_id ← add_handler controller func_ref
    on_lua host (push_integer lua json_values (of_size handler_id))
    pure 1

  -- `lua_thingsmqtt_add_rpc_handler` once the controller is known
  unfoldable pub add_rpc_handler_to : ℕ → Action (Process host) ℕ
  unfolding register_handler
  add_rpc_handler_to controller = do
    on_lua host (pop 1)
    f ← on_lua host (value_at (pos 2))
    if is_function f then register_handler controller f else throw (lua_error "Expected a function")

  unfoldable pub add_rpc_handler : Action (Process host) ℕ
  unfolding add_rpc_handler_to
  add_rpc_handler = check_controller host >>= add_rpc_handler_to

  -- `controller->removeRpcHandler(handler_id)`
  abbrev pub remove_handler : ℕ → ℕ → Action (Process host) Bool
  remove_handler controller handler_id P =
      let (found, c) =
        Reactions.remove_rpc_handler {p = lua_platform host} handler_id
          (P.controllers controller) in
      (ok found, record P { controllers = set_controller controller c P.controllers })

  -- `lua_thingsmqtt_remove_rpc_handler` once the controller is known
  unfoldable pub remove_rpc_handler_from : ℕ → Action (Process host) ℕ
  remove_rpc_handler_from controller = do
    on_lua host (pop 1)
    handler_id ← on_lua host (check_integer (pos 2))
    found ← remove_handler controller (to_size (int_of handler_id))
    on_lua host (push (Value.boolean found))
    pure 1

  unfoldable pub remove_rpc_handler : Action (Process host) ℕ
  unfolding remove_rpc_handler_from
  remove_rpc_handler = check_controller host >>= remove_rpc_handler_from

  abbrev pub dump_or_throw : Option String → Action (Machine lua) String
  dump_or_throw none = throw type_error
  dump_or_throw (some s) = pure s

  unfoldable pub json_stringify : Action (Process host) ℕ
  json_stringify = on_lua host do
    json ← lua_value_to_json lua json_values fuel (pos 1)
    json_str ← dump_or_throw (host.platform.json.dump json)
    pop 1
    push (Value.string (c_str json_str))
    pure 1

  -- what is pushed for the parsed text; `none` is the discarded value
  abbrev pub push_parsed : Option host.platform.Value → Action (Machine lua) Void
  push_parsed none = pop 1 >> push Value.nil
  push_parsed (some json) = pop 1 >> lua_json_to_value lua json_values fuel json

  unfoldable pub json_parse : Action (Process host) ℕ
  json_parse = on_lua host do
    json_str ← check_text (pos 1)
    push_parsed (host.platform.json.parse (c_str json_str))
    pure 1

  -- the metatable at the top is filled if it was made just now
  abbrev pub fill_metatable : Bool → Action (Machine lua) Void
  fill_metatable false = pop 1
  fill_metatable true = do
    metatable ← value_at top
    on_heap (lua.register (or_nil metatable) thingsmqtt_methods)
    set_field top "__index"

  abbrev pub push_new_metatable : Action (Machine lua) Bool
  push_new_metatable s =
      let ((made, metatable), h) = lua.new_metatable thingsmqtt_meta s.heap in
      (ok made, record { stack = metatable ∷ s.stack; heap = h })

  unfoldable pub luaopen_thingsmqtt : Action (Machine lua) ℕ
  luaopen_thingsmqtt = do
    pop 1
    made ← push_new_metatable
    fill_metatable made
    push_table
    library ← value_at top
    on_heap (lua.register (or_nil library) library_methods)
    pure 1

  -- The function that the library exports, called by the interpreter.
  abbrev pub open_library : Action (Process host) ℕ
  open_library = on_lua host luaopen_thingsmqtt

  -- The functions that the entries name.
  unfoldable pub run_method : Method → Action (Process host) ℕ
  run_method Method.connect = connect
  run_method Method.telemetry = telemetry
  run_method Method.set_attribute = set_attribute
  run_method Method.send = send
  run_method Method.loop = loop
  run_method Method.is_connected = is_connected

  unfoldable pub run_rpc_method : RpcMethod → Action (Process host) ℕ
  run_rpc_method RpcMethod.add_rpc_handler = add_rpc_handler
  run_rpc_method RpcMethod.remove_rpc_handler = remove_rpc_handler

  unfoldable pub run_json_function : JsonFunction → Action (Process host) ℕ
  run_json_function JsonFunction.json_stringify = json_stringify
  run_json_function JsonFunction.json_parse = json_parse

  unfoldable pub run : Entry → Action (Process host) ℕ
  unfolding run_method run_rpc_method run_json_function
  run Entry.new = new
  run (Entry.method f) = run_method f
  run (Entry.rpc_method f) = run_rpc_method f
  run (Entry.json_function f) = run_json_function f
