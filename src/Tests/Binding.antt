-- ===== src/Tests/Binding.antt =====
-- Runs of the theorems on the C functions of the Lua module.
use things_mqtt_lua.Prelude.{◌≡◌, refl, true, some, List, [], ◌∷◌, arith}
use things_mqtt_lua.Prelude.Int.{pos, int_of}
use things_mqtt_lua.Prelude.Effect.{ok, raised, lua_error, bad_argument, pure, ◌>>◌}
use things_mqtt_lua.Lua.{Value, Machine}
use things_mqtt_lua.LuaUtils.{lua_json_to_value}
use things_mqtt_lua.Controller.State
use things_mqtt_lua.Controller.Sending
use things_mqtt_lua.LuaThingsmqtt.Entries.{Entry, JsonFunction, Method, RpcMethod}
use things_mqtt_lua.LuaThingsmqtt.WellFormed.{AllWellFormed}
use things_mqtt_lua.LuaThingsmqtt.Scripts.{
  Deed, calls, works, perform_all, perform_all-AllWellFormed,
}
use things_mqtt_lua.Controller.Stability.{new-IsWellFormed}
use things_mqtt_lua.LuaThingsmqtt.Handler.{rpc_handler}
use things_mqtt_lua.LuaThingsmqtt.Process.{Process, lua_platform, controller_at, on_controller}
use things_mqtt_lua.LuaThingsmqtt.Methods.{
  run, telemetry, connect, add_rpc_handler, remove_rpc_handler,
}
use things_mqtt_lua.LuaThingsmqtt.Publishing.{called, key_and_value, Assigns, telemetry_flat}
use things_mqtt_lua.LuaThingsmqtt.Handlers.{handler_calls_raise, rpc_handler_calls_traceback}
use things_mqtt_lua.LuaThingsmqtt.Configuration.{connect_reads}
use things_mqtt_lua.LuaThingsmqtt.Stack.{Balances, run-stack_check}
use things_mqtt_lua.Tests.Interpreter.{
  Val, small_host, small_lua, small_tables, find_field, fields, tree_values, no_entry, entry, str,
  int, antenna, config, debug,
}

abbrev empty_machine : Machine small_lua
empty_machine = record { stack = []; heap = [] }

abbrev started : Process small_host
started = record {
  lua = empty_machine;
  world = [];
  controllers = λ a. State.new {p = lua_platform small_host} ([], empty_machine);
  allocated = 8;
  next_id = 0;
}

telemetry_flat_example :
    let Q = called small_host (key_and_value small_host 7 "mast" (Value.table antenna)) started in
    Assigns small_host 7
      (Sending.publish_telemetry "mast"
        (entry "name" (str "dipole") no_entry)
        (controller_at small_host 7 Q))
      started
      (telemetry small_host Q)
telemetry_flat_example =
    telemetry_flat small_host small_tables 7 7 "mast" antenna (("name", Value.string "dipole") ∷ [])
      started refl tt refl refl (tt, tt) (omega arith)

abbrev broker_config : State.ControllerConfig
broker_config = record (State.default_config) { host = some "broker" }

connect_reads_example :
    connect small_host (called small_host (Value.table config ∷ Value.userdata 7 ∷ []) started)
    ≡ (on_controller small_host 7 (State.connect broker_config) >> pure 0)
        (called small_host [] started)
connect_reads_example =
    connect_reads small_host 7 7 config (λ name. find_field name (fields config))
      (λ t name. find_field name (fields t)) started refl (λ name. refl) (λ s e name. refl)

handler_calls_raise_example :
    let after = called small_host (Value.userdata 7 ∷ []) started in
    (add_rpc_handler small_host
        (called small_host (Value.function "reboot" ∷ Value.userdata 7 ∷ []) started)
      ≡ (raised (lua_error "Expected a function"), after))
    × (remove_rpc_handler small_host
          (called small_host (Value.number (pos 0) ∷ Value.userdata 7 ∷ []) started)
        ≡ (raised (bad_argument (pos 2) "number"), after))
handler_calls_raise_example =
    handler_calls_raise small_host 7 7 "reboot" (Value.number (pos 0)) started refl

-- What the stack held below the call has lost its topmost value.
rpc_handler_calls_traceback_example :
    rpc_handler small_lua tree_values 2
      (pos 1)
      "reboot"
      (int (pos 5))
      (record { stack = Value.boolean true ∷ Value.nil ∷ []; heap = [] })
    ≡ (ok (str "stack traceback:"), record { stack = Value.nil ∷ []; heap = "traceback" ∷ [] })
unfolding lua_json_to_value int_of
rpc_handler_calls_traceback_example =
    rpc_handler_calls_traceback small_lua tree_values 1 (pos 1) "reboot" (int (pos 5))
      (Value.boolean true ∷ Value.nil ∷ []) [] [] (Value.table debug) (Value.function "traceback")
      (Value.number (pos 5)) refl refl refl tt

run-stack_check_example :
    let st : List Val = Value.string "[1]" ∷ [] in
    Balances small_host 1 1 st
      (run small_host (Entry.json_function JsonFunction.json_parse) (called small_host st started))
run-stack_check_example =
    run-stack_check small_host (Entry.json_function JsonFunction.json_parse)
      (Value.string "[1]" ∷ []) started tt refl

-- A script makes an object, writes and sends through it, and calls a function with arguments that are none.
abbrev script : List (Deed small_host)
script =
    calls Entry.new []
    ∷ calls (Entry.method Method.telemetry)
        (key_and_value small_host 7 "mast" (Value.table antenna))
    ∷ works (λ s. record s { stack = [] })
    ∷ calls (Entry.method Method.send) (Value.userdata 7 ∷ [])
    ∷ calls (Entry.rpc_method RpcMethod.add_rpc_handler) []
    ∷ []

started-AllWellFormed : AllWellFormed small_host started
started-AllWellFormed a = new-IsWellFormed (lua_platform small_host) ([], empty_machine)

perform_all-AllWellFormed_example : AllWellFormed small_host (perform_all small_host script started)
perform_all-AllWellFormed_example =
    perform_all-AllWellFormed small_host script started started-AllWellFormed
