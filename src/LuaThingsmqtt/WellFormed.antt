-- ===== src/LuaThingsmqtt/WellFormed.antt =====
-- lua-thingsmqtt.cpp: every C function keeps all controllers of the process well-formed.
use things_mqtt_lua.Prelude.{ℕ, Bool, true, false, Option, String, ◌==◌, if◌then◌else◌, nat_eq}
use things_mqtt_lua.Prelude.Int.{ℤ, pos, int_of}
use things_mqtt_lua.Prelude.Dict.{Dict}
use things_mqtt_lua.Prelude.Effect.{
  Action, pure, throw, gets, put, ◌>>=◌, ◌>>◌, >>=-keeps, lua_error,
}
use things_mqtt_lua.Lua.{Value, Machine, push, pop, check_text, check_integer, c_str, drop, at}
use things_mqtt_lua.LuaUtils.{lua_value_to_json}
use things_mqtt_lua.Controller.State
use things_mqtt_lua.Controller.State.{Controller, ControllerConfig}
use things_mqtt_lua.Controller.Sending
use things_mqtt_lua.Controller.Reactions
use things_mqtt_lua.Controller.Changed.{
  IsWellFormed, publish_telemetry-IsWellFormed, set_attribute-IsWellFormed,
}
use things_mqtt_lua.Controller.Stability.{
  new-IsWellFormed, send-IsWellFormed, loop-IsWellFormed, connect-IsWellFormed,
}
use things_mqtt_lua.LuaThingsmqtt.Entries.{Entry, Method, RpcMethod, JsonFunction}
use things_mqtt_lua.LuaThingsmqtt.Config.{read_config}
use things_mqtt_lua.LuaThingsmqtt.Process.{
  Host, Process, lua_platform, check_controller, on_controller, on_lua, controller_at,
  set_controller,
}
use things_mqtt_lua.LuaThingsmqtt.Methods.{
  new, connect, telemetry, set_attribute, send, loop, is_connected, add_rpc_handler,
  add_rpc_handler_to, register_handler, remove_rpc_handler, remove_rpc_handler_from, json_stringify,
  json_parse, push_new_userdata, remove_handler, run, run_method, run_rpc_method, run_json_function,
  is_function, to_size,
}
use things_mqtt_lua.LuaThingsmqtt.Publishing.{called}

module _ (host : Host) where
  open host use {lua, json_values, fuel}

  -- At every address there is a well-formed controller.
  abbrev pub AllWellFormed : Process host → Type 0
  AllWellFormed P = (a : ℕ) → IsWellFormed (lua_platform host) (P.controllers a)

  abbrev Keeps : {A : Type 0} → Action (Process host) A → Type 0
  Keeps f = (P : Process host) → AllWellFormed P → AllWellFormed (f P).1

  then-Keeps :
      {A B : Type 0} (f : Action (Process host) A) (g : A → Action (Process host) B)
      → Keeps f
      → ((a : A) → Keeps (g a))
      → Keeps (f >>= g)
  then-Keeps f g hf hg P all = >>=-keeps AllWellFormed f g P (hf P all) hg

  on_lua-Keeps : {A : Type 0} (f : Action (Machine lua) A) → Keeps (on_lua host f)
  on_lua-Keeps f P all a = all a

  pure-Keeps : {A : Type 0} (x : A) → Keeps (pure x)
  pure-Keeps x P all = all

  set_controller-AllWellFormed :
      (a : ℕ) (c : Controller (lua_platform host)) (f : ℕ → Controller (lua_platform host))
      → IsWellFormed (lua_platform host) c
      → ((b : ℕ) → IsWellFormed (lua_platform host) (f b))
      → (b : ℕ) → IsWellFormed (lua_platform host) (set_controller a c f b)
  set_controller-AllWellFormed a c f w all b = by_test (b == a)
    where
      by_test : (t : Bool) → IsWellFormed (lua_platform host) (if t then c else f b)
      by_test true = w
      by_test false = all b

  on_controller-Keeps :
      {A : Type 0} (a : ℕ) (f : Action (Controller (lua_platform host)) A)
      → ((c : Controller (lua_platform host))
          → IsWellFormed (lua_platform host) c
          → IsWellFormed (lua_platform host) (f c).1)
      → Keeps (on_controller host a f)
  on_controller-Keeps a f h P all =
      let w = all a in
      set_controller-AllWellFormed a (f (controller_at host a P)).1 P.controllers
        (h (controller_at host a P) (record { telemetry = w.telemetry; attributes = w.attributes }))
        all

  -- A method: the controller is looked up, and the rest keeps all well-formed.
  method-Keeps :
      {A : Type 0} (rest : ℕ → Action (Process host) A)
      → ((a : ℕ) → Keeps (rest a))
      → Keeps (check_controller host >>= rest)
  method-Keeps rest h = then-Keeps (check_controller host) rest (λ P all. all) h

  lua_then-Keeps :
      {A B : Type 0} (f : Action (Machine lua) A) (rest : A → Action (Process host) B)
      → ((a : A) → Keeps (rest a))
      → Keeps (on_lua host f >>= rest)
  lua_then-Keeps f rest h = then-Keeps (on_lua host f) rest (on_lua-Keeps f) h

  new-Keeps : Keeps (new host)
  unfolding new
  new-Keeps P all =
      set_controller-AllWellFormed P.allocated _ P.controllers
        (new-IsWellFormed (lua_platform host) (P.world, (push_new_userdata host P.lua).1)) all

  -- A method that ends in a call of the controller's, with its argument from the stack.
  connect_at : ℕ → ControllerConfig → Action (Process host) ℕ
  connect_at a config = on_controller host a (State.connect config) >> pure 0

  connect-Keeps : Keeps (connect host)
  unfolding connect connect_at
  connect-Keeps =
      method-Keeps (λ a. on_lua host (read_config lua) >>= connect_at a)
        (λ a. lua_then-Keeps (read_config lua) (connect_at a) (λ config.
          then-Keeps (on_controller host a (State.connect config)) (λ _. pure 0)
            (on_controller-Keeps a (State.connect config)
              (connect-IsWellFormed (lua_platform host) config))
            (λ _ P all. all)))

  store_at :
      (host.platform.Value
        → String
        → Controller (lua_platform host)
        → Controller (lua_platform host))
      → ℕ
      → String
      → host.platform.Value
      → Action (Process host) ℕ
  store_at f a key value = do
    on_controller host a (put (f value (c_str key)))
    on_lua host (pop 3)
    pure 0

  store :
      (host.platform.Value
        → String
        → Controller (lua_platform host)
        → Controller (lua_platform host))
      → ℕ
      → Action (Process host) ℕ
  store f a = do
    key ← on_lua host (check_text (pos 2))
    value ← on_lua host (lua_value_to_json lua json_values fuel (pos 3))
    store_at f a key value

  store-Keeps :
      (f : host.platform.Value
        → String
        → Controller (lua_platform host)
        → Controller (lua_platform host))
      → ((value : host.platform.Value) (key : String) (c : Controller (lua_platform host))
          → IsWellFormed (lua_platform host) c
          → IsWellFormed (lua_platform host) (f value key c))
      → (a : ℕ) → Keeps (store f a)
  unfolding store store_at
  store-Keeps f h a =
      lua_then-Keeps (check_text (pos 2))
        (λ key. on_lua host (lua_value_to_json lua json_values fuel (pos 3)) >>= store_at f a key)
        (λ key.
          lua_then-Keeps (lua_value_to_json lua json_values fuel (pos 3)) (store_at f a key)
            (λ value.
              then-Keeps {B = ℕ} (on_controller host a (put (f value (c_str key))))
                (λ _. on_lua host (pop 3) >> pure 0)
                (on_controller-Keeps a (put (f value (c_str key))) (h value (c_str key)))
                (λ _ P all. all)))

  telemetry-Keeps : Keeps (telemetry host)
  unfolding telemetry store store_at
  telemetry-Keeps = method-Keeps (store (λ value key. Sending.publish_telemetry key value)) (
      store-Keeps (λ value key. Sending.publish_telemetry key value)
        (λ value key. publish_telemetry-IsWellFormed (lua_platform host) key value))

  set_attribute-Keeps : Keeps (set_attribute host)
  unfolding set_attribute store store_at
  set_attribute-Keeps = method-Keeps (store (λ value key. Sending.set_attribute key value)) (
      store-Keeps (λ value key. Sending.set_attribute key value)
        (λ value key. set_attribute-IsWellFormed (lua_platform host) key value))

  -- A method that takes the object off the stack and calls the controller's.
  plain : {A : Type 0} → Action (Controller (lua_platform host)) A → ℕ → Action (Process host) ℕ
  plain f a = on_lua host (pop 1) >> (on_controller host a f >> pure 0)

  plain-Keeps :
      {A : Type 0} (f : Action (Controller (lua_platform host)) A)
      → ((c : Controller (lua_platform host))
          → IsWellFormed (lua_platform host) c
          → IsWellFormed (lua_platform host) (f c).1)
      → (a : ℕ) → Keeps (plain f a)
  unfolding plain
  plain-Keeps f h a P all =
      then-Keeps (on_controller host a f) (λ _. pure 0) (on_controller-Keeps a f h) (λ _ P all. all)
        _ all

  send-Keeps : Keeps (send host)
  unfolding send plain
  send-Keeps =
      method-Keeps (plain Sending.send)
        (plain-Keeps Sending.send (send-IsWellFormed (lua_platform host)))

  loop-Keeps : Keeps (loop host)
  unfolding loop plain
  loop-Keeps =
      method-Keeps (plain Reactions.loop)
        (plain-Keeps Reactions.loop (loop-IsWellFormed (lua_platform host)))

  is_connected-Keeps : Keeps (is_connected host)
  unfolding is_connected
  is_connected-Keeps =
      method-Keeps
        (λ a. do
          on_lua host (pop 1)
          connected ← on_controller host a (gets State.is_connected)
          on_lua host (push (Value.boolean connected))
          pure 1)
        (λ a P all.
          on_controller-Keeps a (gets State.is_connected) (λ c w. w)
            (called host (drop 1 P.lua.stack) P) all)

  -- The table of handlers has no part in what is well-formed.
  with_handlers :
      (c : Controller (lua_platform host)) (t : Dict ℕ ℤ)
      → IsWellFormed (lua_platform host) c
      → IsWellFormed (lua_platform host) (record c { m_rpc_handlers = t })
  with_handlers c t w = record { telemetry = w.telemetry; attributes = w.attributes }

  register_handler-Keeps :
      (a : ℕ) (f : Option (Value lua.types)) → Keeps (register_handler host a f)
  unfolding register_handler Reactions.add_rpc_handler
  register_handler-Keeps a f P all =
      set_controller-AllWellFormed a _ P.controllers (with_handlers (P.controllers a) _ (all a)) all

  add_rpc_handler-Keeps : Keeps (add_rpc_handler host)
  unfolding add_rpc_handler add_rpc_handler_to
  add_rpc_handler-Keeps = method-Keeps (add_rpc_handler_to host) (λ a P all.
      let stack = drop 1 P.lua.stack in
      let f = at stack (pos 2) in by_test (is_function host f) a f (called host stack P) all)
    where
      by_test :
          (t : Bool) (a : ℕ) (f : Option (Value lua.types))
          → Keeps (if t then register_handler host a f else throw (lua_error "Expected a function"))
      by_test true a f = register_handler-Keeps a f
      by_test false a f = λ P all. all

  remove_rpc_handler-Keeps : Keeps (remove_rpc_handler host)
  unfolding remove_rpc_handler remove_rpc_handler_from Reactions.remove_rpc_handler
  remove_rpc_handler-Keeps = method-Keeps (remove_rpc_handler_from host) (λ a P all.
      lua_then-Keeps (check_integer (pos 2))
        (λ id. do
          found ← remove_handler host a (to_size (int_of id))
          on_lua host (push (Value.boolean found))
          pure 1)
        (λ id P all.
          set_controller-AllWellFormed a _ P.controllers (with_handlers (P.controllers a) _ (all a))
            all)
        (called host (drop 1 P.lua.stack) P) all)

  pub run-Keeps : (e : Entry) → Keeps (run host e)
  unfolding run run_method run_rpc_method run_json_function json_stringify json_parse
  run-Keeps Entry.new = new-Keeps
  run-Keeps (Entry.method Method.connect) = connect-Keeps
  run-Keeps (Entry.method Method.telemetry) = telemetry-Keeps
  run-Keeps (Entry.method Method.set_attribute) = set_attribute-Keeps
  run-Keeps (Entry.method Method.send) = send-Keeps
  run-Keeps (Entry.method Method.loop) = loop-Keeps
  run-Keeps (Entry.method Method.is_connected) = is_connected-Keeps
  run-Keeps (Entry.rpc_method RpcMethod.add_rpc_handler) = add_rpc_handler-Keeps
  run-Keeps (Entry.rpc_method RpcMethod.remove_rpc_handler) = remove_rpc_handler-Keeps
  run-Keeps (Entry.json_function JsonFunction.json_stringify) = λ P all. all
  run-Keeps (Entry.json_function JsonFunction.json_parse) = λ P all. all
