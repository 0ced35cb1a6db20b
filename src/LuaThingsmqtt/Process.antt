-- ===== src/LuaThingsmqtt/Process.antt =====
-- The state that the functions of lua-thingsmqtt.cpp work on: the interpreter, the world of the
-- mosquitto library, the controllers and the counter of `addRpcHandler`. The world of a controller is
-- then both the library's and the interpreter, since its handlers run Lua code.
use things_mqtt_lua.Prelude.{ℕ, Option, none, some, ◌==◌, nat_eq, if◌then◌else◌}
use things_mqtt_lua.Prelude.Int.{ℤ, pos}
use things_mqtt_lua.Prelude.Effect.{Action, gets, ◌>>=◌}
use things_mqtt_lua.Mosquitto.{Mosquitto, Run, returns, calls}
use things_mqtt_lua.Platform.{Platform}
use things_mqtt_lua.JsonValues.{JsonValues}
use things_mqtt_lua.Lua.{Lua, Value, Machine, required, at}
use things_mqtt_lua.MqttClientSingleThread
use things_mqtt_lua.Controller.State.{Controller}
use things_mqtt_lua.Controller.Reactions.{owner}
use things_mqtt_lua.LuaThingsmqtt.Entries.{Entry, thingsmqtt_meta}
use things_mqtt_lua.LuaThingsmqtt.Handler.{rpc_handler}

-- What the module is loaded into. The handlers of the platform are not used; `fuel` is that of the
-- conversions.
pub record Host : Type 1 where
  pub platform : Platform
  pub lua : Lua Entry
  pub json_values : JsonValues platform.json lua.Number
  pub fuel : ℕ

module _ {W : Type 0} (M : Type 0) where
  -- A call of the library beside a state that it does not touch.
  abbrev pub beside : {A : Type 0} → (W → A × W) → W × M → A × (W × M)
  beside f (w, s) = let (a, w') = f w in (a, (w', s))

  abbrev pub beside_run : Run W → M → Run (W × M)
  beside_run (returns rc w) s = returns rc (w, s)
  beside_run (calls e w next) s = calls e (w, s) λ x. beside_run (next x.0) x.1

abbrev pub beside_mosquitto : Mosquitto → Type 0 → Mosquitto
beside_mosquitto m M = record {
  World = m.World × M;
  Handle = m.Handle;
  lib_init = beside M m.lib_init;
  lib_cleanup = λ x. (m.lib_cleanup x.0, x.1);
  errno = λ x. m.errno x.0;
  new = λ id clean. beside M (m.new id clean);
  destroy = λ h x. (m.destroy h x.0, x.1);
  username_pw_set = λ h user password. beside M (m.username_pw_set h user password);
  tls_set = λ h ca cert key. beside M (m.tls_set h ca cert key);
  reconnect_delay_set =
      λ h low high exponential x. (m.reconnect_delay_set h low high exponential x.0, x.1);
  connect = λ h host port keepalive. beside M (m.connect h host port keepalive);
  connect_bind = λ h host port keepalive bind. beside M (m.connect_bind h host port keepalive bind);
  disconnect = λ h x. beside_run M (m.disconnect h x.0) x.1;
  subscribe = λ h topic qos. beside M (m.subscribe h topic qos);
  unsubscribe = λ h topic. beside M (m.unsubscribe h topic);
  publish = λ h topic size payload qos retain x.
      let (rc, mid, w) = m.publish h topic size payload qos retain x.0 in (rc, mid, (w, x.1));
  callback_set = λ h kind x. (m.callback_set h kind x.0, x.1);
  loop = λ h x. beside_run M (m.loop h x.0) x.1;
  loop_start = λ h. beside M (m.loop_start h);
  loop_stop = λ h force x. (m.loop_stop h force x.0, x.1);
}

-- The platform of the controllers: an `RpcHandler` is the lambda that holds a reference.
abbrev pub lua_platform : Host → Platform
lua_platform host = record {
  mosquitto = beside_mosquitto host.platform.mosquitto (Machine host.lua);
  json = host.platform.json;
  telemetry_topic = host.platform.telemetry_topic;
  attributes_topic = host.platform.attributes_topic;
  rpc_topic = host.platform.rpc_topic;
  time = λ x. host.platform.time x.0;
  RpcHandler = ℤ;
  run_handler = λ func_ref method params x.
      let (r, s) = rpc_handler host.lua host.json_values host.fuel func_ref method params x.1 in
      (r, (x.0, s));
}

-- `controllers` gives the object at an address; those from `allocated` on are not there yet.
pub record Process (host : Host) : Type 0 where
  pub lua : Machine host.lua
  pub world : host.platform.World
  pub controllers : ℕ → Controller (lua_platform host)
  pub allocated : ℕ
  pub next_id : ℕ

abbrev pub set_controller {ℓ} : {X : Type ℓ} → ℕ → X → (ℕ → X) → ℕ → X
set_controller a x f b = if b == a then x else f b

module _ (host : Host) where
  -- the controller at an address, in the world as it is
  abbrev pub controller_at : ℕ → Process host → Controller (lua_platform host)
  controller_at a P = MqttClientSingleThread.set_world owner (P.world, P.lua) (P.controllers a)

  -- the controller put back, and the world that it leaves
  abbrev pub put_controller : ℕ → Controller (lua_platform host) → Process host → Process host
  put_controller a c P =
      let w = c.m_mqtt_client.base.world in
      record P { lua = w.1; world = w.0; controllers = set_controller a c P.controllers }

  -- `controller->f()`
  abbrev pub on_controller :
      {A : Type 0} → ℕ → Action (Controller (lua_platform host)) A → Action (Process host) A
  on_controller a f P = let (r, c) = f (controller_at a P) in (r, put_controller a c P)

  abbrev pub on_lua : {A : Type 0} → Action (Machine host.lua) A → Action (Process host) A
  on_lua f P = let (r, s) = f P.lua in (r, record P { lua = s })

  -- The address in a userdata of the module.
  abbrev pub address_in : Option (Value host.lua.types) → host.lua.Heap → Option ℕ
  address_in (some (Value.userdata u)) h =
      if host.lua.is_instance u thingsmqtt_meta h then some (host.lua.block u h) else none
  address_in _ h = none

  -- `*static_cast<Controller**>(luaL_checkudata(L, 1, thingsmqtt_meta))`
  abbrev pub check_controller : Action (Process host) ℕ
  check_controller =
      on_lua
        (gets (λ s. address_in (at s.stack (pos 1)) s.heap) >>= required (pos 1) thingsmqtt_meta)
