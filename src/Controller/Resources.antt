-- ===== src/Controller/Resources.antt =====
-- controller.hpp: what a controller makes of the resources of libmosquitto, from its constructor to its
-- destructor. The library keeps a ledger of them beside its own state.
use things_mqtt_lua.Prelude.{
  ℕ, string_eq, ◌≡◌, refl, Bool, true, false, ◌||◌, if◌then◌else◌, Option, none, some, List, [],
  ◌∷◌, String, arith,
}
use things_mqtt_lua.Prelude.Int.{ℤ, pos, leb_ℤ, ltb_ℤ}
use things_mqtt_lua.Prelude.Effect.{
  Result, ok, raised, Action, Void, ◌>>◌, >>=-keeps, throw_if, runtime_error,
}
use things_mqtt_lua.Mosquitto.Discipline.{
  Discipline, InitKeeps, ledger_init, Entered, ledger_discipline,
}
use things_mqtt_lua.Mosquitto.Ledger.{Ledger, empty_ledger, tallied}
use things_mqtt_lua.MqttClient
use things_mqtt_lua.MqttClient.Setters
use things_mqtt_lua.MqttClient.Handle.{connect-Uses, connect_bind-Uses}
use things_mqtt_lua.MqttClient.Lifetime.{configure-Tends, destruct-Held}
use things_mqtt_lua.MqttClientSingleThread
use things_mqtt_lua.MqttClientSingleThread.Handle.{
  destruct-Uses, lib_init-Tends, after_configure-Tends,
}
use things_mqtt_lua.Platform.{Platform}
use things_mqtt_lua.Controller.State.{
  Controller, ControllerConfig, new, connect, connect_to, connect_client, install_callbacks,
  on_client,
}
use things_mqtt_lua.Controller.Sending.{publish_telemetry, set_attribute}
use things_mqtt_lua.Controller.Reactions.{owner, add_rpc_handler, remove_rpc_handler, destruct}
use things_mqtt_lua.Controller.History.{
  Op, publishes, sets, sends, disconnects, loops, connects, adds, removes, State, apply, apply_all,
}
use things_mqtt_lua.Controller.Handle.{handle_of, ControllerOwns, HandlersKeep, send-Uses}
use things_mqtt_lua.Controller.Lifetime.{
  dispatch-Uses, loop_callbacks-Uses, disconnect_callbacks-Uses,
}

module _ (p : Platform) (d : Discipline p.mosquitto) (init : InitKeeps d) where
  connect_client-Owns :
      (host : String) (bind_address : Option String) (port keepalive : ℤ) (c : Controller p)
      → ControllerOwns p d c
      → ControllerOwns p d (connect_client {p = p} host bind_address port keepalive c).1
  connect_client-Owns host none port keepalive c owns =
      (connect-Uses d host port keepalive c.m_mqtt_client.base owns).1
  connect_client-Owns host (some bind_address) port keepalive c owns =
      (connect_bind-Uses d host bind_address port keepalive c.m_mqtt_client.base owns).1

  connect_to-Owns :
      (host : String) (config : ControllerConfig) (c : Controller p)
      → ControllerOwns p d c
      → ControllerOwns p d (connect_to {p = p} host config c).1
  unfolding connect_to Setters.set_message_callback Setters.set_connect_callback
  connect_to-Owns host config c owns =
      by_port (leb_ℤ config.port (pos 0) || ltb_ℤ (pos 65535) config.port)
    where
      keepalive : ℤ
      keepalive = if leb_ℤ config.keepalive (pos 0) then pos 60 else config.keepalive

      configured : Action (Controller p) Void
      configured = on_client {p = p} (
          MqttClientSingleThread.configure config.client_id config.username config.password
            (some config.ssl_config))

      installed : Controller p → Controller p
      installed c = (install_callbacks {p = p} c).1

      by_port :
          (b : Bool)
          → ControllerOwns p d
              ((throw_if b (runtime_error "Invalid MQTT port")
                  >> (install_callbacks {p = p}
                      >> (configured
                          >> connect_client {p = p} host config.bind_address config.port
                              keepalive)))
                c).1
      by_port true = owns
      by_port false =
          >>=-keeps (ControllerOwns p d) configured
            (λ _. connect_client {p = p} host config.bind_address config.port keepalive)
            (installed c)
            (configure-Tends d MqttClientSingleThread.lib_init
              MqttClientSingleThread.after_configure config.client_id config.username
              config.password (some config.ssl_config) (lib_init-Tends d init)
              (after_configure-Tends d) (installed c).m_mqtt_client.base owns)
            (λ _ c' owns'.
              connect_client-Owns host config.bind_address config.port keepalive c' owns')

  connect-Owns :
      (config : ControllerConfig) (c : Controller p)
      → ControllerOwns p d c
      → ControllerOwns p d (connect {p = p} config c).1
  unfolding connect
  connect-Owns config c owns = by_host config.host
    where
      by_host :
          (host : Option String)
          → ControllerOwns p d (connect {p = p} (record config { host = host }) c).1
      by_host none = owns
      by_host (some host) = connect_to-Owns host config c owns

  module _ (handlers : HandlersKeep p d) where
    apply-Owns :
        (op : Op p) (s : State p) → ControllerOwns p d s.1 → ControllerOwns p d (apply p op s).1
    unfolding add_rpc_handler remove_rpc_handler publish_telemetry set_attribute
    apply-Owns (publishes key value) (id, c) owns = ground (arith, owns)
    apply-Owns (sets key value) (id, c) owns = ground (arith, owns)
    apply-Owns sends (id, c) owns = (send-Uses p d c owns).1
    apply-Owns disconnects (id, c) owns = (disconnect_callbacks-Uses p d handlers c owns).1
    apply-Owns loops (id, c) owns = (loop_callbacks-Uses p d handlers c owns).1
    apply-Owns (connects config) (id, c) owns = connect-Owns config c owns
    apply-Owns (adds handler) (id, c) owns = owns
    apply-Owns (removes handler_id) (id, c) owns = owns

    apply_all-Owns :
        (ops : List (Op p)) (s : State p)
        → ControllerOwns p d s.1
        → ControllerOwns p d (apply_all p ops s).1
    apply_all-Owns [] s owns = owns
    apply_all-Owns (op ∷ ops) s owns = apply_all-Owns ops (apply p op s) (apply-Owns op s owns)

-- The platform with a library that keeps a ledger; the handlers do not write in it.
abbrev pub tallied_platform : Platform → Platform
tallied_platform p = record {
  mosquitto = tallied p.mosquitto;
  json = p.json;
  telemetry_topic = p.telemetry_topic;
  attributes_topic = p.attributes_topic;
  rpc_topic = p.rpc_topic;
  time = λ x. p.time x.0;
  RpcHandler = p.RpcHandler;
  run_handler = λ handler method params x.
      let (r, w) = p.run_handler handler method params x.0 in (r, (w, x.1));
}

module _ (p : Platform) where
  -- The controller is gone: the library was never called with a handle that is destroyed, and no handle
  -- lives, unless an exception has ended the program.
  abbrev pub Released : Result Void × (p.World × Ledger) → Type 0
  Released (ok _, (w, g)) = (g.live ≡ []) × (g.misuses ≡ 0)
  Released (raised _, (w, g)) = g.misuses ≡ 0

  misuses-Entered : (h : Option (p.mosquitto.Handle × ℕ)) (g : Ledger) → Entered h g → g.misuses ≡ 0
  misuses-Entered none g e = e.1
  misuses-Entered (some h) g e = e.1

  destruct-Released :
      (c : Controller (tallied_platform p))
      → Entered
          (handle_of (tallied_platform p) (ledger_discipline p.mosquitto) c)
          c.m_mqtt_client.world.1
      → Released (destruct {p = tallied_platform p} c)
  unfolding destruct
  destruct-Released c owns =
      let d = ledger_discipline p.mosquitto in
      let (r, c') = MqttClientSingleThread.destruct (owner {p = tallied_platform p}) c in
      let (same, owns') =
        destruct-Uses d (owner {p = tallied_platform p}) (λ _ _. refl)
          (dispatch-Uses (tallied_platform p) d (λ _ _ _ _ _ held. held)) c owns in
      by_result r c' owns'
    where
      by_result :
          (r : Result Void) (c : Controller (tallied_platform p))
          → Entered c.m_mqtt_client.m_mosq c.m_mqtt_client.world.1
          → Released (elim r as (λ _. Result Void × (p.World × Ledger)) [
            | ok _ ↦ (ok tt, MqttClient.destruct c.m_mqtt_client.base)
            | raised e ↦ (raised e, c.m_mqtt_client.base.world)
          ])
      by_result (ok _) c owns =
          let (w, held, e) =
            destruct-Held (ledger_discipline p.mosquitto) c.m_mqtt_client.base owns in
          rw e held
      by_result (raised _) c owns = misuses-Entered c.m_mqtt_client.m_mosq _ owns

  -- After any calls of the public methods of a new controller, whether they return or throw and whatever
  -- the library answers and calls back, and then its destructor: the library was never called with a
  -- handle that was destroyed before, and every handle that it gave out is destroyed, unless an exception
  -- has left the destructor.
  pub history-Released :
      (ops : List (Op (tallied_platform p))) (w : p.World)
      → Released (
          destruct {p = tallied_platform p}
            (apply_all
              (tallied_platform p)
              ops
              (1, new {p = tallied_platform p} (w, empty_ledger))).1)
  unfolding new MqttClientSingleThread.new MqttClient.new
  history-Released ops w = destruct-Released _ (
      apply_all-Owns (tallied_platform p) (ledger_discipline p.mosquitto) (ledger_init p.mosquitto)
        (λ _ _ _ _ _ held. held) ops _ (refl, refl))
