-- ===== src/LuaThingsmqtt/Sending.antt =====
-- lua-thingsmqtt.cpp, `send`: the controller's `send` calls the mosquitto library alone, and so leaves the
-- interpreter as it is.
use things_mqtt_lua.Prelude.{
  refl, inl, inr, Bool, true, false, not, ◌||◌, [], ◌∷◌, ◌++◌, String, ◌*◌, Bool-cases,
}
use things_mqtt_lua.Prelude.Effect.{Action, Void, pure, gets, put, when, ◌>>=◌, ◌>>◌}
use things_mqtt_lua.Lua.{Machine}
use things_mqtt_lua.Controller.State.{Controller, is_connected, is_empty}
use things_mqtt_lua.Controller.Frame.{Keeps, >>=-Keeps, dump-Keeps}
use things_mqtt_lua.Controller.Payload.{collect, telemetry_payload}
use things_mqtt_lua.Controller.Sending.{
  dump, publish, send_telemetry, send_attributes, send_tainted_telemetry, send_tainted_attributes,
  send,
}
use things_mqtt_lua.Controller.Outbox.{publish-cases}
use things_mqtt_lua.LuaThingsmqtt.Process.{Host, lua_platform}

module _ (host : Host) where
  abbrev C : Type 0
  C = Controller (lua_platform host)

  -- the interpreter in the world of a controller
  abbrev pub machine_of : C → Machine host.lua
  machine_of c = c.m_mqtt_client.base.world.1

  -- A call leaves the interpreter as it is, whether it returns or throws.
  abbrev pub Spares : {A : Type 0} → Action C A → Type 0
  Spares f = Keeps {p = lua_platform host} machine_of f

  dump-Spares : (v : host.platform.Value) → Spares (dump {p = lua_platform host} v)
  dump-Spares = dump-Keeps {p = lua_platform host} machine_of

  publish-Spares : (topic text : String) → Spares (publish {p = lua_platform host} topic text)
  publish-Spares topic text c = elim (publish-cases (lua_platform host) c topic text) [
    | inl e ↦ rw e refl
    | inr e ↦ rw e refl
  ]

  send_telemetry-Spares :
      (v : host.platform.Value) → Spares (send_telemetry {p = lua_platform host} v)
  unfolding send_telemetry
  send_telemetry-Spares v c = elim (Bool-cases (is_connected {p = lua_platform host} c)) [
    | inl online ↦ rw online (
        >>=-Keeps {p = lua_platform host} machine_of (dump {p = lua_platform host} v)
          (publish {p = lua_platform host} host.platform.telemetry_topic) (dump-Spares v)
          (publish-Spares host.platform.telemetry_topic) c)
    | inr offline ↦ rw offline (
        >>=-Keeps {p = lua_platform host} machine_of (dump {p = lua_platform host} v) queue
          (dump-Spares v) (λ text c'. refl) c)
  ]
    where
      queue : String → Action C Void
      queue text = put (λ c. record c { m_pending_telemetry = c.m_pending_telemetry ++ text ∷ [] })

  send_attributes-Spares :
      (v : host.platform.Value) → Spares (send_attributes {p = lua_platform host} v)
  unfolding send_attributes
  send_attributes-Spares v c = elim (Bool-cases (is_connected {p = lua_platform host} c)) [
    | inl online ↦ rw online (
        >>=-Keeps {p = lua_platform host} machine_of (dump {p = lua_platform host} v)
          (publish {p = lua_platform host} host.platform.attributes_topic) (dump-Spares v)
          (publish-Spares host.platform.attributes_topic) c)
    | inr offline ↦ rw offline refl
  ]

  send_tainted_telemetry-Spares : Spares (send_tainted_telemetry {p = lua_platform host})
  unfolding send_tainted_telemetry
  send_tainted_telemetry-Spares c =
      let (values, d) =
        collect host.platform.json c.m_tainted_telemetry_keys host.platform.json.null
          c.m_telemetry_data in
      let payload =
        telemetry_payload host.platform.json values
          (host.platform.time c.m_mqtt_client.base.world.0 * 1000) in
      let clear : Action C Void = put (λ c. record c { m_tainted_telemetry_keys = [] }) in
      >>=-Keeps {p = lua_platform host} machine_of (send_telemetry {p = lua_platform host} payload)
        (λ _. clear) (send_telemetry-Spares payload) (λ _ c'. refl)
        (record c { m_telemetry_data = d })

  send_tainted_attributes-Spares : Spares (send_tainted_attributes {p = lua_platform host})
  unfolding send_tainted_attributes
  send_tainted_attributes-Spares c =
      let (values, d) =
        collect host.platform.json c.m_tainted_attribute_keys host.platform.json.null
          c.m_attribute_data in
      let clear : Action C Void = put (λ c. record c { m_tainted_attribute_keys = [] }) in
      >>=-Keeps {p = lua_platform host} machine_of (send_attributes {p = lua_platform host} values)
        (λ _. clear) (send_attributes-Spares values) (λ _ c'. refl)
        (record c { m_attribute_data = d })

  when-Spares : (b : Bool) (f : Action C Void) → Spares f → Spares (when b f)
  when-Spares true f h c = h c
  when-Spares false f h c = refl

  pub send-Spares : Spares (send {p = lua_platform host})
  unfolding send
  send-Spares c =
      let telemetry = not (is_empty c.m_tainted_telemetry_keys) in
      let attributes : C → Bool = λ c'. not (is_empty c'.m_tainted_attribute_keys) in
      let finish : C → Action C Bool = λ c'.
        when (attributes c') (send_tainted_attributes {p = lua_platform host})
        >> pure (telemetry || attributes c') in
      >>=-Keeps {p = lua_platform host} machine_of
        (when telemetry (send_tainted_telemetry {p = lua_platform host}))
        (λ _. gets (λ c. c) >>= finish)
        (when-Spares telemetry send_tainted_telemetry send_tainted_telemetry-Spares)
        (λ _ c'.
          >>=-Keeps {p = lua_platform host} machine_of
            (when (attributes c') (send_tainted_attributes {p = lua_platform host}))
            (λ _. pure (telemetry || attributes c'))
            (when-Spares (attributes c') send_tainted_attributes send_tainted_attributes-Spares)
            (λ _ c''. refl) c')
        c
