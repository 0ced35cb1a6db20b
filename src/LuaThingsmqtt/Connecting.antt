-- ===== src/LuaThingsmqtt/Connecting.antt =====
-- lua-thingsmqtt.cpp, `connect`: the controller's `connect` calls the mosquitto library alone, and so
-- leaves the interpreter as it is.
use things_mqtt_lua.Prelude.{
  ◌≡◌, refl, ◌∙◌, Bool, true, false, not, ◌||◌, if◌then◌else◌, Option-cases, inl, inr, Option, none,
  some, String, arith,
}
use things_mqtt_lua.Prelude.Int.{ℤ, pos, leb_ℤ, ltb_ℤ}
use things_mqtt_lua.Prelude.Effect.{
  Exception, Action, Void, pure, gets, throw_if, runtime_error, ◌>>=◌, ◌>>◌, >>=-keeps,
}
use things_mqtt_lua.Mosquitto.{MosqErr}
use things_mqtt_lua.MqttClient
use things_mqtt_lua.MqttClient.Setters
use things_mqtt_lua.MqttClient.{MqttClient, MqttSslConfig}
use things_mqtt_lua.MqttClientSingleThread
use things_mqtt_lua.Controller.State
use things_mqtt_lua.Controller.State.{Controller, ControllerConfig, Closure}
use things_mqtt_lua.Controller.Frame.{>>=-Keeps}
use things_mqtt_lua.LuaThingsmqtt.Process.{Host, lua_platform}
use things_mqtt_lua.LuaThingsmqtt.Sending.{Spares, machine_of}

module _ (host : Host) where
  abbrev B : Type 0
  B = MqttClient (lua_platform host).mosquitto Closure

  abbrev BaseSpares : {A : Type 0} → Action B A → Type 0
  BaseSpares f = (b : B) → (f b).1.world.1 ≡ b.world.1

  >>=-BaseSpares :
      {A A' : Type 0} (f : Action B A) (g : A → Action B A')
      → BaseSpares f
      → ((a : A) → BaseSpares (g a))
      → BaseSpares (f >>= g)
  >>=-BaseSpares f g hf hg b =
      >>=-keeps (λ b'. b'.world.1 ≡ b.world.1) f g b (hf b) (λ a b' h. hg a b' ∙ h)

  create-Spares : (client_id : Option String) → BaseSpares (MqttClient.create client_id)
  unfolding MqttClient.create
  create-Spares client_id b = ground arith

  set_credentials-Spares :
      (username password : Option String)
      → BaseSpares (MqttClient.set_credentials username password)
  unfolding MqttClient.set_credentials
  set_credentials-Spares username password b = ground arith

  set_tls-Spares : (ssl : Option MqttSslConfig) → BaseSpares (MqttClient.set_tls ssl)
  unfolding MqttClient.set_tls
  set_tls-Spares ssl b = ground arith

  after_configure-Spares : BaseSpares MqttClientSingleThread.after_configure
  unfolding MqttClientSingleThread.after_configure
  after_configure-Spares b = refl

  connect-Spares :
      (host' : String) (port keepalive : ℤ) → BaseSpares (MqttClient.connect host' port keepalive)
  unfolding MqttClient.connect
  connect-Spares host' port keepalive b = ground arith

  connect_bind-Spares :
      (host' bind : String) (port keepalive : ℤ)
      → BaseSpares (MqttClient.connect_bind host' bind port keepalive)
  unfolding MqttClient.connect_bind
  connect_bind-Spares host' bind port keepalive b = ground arith

  set_up-Spares :
      (client_id username password : Option String) (ssl : Option MqttSslConfig)
      → BaseSpares
          (MqttClient.set_up MqttClientSingleThread.after_configure client_id username password ssl)
  unfolding MqttClient.set_up
  set_up-Spares client_id username password ssl =
      let finish : Action B Void =
        MqttClient.set_reconnect_delay >> MqttClientSingleThread.after_configure in
      >>=-BaseSpares (MqttClient.create client_id)
        (λ _. MqttClient.set_credentials username password >> (MqttClient.set_tls ssl >> finish))
        (create-Spares client_id)
        λ _.
          >>=-BaseSpares (MqttClient.set_credentials username password)
            (λ _. MqttClient.set_tls ssl >> finish) (set_credentials-Spares username password)
            λ _.
              >>=-BaseSpares (MqttClient.set_tls ssl) (λ _. finish) (set_tls-Spares ssl)
                (λ _ b. after_configure-Spares _)

  throw_if-Spares : (test : Bool) (e : Exception) → BaseSpares (throw_if test e)
  throw_if-Spares true e b = refl
  throw_if-Spares false e b = refl

  configure-Spares :
      (client_id username password : Option String) (ssl : Option MqttSslConfig)
      → BaseSpares (
          MqttClient.configure MqttClientSingleThread.lib_init
            MqttClientSingleThread.after_configure client_id username password ssl)
  unfolding MqttClient.configure MqttClientSingleThread.lib_init
  configure-Spares client_id username password ssl =
      let up =
        MqttClient.set_up {m = (lua_platform host).mosquitto} {C = Closure}
          MqttClientSingleThread.after_configure client_id username password ssl in
      let go : Action B Void =
        gets (λ b. b) >>= λ b. elim b.m_mosq [ some _ ↦ pure tt | none ↦ up ] in
      let test : MosqErr → Action B Void = λ rc.
        throw_if (not (MqttClient.is_success rc))
          (runtime_error "Failed to initialize MQTT library") in
      >>=-BaseSpares MqttClientSingleThread.lib_init (λ rc. test rc >> go) (λ b. refl)
        λ rc.
          >>=-BaseSpares (test rc) (λ _. go) (throw_if-Spares (not (MqttClient.is_success rc)) _)
            λ _ b. elim (Option-cases b.m_mosq) [
              | inl e ↦
                  rw e (set_up-Spares client_id username password ssl (record b { m_mosq = none }))
              | inr (h, e) ↦ rw e refl
            ]

  connect_client-Spares :
      (name : String) (bind : Option String) (port keepalive : ℤ)
      → Spares host (State.connect_client {p = lua_platform host} name bind port keepalive)
  connect_client-Spares name none port keepalive c =
      connect-Spares name port keepalive c.m_mqtt_client.base
  connect_client-Spares name (some bind) port keepalive c =
      connect_bind-Spares name bind port keepalive c.m_mqtt_client.base

  connect_to-Spares :
      (name : String) (config : ControllerConfig)
      → Spares host (State.connect_to {p = lua_platform host} name config)
  unfolding State.connect_to Setters.set_message_callback Setters.set_connect_callback
  connect_to-Spares name config =
      let test : Bool = leb_ℤ config.port (pos 0) || ltb_ℤ (pos 65535) config.port in
      let keepalive = if leb_ℤ config.keepalive (pos 0) then pos 60 else config.keepalive in
      let client =
        State.connect_client {p = lua_platform host} name config.bind_address config.port
          keepalive in
      let configured = State.on_client {p = lua_platform host} (
        MqttClientSingleThread.configure config.client_id config.username config.password
          (some config.ssl_config)) in
      >>=-Keeps {p = lua_platform host} (machine_of host)
        (throw_if test (runtime_error "Invalid MQTT port"))
        (λ _. State.install_callbacks {p = lua_platform host} >> (configured >> client))
        (thrown test)
        λ _.
          >>=-Keeps {p = lua_platform host} (machine_of host)
            (State.install_callbacks {p = lua_platform host}) (λ _. configured >> client)
            (λ c. refl)
            λ _.
              >>=-Keeps {p = lua_platform host} (machine_of host) configured (λ _. client)
                (λ c.
                  configure-Spares config.client_id config.username config.password
                    (some config.ssl_config) c.m_mqtt_client.base)
                (λ _. connect_client-Spares name config.bind_address config.port keepalive)
    where
      thrown : (test : Bool) → Spares host (throw_if test (runtime_error "Invalid MQTT port"))
      thrown true c = refl
      thrown false c = refl

  host-Spares :
      (name : Option String) (config : ControllerConfig)
      → config.host ≡ name
      → Spares host (State.connect {p = lua_platform host} config)
  unfolding State.connect
  host-Spares none config e c = rw e refl
  host-Spares (some name) config e c = rw e (connect_to-Spares name config c)

  pub controller_connect-Spares :
      (config : ControllerConfig) → Spares host (State.connect {p = lua_platform host} config)
  controller_connect-Spares config = host-Spares config.host config refl
