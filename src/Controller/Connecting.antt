-- ===== src/Controller/Connecting.antt =====
-- controller.cpp, `connect`: which configurations are refused, and which of their fields matter.
use things_mqtt_lua.Prelude.{◌≡◌, ◌⊎◌, Bool, false, Option, none, some, String, arith}
use things_mqtt_lua.Prelude.Int.{pos, ◌≤ℤ◌}
use things_mqtt_lua.Prelude.Effect.{Void, runtime_error, Result, ok, raised}
use things_mqtt_lua.MqttClient
use things_mqtt_lua.MqttClient.{MqttClient, is_success, MqttSslConfig}
use things_mqtt_lua.MqttClient.Setters.{set_connect_callback, set_message_callback}
use things_mqtt_lua.MqttClient.Setup.{configure-Fails, configure-configured}
use things_mqtt_lua.MqttClientSingleThread.{lib_init, after_configure}
use things_mqtt_lua.Platform.{Platform}
use things_mqtt_lua.Controller.State.{
  Closure, calls_on_mqtt_connect, calls_on_mqtt_message, Controller, ControllerConfig, connect,
  connect_to,
}

module _ (p : Platform) where
  -- the client as `connect` hands it to `configure`
  abbrev with_callbacks : Controller p → MqttClient p.mosquitto Closure
  with_callbacks c = record (c.m_mqtt_client.base) {
    m_connect_callback = some calls_on_mqtt_connect;
    m_message_callback = some calls_on_mqtt_message;
  }

  -- Without a host, and else with a port outside 1 to 65535, `connect` throws and the controller and
  -- the world are as before.
  connect_rejects :
      (config : ControllerConfig) (c : Controller p)
      → (config.host ≡ none) ⊎ ¬ ((pos 1 ≤ℤ config.port) × (config.port ≤ℤ pos 65535))
      → ((config.host ≡ none)
          × (connect {p = p} config c ≡ (raised (runtime_error "MQTT host is not set"), c)))
        ⊎ (connect {p = p} config c ≡ (raised (runtime_error "Invalid MQTT port"), c))
  unfolding connect connect_to
  connect_rejects config c h = ground arith

  -- The two switches of the TLS configuration that ask for verification change nothing.
  connect_ignores_verify :
      (config : ControllerConfig) (peer hostname : Bool) (c : Controller p)
      → let ssl = record (config.ssl_config) { verify_peer = peer; verify_hostname = hostname } in
        connect {p = p} (record config { ssl_config = ssl }) c ≡ connect {p = p} config c
  unfolding connect connect_to MqttClient.configure MqttClient.set_up MqttClient.set_tls
  connect_ignores_verify config peer hostname c = ground arith

  -- Once the client has a handle, the client identifier, the credentials and the TLS files of a later
  -- `connect` change nothing: those of the first stay.
  connect_again_ignores_credentials :
      (config : ControllerConfig) (client_id username password : Option String)
      (ssl : MqttSslConfig) (h : p.mosquitto.Handle) (c : Controller p)
      → c.m_mqtt_client.m_mosq ≡ some h
      → connect {p = p}
          (record config {
            client_id = client_id;
            username = username;
            password = password;
            ssl_config = ssl;
          })
          c
        ≡ connect {p = p} config c
  unfolding connect connect_to lib_init set_connect_callback set_message_callback
  connect_again_ignores_credentials config client_id username password ssl h c e = ground (
    arith,
    configure-configured lib_init after_configure client_id username password (some ssl)
        (with_callbacks c) h e,
    configure-configured lib_init after_configure config.client_id config.username config.password
        (some config.ssl_config) (with_callbacks c) h e,
  )

  -- How a `connect` ends that cannot go through: it throws, and there is no handle.
  abbrev pub FailsUnconfigured : Result Void × Controller p → Type 0
  FailsUnconfigured (ok _, c) = ⊥
  FailsUnconfigured (raised _, c) = c.m_mqtt_client.m_mosq ≡ none

  -- If the library refuses a TLS configuration without a CA file, as its documentation says of one
  -- that has neither a CA file nor a CA path, then `connect` of a client without a handle, with a
  -- configuration that names no CA file, throws, and leaves the client without a handle.
  pub connect_without_ca :
      (config : ControllerConfig) (c : Controller p)
      → ((h : Option p.mosquitto.Handle) (cert key : Option String) (w : p.World)
          → is_success (p.mosquitto.tls_set h none cert key w).0 ≡ false)
      → c.m_mqtt_client.m_mosq ≡ none
      → config.ssl_config.ca_file ≡ none
      → FailsUnconfigured (connect {p = p} config c)
  unfolding connect connect_to lib_init set_connect_callback set_message_callback
  connect_without_ca config c refused fresh no_ca = ground (
    arith,
    configure-Fails lib_init after_configure config.client_id config.username config.password
        config.ssl_config (with_callbacks c) fresh
        (λ h w. rw no_ca (refused h config.ssl_config.cert_file config.ssl_config.key_file w)),
  )
