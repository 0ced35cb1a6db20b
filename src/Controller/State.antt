-- ===== src/Controller/State.antt =====
-- controller.hpp, and `connect` of controller.cpp: the state of `class Controller`.
use things_mqtt_lua.Prelude.{
  ℕ, Bool, true, false, ◌||◌, Option, none, some, List, [], ◌∷◌, String, if◌then◌else◌, string_eq,
  nat_eq,
}
use things_mqtt_lua.Prelude.Int.{ℤ, pos, leb_ℤ, ltb_ℤ}
use things_mqtt_lua.Prelude.Dict.{Dict}
use things_mqtt_lua.Prelude.Effect.{runtime_error, Action, Void, throw, throw_if, put, ◌>>◌}
use things_mqtt_lua.MqttClient
use things_mqtt_lua.MqttClient.Setters
use things_mqtt_lua.MqttClient.{MqttClient, MqttSslConfig, default_ssl_config}
use things_mqtt_lua.MqttClient.Codes.{mqtt_default_port}
use things_mqtt_lua.MqttClientSingleThread
use things_mqtt_lua.MqttClientSingleThread.{MqttClientSingleThread, Owner}
use things_mqtt_lua.Platform.{Platform}

pub record ControllerConfig : Type 0 where
  pub host : Option String
  pub port : ℤ
  pub bind_address : Option String
  pub keepalive : ℤ
  pub client_id : Option String
  pub username : Option String
  pub password : Option String
  pub ssl_config : MqttSslConfig

-- `ControllerConfig{}`
abbrev pub default_config : ControllerConfig
default_config = record {
  host = none;
  port = mqtt_default_port;
  bind_address = none;
  keepalive = pos 60;
  client_id = none;
  username = none;
  password = none;
  ssl_config = default_ssl_config;
}

-- The two lambdas that `connect` installs; they hold `this` alone.
pub data Closure : Type 0 where
  calls_on_mqtt_connect calls_on_mqtt_message : Closure

pub record Controller (p : Platform) : Type 0 where
  pub m_mqtt_client : MqttClientSingleThread p.mosquitto Closure
  pub m_telemetry_data : Dict String p.Value
  pub m_tainted_telemetry_keys : List String
  pub m_attribute_data : Dict String p.Value
  pub m_tainted_attribute_keys : List String
  pub m_pending_telemetry : List String
  pub m_rpc_handlers : Dict ℕ p.RpcHandler

abbrev pub is_empty {ℓ} : {A : Type ℓ} → List A → Bool
is_empty [] = true
is_empty (x ∷ xs) = false

abbrev pub tail {ℓ} : {A : Type ℓ} → List A → List A
tail [] = []
tail (x ∷ xs) = xs

module _ {p : Platform} where
  unfoldable pub new : p.World → Controller p
  new w = record {
    m_mqtt_client = MqttClientSingleThread.new w;
    m_telemetry_data = [];
    m_tainted_telemetry_keys = [];
    m_attribute_data = [];
    m_tainted_attribute_keys = [];
    m_pending_telemetry = [];
    m_rpc_handlers = [];
  }

  abbrev pub on_client :
      {A : Type 0} → Action (MqttClientSingleThread p.mosquitto Closure) A → Action (Controller p) A
  on_client f c = let (r, m) = f c.m_mqtt_client in (r, record c { m_mqtt_client = m })

  abbrev pub on_base :
      {A : Type 0} → Action (MqttClient p.mosquitto Closure) A → Action (Controller p) A
  on_base f = on_client (MqttClientSingleThread.on_base f)

  unfoldable pub is_connected : Controller p → Bool
  unfolding MqttClientSingleThread.is_connected
  is_connected c = MqttClientSingleThread.is_connected c.m_mqtt_client

  -- the two lambdas, installed
  abbrev pub install_callbacks : Action (Controller p) Void
  install_callbacks = do
    on_base (put (Setters.set_connect_callback (some calls_on_mqtt_connect)))
    on_base (put (Setters.set_message_callback (some calls_on_mqtt_message)))

  abbrev pub connect_client : String → Option String → ℤ → ℤ → Action (Controller p) Void
  connect_client host none port keepalive = on_base (MqttClient.connect host port keepalive)
  connect_client host (some bind_address) port keepalive =
      on_base (MqttClient.connect_bind host bind_address port keepalive)

  -- `connect` once the host is known to be set
  unfoldable pub connect_to : String → ControllerConfig → Action (Controller p) Void
  connect_to host config = do
    throw_if (leb_ℤ config.port (pos 0) || ltb_ℤ (pos 65535) config.port)
        (runtime_error "Invalid MQTT port")
    let keepalive = if leb_ℤ config.keepalive (pos 0) then pos 60 else config.keepalive
    install_callbacks
    on_client (
        MqttClientSingleThread.configure config.client_id config.username config.password
          (some config.ssl_config))
    connect_client host config.bind_address config.port keepalive

  abbrev connect_host : Option String → ControllerConfig → Action (Controller p) Void
  connect_host none config = throw (runtime_error "MQTT host is not set")
  connect_host (some host) config = connect_to host config

  unfoldable pub connect : ControllerConfig → Action (Controller p) Void
  unfolding connect_to
  connect config = connect_host config.host config
