-- ===== src/MqttClient.antt =====
-- mqtt/mqtt-client.hpp and mqtt/mqtt-client.cpp: `class MqttClient`, the part that the two clients
-- share. An object and the world behind libmosquitto are one record, `MqttClient`. The virtual
-- methods that `configure` calls are its first two arguments.
pub mod Codes
pub mod Setters
pub mod Resubscribing
pub mod Setup
pub mod Subscriptions
pub mod Handle
pub mod Lifetime
use things_mqtt_lua.Prelude.{
  ℕ, ◌≡◌, Bool, true, false, not, Option, none, some, String, List, [], ◌∷◌, ◌++◌, modify, map,
  if◌then◌else◌, ◌==◌, ◌&&◌, suc, string_eq,
}
use things_mqtt_lua.Prelude.Int.{ℤ, to_int32}
use things_mqtt_lua.Prelude.Effect.{
  Exception, runtime_error, invalid_argument, bad_alloc, Result, ok, raised, Action, Void, pure,
  throw, throw_if, gets, put, when, ◌>>=◌, ◌>>◌,
}
use things_mqtt_lua.Mosquitto.{
  Mosquitto, MosqErr, success, no_conn, conn_lost, other, Errno, enomem, einval, other_errno, Run,
}
use Prim.Native.String.{len}
use Codes.{MqttQos}

pub record MqttSslConfig : Type 0 where
  pub ca_file : Option String
  pub cert_file : Option String
  pub key_file : Option String
  pub verify_peer : Bool
  pub verify_hostname : Bool

-- `MqttSslConfig{}`
abbrev pub default_ssl_config : MqttSslConfig
default_ssl_config = record {
  ca_file = none;
  cert_file = none;
  key_file = none;
  verify_peer = true;
  verify_hostname = true;
}

-- `C` is the type of the closures that the callbacks hold; `none` is an empty `std::function`.
pub record MqttClient (m : Mosquitto) (C : Type 0) : Type 0 where
  pub world : m.World
  pub m_mosq : Option m.Handle
  pub m_qos_subscriptions : List (List String)
  pub m_connect_callback : Option C
  pub m_disconnect_callback : Option C
  pub m_publish_callback : Option C
  pub m_message_callback : Option C
  pub m_subscribe_callback : Option C
  pub m_unsubscribe_callback : Option C

abbrev pub is_success : MosqErr → Bool
is_success success = true
is_success _ = false

abbrev pub is_no_conn : MosqErr → Bool
is_no_conn no_conn = true
is_no_conn _ = false

-- `std::remove_if` with the comparison to `topic`, then `erase`
unfoldable pub remove_topic : String → List String → List String
remove_topic topic [] = []
remove_topic topic (t ∷ ts) =
    if t == topic then remove_topic topic ts else t ∷ remove_topic topic ts

module _ {m : Mosquitto} {C : Type 0} where
  -- A new object, in a world that is there already.
  unfoldable pub new : m.World → MqttClient m C
  new w = record {
    world = w;
    m_mosq = none;
    m_qos_subscriptions = [] ∷ [] ∷ [] ∷ [];
    m_connect_callback = none;
    m_disconnect_callback = none;
    m_publish_callback = none;
    m_message_callback = none;
    m_subscribe_callback = none;
    m_unsubscribe_callback = none;
  }

  -- A call of the library: it moves the world and returns a value.
  abbrev pub call : {A : Type 0} → (m.World → A × m.World) → Action (MqttClient m C) A
  call f c = let (a, w) = f c.world in (ok a, record c { world = w })

  abbrev pub tell : (m.World → m.World) → Action (MqttClient m C) Void
  tell f = put (λ c. record c { world = f c.world })

  -- `mosquitto_destroy(m_mosq); m_mosq = nullptr;`
  abbrev pub destroy : Action (MqttClient m C) Void
  destroy = put (λ c. record c { world = m.destroy c.m_mosq c.world; m_mosq = none })

  -- `MqttClient::~MqttClient`
  unfoldable pub destruct : MqttClient m C → m.World
  destruct c = elim c.m_mosq [
    | none ↦ m.lib_cleanup c.world
    | some h ↦ m.lib_cleanup (m.destroy (some h) c.world)
  ]

  abbrev pub errno_error : Errno → Action (MqttClient m C) Void
  errno_error enomem = throw bad_alloc
  errno_error einval = throw (invalid_argument "Invalid input parameters to mosquitto_new")
  errno_error (other_errno _) = pure tt

  abbrev pub set_handle : Option m.Handle → Action (MqttClient m C) Void
  set_handle h = put (λ c. record c { m_mosq = h })

  -- `m_mosq = mosquitto_new(...)` and the test of `errno`, which lets any other value through
  unfoldable pub create : Option String → Action (MqttClient m C) Void
  create client_id = do
    h ← call (m.new client_id true)
    set_handle h
    c ← gets (λ c. c)
    elim h [ none ↦ errno_error (m.errno c.world) | some _ ↦ pure tt ]

  unfoldable pub set_credentials : Option String → Option String → Action (MqttClient m C) Void
  set_credentials none password = pure tt
  set_credentials (some username) password = do
    c ← gets (λ c. c)
    rc ← call (m.username_pw_set c.m_mosq username password)
    when (not (is_success rc))
        (destroy >> throw (runtime_error "Failed to set username and password"))

  unfoldable pub set_tls : Option MqttSslConfig → Action (MqttClient m C) Void
  set_tls none = pure tt
  set_tls (some ssl) = do
    c ← gets (λ c. c)
    rc ← call (m.tls_set c.m_mosq ssl.ca_file ssl.cert_file ssl.key_file)
    when (not (is_success rc)) (destroy >> throw (runtime_error "Failed to set TLS configuration"))

  abbrev pub set_reconnect_delay : Action (MqttClient m C) Void
  set_reconnect_delay =
      put (λ c. record c { world = m.reconnect_delay_set c.m_mosq 1 30 true c.world })

  -- what `configure` does to a client that has no handle yet
  unfoldable pub set_up :
      Action (MqttClient m C) Void
      → Option String
      → Option String
      → Option String
      → Option MqttSslConfig
      → Action (MqttClient m C) Void
  set_up after_configure client_id username password ssl_config = do
    create client_id
    set_credentials username password
    set_tls ssl_config
    set_reconnect_delay
    after_configure

  unfoldable pub configure :
      Action (MqttClient m C) MosqErr
      → Action (MqttClient m C) Void
      → Option String
      → Option String
      → Option String
      → Option MqttSslConfig
      → Action (MqttClient m C) Void
  configure lib_init after_configure client_id username password ssl_config = do
    rc ← lib_init
    throw_if (not (is_success rc)) (runtime_error "Failed to initialize MQTT library")
    c ← gets (λ c. c)
    elim c.m_mosq [
      | some _ ↦ pure tt
      | none ↦ set_up after_configure client_id username password ssl_config
    ]

  unfoldable pub connect : String → ℤ → ℤ → Action (MqttClient m C) Void
  connect host port keepalive = do
    c ← gets (λ c. c)
    rc ← call (m.connect c.m_mosq host port keepalive)
    throw_if (not (is_success rc)) (runtime_error "Failed to connect to MQTT broker")

  -- the overload with a local address
  unfoldable pub connect_bind : String → String → ℤ → ℤ → Action (MqttClient m C) Void
  connect_bind host bind_address port keepalive = do
    c ← gets (λ c. c)
    rc ← call (m.connect_bind c.m_mosq host port keepalive bind_address)
    throw_if (not (is_success rc)) (runtime_error "Failed to connect to MQTT broker")

  -- The library may call back, so this is a `Run`, which the derived client carries out.
  unfoldable pub disconnect : MqttClient m C → Run m.World
  disconnect c = m.disconnect c.m_mosq c.world

  unfoldable pub subscribe : String → MqttQos → Action (MqttClient m C) Void
  subscribe topic qos = do
    c ← gets (λ c. c)
    rc ← call (m.subscribe c.m_mosq topic qos)
    throw_if (not (is_success rc) && not (is_no_conn rc))
        (runtime_error "Failed to subscribe to topic")
    put (λ c. record c {
      m_qos_subscriptions = modify c.m_qos_subscriptions qos (λ ts. ts ++ topic ∷ []);
    })

  unfoldable pub unsubscribe : String → Action (MqttClient m C) Void
  unfolding remove_topic
  unsubscribe topic = do
    c ← gets (λ c. c)
    rc ← call (m.unsubscribe c.m_mosq topic)
    throw_if (not (is_success rc) && not (is_no_conn rc))
        (runtime_error "Failed to unsubscribe from topic")
    put (λ c. record c { m_qos_subscriptions = map (remove_topic topic) c.m_qos_subscriptions })

  abbrev pub publish_result : MosqErr → ℤ → Action (MqttClient m C) (Bool × ℤ)
  publish_result success mid = pure (true, mid)
  publish_result no_conn mid = pure (false, mid)
  publish_result _ mid = throw (runtime_error "Failed to publish message")

  -- The result and what the library stores through `message_id`, where that is given.
  unfoldable pub publish : String → String → MqttQos → Bool → Action (MqttClient m C) (Bool × ℤ)
  publish topic payload qos retain c =
      let (rc, mid, w) =
        m.publish c.m_mosq topic (to_int32 (len payload)) payload qos retain c.world in
      publish_result rc mid (record c { world = w })
