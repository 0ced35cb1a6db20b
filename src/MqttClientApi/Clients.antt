-- ===== src/MqttClientApi/Clients.antt =====
-- mqtt/mqtt-client-singlethread.* and mqtt/mqtt-client-threadsafe.*: the two clients as `MqttClientApi`.
use Prim.Native.String.{len}
use text.Mathlib.TextEquality.{eq_iff}
use things_mqtt_lua.Prelude.{
  ◌≡◌, ◌≢◌, refl, ◌^◌, ◌<◌, ◌↔◌, Bool, true, false, [], ◌∷◌, ◌++◌, String, string_eq, length,
  get_or, arith,
}
use things_mqtt_lua.Prelude.Int.{ℤ, pos}
use things_mqtt_lua.Prelude.Effect.{runtime_error, ok, raised, pure, put, ◌>>◌}
use things_mqtt_lua.Mosquitto.{
  Mosquitto, success, no_conn, connected, disconnected, published, received, subscribed,
  unsubscribed, logged,
}
use things_mqtt_lua.MqttClient
use things_mqtt_lua.MqttClient.Setters
use things_mqtt_lua.MqttClient.{MqttClient, MqttSslConfig}
use things_mqtt_lua.MqttClient.Codes.{MqttQos}
use things_mqtt_lua.MqttClient.Resubscribing.{resubscribe}
use things_mqtt_lua.MqttClient.Subscriptions.{
  Passes, asked, is_kept, answered, subscribe_keeps, unsubscribe_removes, publish_answers,
}
use things_mqtt_lua.MqttClientSingleThread
use things_mqtt_lua.MqttClientThreadSafe
use things_mqtt_lua.MqttClientApi.{
  MqttClientApi, MqttClientVirtuals, Contract, FlagFollows, EventsKeep, ConnectingResubscribes,
}

module _ {m : Mosquitto} {C : Type 0} where
  abbrev pub single_thread : MqttClientApi m C
  single_thread = record {
    Self = MqttClientSingleThread.MqttClientSingleThread m C;
    base = λ s. s.base;
    configure = MqttClientSingleThread.configure;
    connect = λ host port keepalive.
        MqttClientSingleThread.on_base (MqttClient.connect host port keepalive);
    connect_bind = λ host bind_address port keepalive.
        MqttClientSingleThread.on_base (MqttClient.connect_bind host bind_address port keepalive);
    disconnect = λ s. MqttClient.disconnect s.base;
    subscribe = λ topic qos. MqttClientSingleThread.on_base (MqttClient.subscribe topic qos);
    unsubscribe = λ topic. MqttClientSingleThread.on_base (MqttClient.unsubscribe topic);
    publish = λ topic payload qos retain.
        MqttClientSingleThread.on_base (MqttClient.publish topic payload qos retain);
    is_connected = MqttClientSingleThread.is_connected;
    set_connect_callback = λ f s. record s { base = Setters.set_connect_callback f s.base };
    set_disconnect_callback = λ f s. record s { base = Setters.set_disconnect_callback f s.base };
    set_publish_callback = λ f s. record s { base = Setters.set_publish_callback f s.base };
    set_message_callback = λ f s. record s { base = Setters.set_message_callback f s.base };
    set_subscribe_callback = λ f s. record s { base = Setters.set_subscribe_callback f s.base };
    set_unsubscribe_callback = λ f s. record s { base = Setters.set_unsubscribe_callback f s.base };
    on_event = λ e s. (MqttClientSingleThread.handle e s).1;
  }

  abbrev pub thread_safe : MqttClientApi m C
  thread_safe = record {
    Self = MqttClientThreadSafe.MqttClientThreadSafe m C;
    base = λ s. s.base;
    configure = MqttClientThreadSafe.configure;
    connect = λ host port keepalive.
        MqttClientThreadSafe.on_base (MqttClient.connect host port keepalive);
    connect_bind = λ host bind_address port keepalive.
        MqttClientThreadSafe.on_base (MqttClient.connect_bind host bind_address port keepalive);
    disconnect = λ s. MqttClient.disconnect s.base;
    subscribe = λ topic qos. MqttClientThreadSafe.on_base (MqttClient.subscribe topic qos);
    unsubscribe = λ topic. MqttClientThreadSafe.on_base (MqttClient.unsubscribe topic);
    publish = λ topic payload qos retain.
        MqttClientThreadSafe.on_base (MqttClient.publish topic payload qos retain);
    is_connected = MqttClientThreadSafe.is_connected;
    set_connect_callback = λ f s. record s { base = Setters.set_connect_callback f s.base };
    set_disconnect_callback = λ f s. record s { base = Setters.set_disconnect_callback f s.base };
    set_publish_callback = λ f s. record s { base = Setters.set_publish_callback f s.base };
    set_message_callback = λ f s. record s { base = Setters.set_message_callback f s.base };
    set_subscribe_callback = λ f s. record s { base = Setters.set_subscribe_callback f s.base };
    set_unsubscribe_callback = λ f s. record s { base = Setters.set_unsubscribe_callback f s.base };
    on_event = MqttClientThreadSafe.handle;
  }

  abbrev pub single_thread_virtuals :
      {S : Type 0} → MqttClientSingleThread.Owner m C S → MqttClientVirtuals m C S
  single_thread_virtuals o = record {
    destruct = MqttClientSingleThread.destruct o;
    loop = λ fuel. MqttClientSingleThread.loop o >> pure true;
    lib_init = MqttClientSingleThread.lib_init;
    after_configure = MqttClientSingleThread.after_configure;
  }

  abbrev pub thread_safe_virtuals :
      {S : Type 0} → MqttClientThreadSafe.Owner m C S → MqttClientVirtuals m C S
  thread_safe_virtuals o = record {
    destruct = put (λ s. o.set_client (MqttClientThreadSafe.destruct (o.client s)) s);
    loop = MqttClientThreadSafe.loop o;
    lib_init = MqttClientThreadSafe.lib_init;
    after_configure = MqttClientThreadSafe.after_configure;
  }

  connect-answers :
      (host : String) (port keepalive : ℤ) (b : MqttClient m C)
      → let rc = (m.connect b.m_mosq host port keepalive b.world).0 in
        let r = (MqttClient.connect host port keepalive b).0 in
        ((rc ≡ success) ↔ (r ≡ ok tt))
        × ((rc ≢ success) ↔ (r ≡ raised (runtime_error "Failed to connect to MQTT broker")))
  unfolding MqttClient.connect
  connect-answers host port keepalive b = ground arith

  connect_bind-answers :
      (host bind_address : String) (port keepalive : ℤ) (b : MqttClient m C)
      → let rc = (m.connect_bind b.m_mosq host port keepalive bind_address b.world).0 in
        let r = (MqttClient.connect_bind host bind_address port keepalive b).0 in
        ((rc ≡ success) ↔ (r ≡ ok tt))
        × ((rc ≢ success) ↔ (r ≡ raised (runtime_error "Failed to connect to MQTT broker")))
  unfolding MqttClient.connect_bind
  connect_bind-answers host bind_address port keepalive b = ground arith

  single_flag : FlagFollows single_thread
  unfolding MqttClientSingleThread.is_connected MqttClientSingleThread.handle
  single_flag (connected rc) s = refl
  single_flag (disconnected rc) s = refl
  single_flag (published mid) s = refl
  single_flag (received msg) s = refl
  single_flag (subscribed mid granted) s = refl
  single_flag (unsubscribed mid) s = refl
  single_flag (logged level msg) s = refl

  thread_safe_flag : FlagFollows thread_safe
  unfolding MqttClientThreadSafe.is_connected MqttClientThreadSafe.handle
  thread_safe_flag (connected rc) s = refl
  thread_safe_flag (disconnected rc) s = refl
  thread_safe_flag (published mid) s = refl
  thread_safe_flag (received msg) s = refl
  thread_safe_flag (subscribed mid granted) s = refl
  thread_safe_flag (unsubscribed mid) s = refl
  thread_safe_flag (logged level msg) s = refl

  single_keeps : EventsKeep single_thread
  unfolding MqttClientSingleThread.handle resubscribe
  single_keeps (connected rc) s = (refl, refl)
  single_keeps (disconnected rc) s = (refl, refl)
  single_keeps (published mid) s = (refl, refl)
  single_keeps (received msg) s = (refl, refl)
  single_keeps (subscribed mid granted) s = (refl, refl)
  single_keeps (unsubscribed mid) s = (refl, refl)
  single_keeps (logged level msg) s = (refl, refl)

  single_resubscribes : ConnectingResubscribes single_thread
  unfolding MqttClientSingleThread.handle
  single_resubscribes rc s = refl

  thread_safe_keeps : EventsKeep thread_safe
  unfolding MqttClientThreadSafe.handle resubscribe
  thread_safe_keeps (connected rc) s = (refl, refl)
  thread_safe_keeps (disconnected rc) s = (refl, refl)
  thread_safe_keeps (published mid) s = (refl, refl)
  thread_safe_keeps (received msg) s = (refl, refl)
  thread_safe_keeps (subscribed mid granted) s = (refl, refl)
  thread_safe_keeps (unsubscribed mid) s = (refl, refl)
  thread_safe_keeps (logged level msg) s = (refl, refl)

  thread_safe_resubscribes : ConnectingResubscribes thread_safe
  unfolding MqttClientThreadSafe.handle
  thread_safe_resubscribes rc s = refl

  subscribe_keeps-of :
      (topic : String) (qos : MqttQos) (b : MqttClient m C)
      → length b.m_qos_subscriptions ≡ 3
      → qos < 3
      → Passes (asked topic qos b).0
      → let (r, b') = MqttClient.subscribe topic qos b in
        (r ≡ ok tt)
        × (get_or b'.m_qos_subscriptions qos [] ≡ get_or b.m_qos_subscriptions qos [] ++ topic ∷ [])
  subscribe_keeps-of topic qos b three small passes =
      let (returned, three', kept, others) = subscribe_keeps topic qos b three small passes in
      (returned, kept)

  unsubscribe_forgets :
      (topic : String) (qos : MqttQos) (b : MqttClient m C)
      → Passes (m.unsubscribe b.m_mosq topic b.world).0
      → let (r, b') = MqttClient.unsubscribe topic b in
        (r ≡ ok tt) × (is_kept topic qos b'.m_qos_subscriptions ≡ false)
  unsubscribe_forgets topic qos b passes =
      let (returned, kept) = unsubscribe_removes topic b passes in
      (returned, ground (arith, kept topic qos, eq_iff topic topic))

  publish_answers-of :
      (topic payload : String) (qos : MqttQos) (retain : Bool) (b : MqttClient m C)
      → len payload < 2 ^ 31
      → let (rc, mid, w) = answered topic (pos (len payload)) payload qos retain b in
        let r = (MqttClient.publish topic payload qos retain b).0 in
        ((rc ≡ success) ↔ (r ≡ ok (true, mid)))
        × ((rc ≡ no_conn) ↔ (r ≡ ok (false, mid)))
        × (¬ (Passes rc) ↔ (r ≡ raised (runtime_error "Failed to publish message")))
  publish_answers-of topic payload qos retain b small =
      let (sent, unsent, throws, world) = publish_answers topic payload qos retain b small in
      (sent, unsent, throws)

  -- Both clients keep what the comments of `MqttClient` promise, whatever the mosquitto library does. Of
  -- `connect` and its overload: it returns if the library answers with success, else it throws. Of
  -- `subscribe` with three lists and a level below 3, and of `unsubscribe`: if the library accepts or has
  -- no connection, it returns, and the topic is appended to the kept ones, or kept no more. Of `publish`
  -- of less than 2³¹ bytes: true if the library accepts, false if it has no connection, else it throws.
  -- Of `is_connected`: an event of the library sets the flag to whether the connection was accepted, or to
  -- false if it is a disconnection, and else leaves it. An event leaves the kept subscriptions, and that
  -- of a connection makes them again.
  pub clients_contract : Contract {C = C} single_thread × Contract {C = C} thread_safe
  clients_contract = (
    (
      λ host port keepalive s. connect-answers host port keepalive s.base,
      λ host bind_address port keepalive s.
          connect_bind-answers host bind_address port keepalive s.base,
      λ topic qos s. subscribe_keeps-of topic qos s.base,
      λ topic qos s. unsubscribe_forgets topic qos s.base,
      λ topic payload qos retain s. publish_answers-of topic payload qos retain s.base,
      single_flag,
      single_keeps,
      single_resubscribes,
    ),
    (
      λ host port keepalive s. connect-answers host port keepalive s.base,
      λ host bind_address port keepalive s.
          connect_bind-answers host bind_address port keepalive s.base,
      λ topic qos s. subscribe_keeps-of topic qos s.base,
      λ topic qos s. unsubscribe_forgets topic qos s.base,
      λ topic payload qos retain s. publish_answers-of topic payload qos retain s.base,
      thread_safe_flag,
      thread_safe_keeps,
      thread_safe_resubscribes,
    ),
  )
