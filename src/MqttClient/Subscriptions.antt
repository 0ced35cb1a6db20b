-- ===== src/MqttClient/Subscriptions.antt =====
-- mqtt/mqtt-client.cpp: `subscribe`, `unsubscribe` and `publish`, on each answer of the library.
use Prim.Native.String.{len}
use text.Mathlib.TextEquality.{eq_iff}
use things_mqtt_lua.Prelude.{
  zero, suc, ◌∙◌, ◌<◌, ◌^◌, ◌≡◌, ◌≢◌, refl, ◌↔◌, ◌⊎◌, Bool, true, false, List, [], ◌∷◌, ◌++◌, map,
  String, if◌then◌else◌, ◌==◌, string_eq, arith, modify, get_or, length, length-modify,
  get_or-modify_self, get_or-modify_ne,
}
use things_mqtt_lua.Prelude.Int.{ℤ, pos, to_int32-eq_of_lt}
use things_mqtt_lua.Prelude.Dict.{contains}
use things_mqtt_lua.Prelude.Effect.{ok, raised, runtime_error}
use things_mqtt_lua.Mosquitto.{Mosquitto, MosqErr, success, no_conn}
use things_mqtt_lua.MqttClient.{MqttClient, subscribe, unsubscribe, publish, remove_topic}
use things_mqtt_lua.MqttClient.Codes.{MqttQos}

-- Whether a topic is in the list kept for a level of service.
abbrev pub is_kept : String → MqttQos → List (List String) → Bool
is_kept topic qos lists = contains topic (get_or lists qos [])

-- The answers that `subscribe` and `unsubscribe` let pass: success, and no connection.
abbrev pub Passes : MosqErr → Type 0
Passes rc = (rc ≡ success) ⊎ (rc ≡ no_conn)

contains-remove_topic :
    (t topic : String) (ts : List String)
    → contains t (remove_topic topic ts) ≡ (if topic == t then false else contains t ts)
unfolding remove_topic
contains-remove_topic t topic [] = ground arith
contains-remove_topic t topic (x ∷ ts) =
    ground (arith, contains-remove_topic t topic ts, eq_iff x topic, eq_iff x t, eq_iff topic t)

is_kept-map :
    (t topic : String) (lists : List (List String)) (qos : MqttQos)
    → is_kept t qos (map (remove_topic topic) lists)
      ≡ (if topic == t then false else is_kept t qos lists)
is_kept-map t topic [] qos = ground arith
is_kept-map t topic (ts ∷ lists) zero = contains-remove_topic t topic ts
is_kept-map t topic (ts ∷ lists) (suc qos) = is_kept-map t topic lists qos

module _ {m : Mosquitto} {C : Type 0} where
  -- the answer of the library to a subscription, and the world after it
  abbrev pub asked : String → MqttQos → MqttClient m C → MosqErr × m.World
  asked topic qos c = m.subscribe c.m_mosq topic qos c.world

  pub subscribe-Passes :
      (topic : String) (qos : MqttQos) (c : MqttClient m C)
      → Passes (asked topic qos c).0
      → subscribe topic qos c ≡ (
        ok tt,
        record c {
          world = (asked topic qos c).1;
          m_qos_subscriptions = modify c.m_qos_subscriptions qos (λ ts. ts ++ topic ∷ []);
        },
      )
  unfolding subscribe
  subscribe-Passes topic qos c passes = ground arith

  -- On a client with three lists of subscriptions, and for a level of service below 3, if the
  -- library accepts the subscription or has no connection, `subscribe` returns, the list of that
  -- level has the topic at its end, and the other lists are as before.
  pub subscribe_keeps :
      (topic : String) (qos : MqttQos) (c : MqttClient m C)
      → length c.m_qos_subscriptions ≡ 3
      → qos < 3
      → Passes (asked topic qos c).0
      → let (r, c') = subscribe topic qos c in
        (r ≡ ok tt)
        × (length c'.m_qos_subscriptions ≡ 3)
        × (get_or c'.m_qos_subscriptions qos [] ≡ get_or c.m_qos_subscriptions qos [] ++ topic ∷ [])
        × ((other_qos : MqttQos)
            → qos ≢ other_qos
            → get_or c'.m_qos_subscriptions other_qos []
              ≡ get_or c.m_qos_subscriptions other_qos [])
  subscribe_keeps topic qos c three small passes = rw (subscribe-Passes topic qos c passes) (
    refl,
    length-modify c.m_qos_subscriptions qos (λ ts. ts ++ topic ∷ []) ∙ three,
    get_or-modify_self c.m_qos_subscriptions qos (λ ts. ts ++ topic ∷ []) [] (omega arith),
    λ other_qos ne.
        get_or-modify_ne c.m_qos_subscriptions qos other_qos (λ ts. ts ++ topic ∷ []) [] ne,
  )

  -- With any other answer `subscribe` throws and keeps the lists as they were.
  pub subscribe_refused :
      (topic : String) (qos : MqttQos) (c : MqttClient m C)
      → ¬ (Passes (asked topic qos c).0)
      → subscribe topic qos c ≡ (
        raised (runtime_error "Failed to subscribe to topic"),
        record c { world = (asked topic qos c).1 },
      )
  unfolding subscribe
  subscribe_refused topic qos c refused = ground arith

  -- If the library accepts, or has no connection, `unsubscribe` returns, takes the topic out of
  -- the lists of all levels of service, and keeps every other topic.
  pub unsubscribe_removes :
      (topic : String) (c : MqttClient m C)
      → Passes (m.unsubscribe c.m_mosq topic c.world).0
      → let (r, c') = unsubscribe topic c in
        (r ≡ ok tt)
        × ((t : String) (qos : MqttQos)
            → is_kept t qos c'.m_qos_subscriptions
              ≡ (if topic == t then false else is_kept t qos c.m_qos_subscriptions))
  unfolding unsubscribe
  unsubscribe_removes topic c passes =
      (ground arith, λ t qos. ground (arith, is_kept-map t topic c.m_qos_subscriptions qos))

  -- the answer of the library to a publication, and the world after it
  abbrev pub answered :
      String → ℤ → String → MqttQos → Bool → MqttClient m C → MosqErr × ℤ × m.World
  answered topic size payload qos retain c =
      m.publish c.m_mosq topic size payload qos retain c.world

  -- If the size of the payload is below 2³¹, `publish` hands that size to the library. It returns
  -- true exactly if the library succeeds and false exactly if there is no connection; it throws
  -- exactly if the library answers otherwise; and it changes the world alone.
  pub publish_answers :
      (topic payload : String) (qos : MqttQos) (retain : Bool) (c : MqttClient m C)
      → len payload < 2 ^ 31
      → let (rc, mid, w) = answered topic (pos (len payload)) payload qos retain c in
        let (r, c') = publish topic payload qos retain c in
        ((rc ≡ success) ↔ (r ≡ ok (true, mid)))
        × ((rc ≡ no_conn) ↔ (r ≡ ok (false, mid)))
        × (¬ (Passes rc) ↔ (r ≡ raised (runtime_error "Failed to publish message")))
        × (c' ≡ record c { world = w })
  unfolding publish
  publish_answers topic payload qos retain c small =
      rw (to_int32-eq_of_lt (len payload) small) (ground arith)
