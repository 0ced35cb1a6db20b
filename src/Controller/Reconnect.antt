-- ===== src/Controller/Reconnect.antt =====
-- controller.cpp, `onMqttConnect`: what an accepted connection sends, in which order, and what stays
-- when a call throws.
use Prim.Native.String.{len}
use things_mqtt_lua.Prelude.{
  ◌≡◌, ◌≢◌, refl, ◌∙◌, sym, ap, ◌⊎◌, inl, inr, true, false, Option, some, List, [], ◌∷◌, ◌++◌,
  String, if◌then◌else◌, arith, modify,
}
use things_mqtt_lua.Prelude.Int.{to_int32}
use things_mqtt_lua.Prelude.Effect.{
  Void, ◌>>◌, >>-ok, >>=-raised, Result, ok, raised, runtime_error,
}
use things_mqtt_lua.Mosquitto.{MosqErr}
use things_mqtt_lua.MqttClient
use things_mqtt_lua.MqttClient.{MqttClient}
use things_mqtt_lua.MqttClient.Codes.{MqttConnectRc, is_accepted}
use things_mqtt_lua.Platform.{Platform}
use things_mqtt_lua.Controller.State.{Controller, is_connected, is_empty, tail}
use things_mqtt_lua.Controller.Payload.{collect_all}
use things_mqtt_lua.Controller.Sending.{publish, send_attributes}
use things_mqtt_lua.Controller.Reactions.{
  pop_pending, rpc_filter, send_pending, send_all_attributes, send_all_pending, on_accepted,
  on_mqtt_connect,
}
use things_mqtt_lua.Controller.Outbox.{
  published, with_world, Returns, publish-Returns, publish-cases,
}

module _ (p : Platform) where
  -- What the library returns for a telemetry payload, and the world after it.
  abbrev pub sent : Option p.mosquitto.Handle → String → p.World → MosqErr × p.World
  sent h text w =
      let (rc, mid, w') =
        p.mosquitto.publish h p.telemetry_topic (to_int32 (len text)) text 1 false w in
      (rc, w')

  -- The world after the payloads are published to the telemetry topic, in order.
  abbrev pub publish_in_order : Option p.mosquitto.Handle → List String → p.World → p.World
  publish_in_order h [] w = w
  publish_in_order h (text ∷ texts) w = publish_in_order h texts (sent h text w).1

  -- Each of the publications returns.
  abbrev pub AllReturn : Option p.mosquitto.Handle → List String → p.World → Type 0
  AllReturn h [] w = Unit
  AllReturn h (text ∷ texts) w = Returns p (sent h text w).0 × AllReturn h texts (sent h text w).1

  -- The controller with one payload published and taken from the queue.
  abbrev step : Controller p → String → List String → Controller p
  step c text texts = record (with_world p (published p c p.telemetry_topic text).1 c) {
    m_pending_telemetry = texts;
  }

  send_pending-cons :
      (c : Controller p) (text : String) (texts : List String)
      → c.m_pending_telemetry ≡ text ∷ texts
      → publish {p = p} p.telemetry_topic text c
        ≡ (ok tt, with_world p (published p c p.telemetry_topic text).1 c)
      → send_pending {p = p} (text ∷ texts) c ≡ send_pending {p = p} texts (step c text texts)
  unfolding send_pending
  send_pending-cons c text texts e h =
      >>-ok (publish {p = p} p.telemetry_topic text) c _ (pop_pending >> send_pending {p = p} texts)
        h
      ∙ (ap
          (λ rest.
            send_pending {p = p} texts
              (record (with_world p (published p c p.telemetry_topic text).1 c) {
                m_pending_telemetry = tail rest;
              }))
          e)

  -- The loop over the queue publishes it from the front, and leaves it empty, if every publication
  -- returns.
  pub send_pending_lem :
      (texts : List String) (c : Controller p)
      → c.m_pending_telemetry ≡ texts
      → AllReturn c.m_mqtt_client.m_mosq texts c.m_mqtt_client.world
      → send_pending {p = p} texts c ≡ (
        ok tt,
        record (with_world p
            (publish_in_order c.m_mqtt_client.m_mosq texts c.m_mqtt_client.world)
            c) { m_pending_telemetry = [] },
      )
  unfolding send_pending
  send_pending_lem [] c e h = ap (λ rest. (ok tt, record c { m_pending_telemetry = rest })) e
  send_pending_lem (text ∷ texts) c e h =
      send_pending-cons c text texts e (publish-Returns p c p.telemetry_topic text h.0)
      ∙ send_pending_lem texts (step c text texts) refl h.1

  -- How the loop over the queue ends: it returns with nothing left, or a publication throws with
  -- its payload left.
  abbrev pub Ends : Result Void × Controller p → Type 0
  Ends (r, c) =
      ((r ≡ ok tt) × (c.m_pending_telemetry ≡ []))
      ⊎ ((r ≡ raised (runtime_error "Failed to publish message")) × (c.m_pending_telemetry ≢ []))

  -- Whatever the library answers, the loop over the queue takes payloads from its front alone:
  -- what is left is an end of the queue. It returns with nothing left, or throws with some payload
  -- left.
  pub send_pending_rest :
      (texts : List String) (c : Controller p)
      → c.m_pending_telemetry ≡ texts
      → Ends (send_pending {p = p} texts c)
        × (gone : List String) × (texts
            ≡ gone ++ (send_pending {p = p} texts c).1.m_pending_telemetry)
  unfolding send_pending
  send_pending_rest [] c e = (inl (refl, e), [], sym e)
  send_pending_rest (text ∷ texts) c e = elim (publish-cases p c p.telemetry_topic text) [
    | inl returned ↦
        let (ends, gone, split) = send_pending_rest texts (step c text texts) refl in
        rw (send_pending-cons c text texts e returned) (ends, text ∷ gone, ap (◌∷◌ text) split)
    | inr thrown ↦
        rw
          (>>=-raised (publish {p = p} p.telemetry_topic text) c _
            (λ _. pop_pending >> send_pending {p = p} texts) thrown)
          (inr (refl, λ none_left. cc), [], sym e)
  ]

  -- What the library returns for the subscription to remote procedure calls, and the world after it.
  abbrev pub subscribed : Controller p → MosqErr × p.World
  subscribed c = p.mosquitto.subscribe c.m_mqtt_client.m_mosq (rpc_filter p) 2 c.m_mqtt_client.world

  abbrev pub after_subscribe : Controller p → Controller p
  after_subscribe c =
      let m = c.m_mqtt_client in
      let lists = modify m.m_qos_subscriptions 2 (λ ts. ts ++ rpc_filter p ∷ []) in
      record c {
        m_mqtt_client = record m {
          base = record (m.base) { world = (subscribed c).1; m_qos_subscriptions = lists };
        };
      }

  abbrev pub after_attributes : String → Controller p → Controller p
  after_attributes text c =
      if is_empty c.m_attribute_data
      then c
      else with_world p (published p c p.attributes_topic text).1 c

  abbrev pub after_pending : Controller p → Controller p
  after_pending c =
      let m = c.m_mqtt_client in
      record (with_world p (publish_in_order m.m_mosq c.m_pending_telemetry m.world) c) {
        m_pending_telemetry = [];
      }

  -- When the broker accepts the connection, the client is connected, the attributes can be dumped
  -- and every call of the library succeeds or finds no connection, the controller subscribes to
  -- remote procedure calls, publishes all attributes in one message if there are any, publishes
  -- the queued telemetry in the order in which it was queued, and leaves the queue empty.
  pub on_mqtt_connect_accepted :
      (c : Controller p) (rc : MqttConnectRc) (text : String)
      → is_accepted rc ≡ true
      → is_connected {p = p} c ≡ true
      → Returns p (subscribed c).0
      → p.json.dump (collect_all p.json c.m_attribute_data p.json.null) ≡ some text
      → Returns p (published p (after_subscribe c) p.attributes_topic text).0
      → AllReturn c.m_mqtt_client.m_mosq c.m_pending_telemetry
          (after_attributes text (after_subscribe c)).m_mqtt_client.world
      → on_mqtt_connect {p = p} rc c
        ≡ (ok tt, after_pending (after_attributes text (after_subscribe c)))
  unfolding on_mqtt_connect on_accepted send_all_attributes send_all_pending MqttClient.subscribe
      send_attributes is_connected
  on_mqtt_connect_accepted c rc text accepted online s d a all = ground (
    arith,
    publish-Returns p (after_subscribe c) p.attributes_topic text a,
    send_pending_lem c.m_pending_telemetry (after_attributes text (after_subscribe c)),
  )
