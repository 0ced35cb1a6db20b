-- ===== src/Controller/Outbox.antt =====
-- controller.cpp, `send`: what one call publishes, queues, keeps and clears, on every branch.
use Prim.Native.String.{len}
use things_mqtt_lua.Prelude.{
  ◌≡◌, ap, ◌⊎◌, true, false, not, ◌||◌, none, some, [], ◌∷◌, ◌++◌, ◌*◌, String, if◌then◌else◌,
  string_eq, arith,
}
use mathlib.Core.Bool.{false≢true}
use things_mqtt_lua.Prelude.Int.{to_int32}
use things_mqtt_lua.Prelude.Effect.{ok, raised, runtime_error, type_error, ◌>>◌, put}
use things_mqtt_lua.Mosquitto.{MosqErr, success, no_conn}
use things_mqtt_lua.MqttClient.{MqttClient, is_success, is_no_conn}
use things_mqtt_lua.MqttClient
use things_mqtt_lua.Platform.{Platform}
use things_mqtt_lua.Controller.State.{Controller, is_connected, is_empty}
use things_mqtt_lua.Controller.Payload.{collect, telemetry_payload}
use things_mqtt_lua.Controller.Sending.{
  publish, send_telemetry, send_attributes, send_tainted_telemetry, send_tainted_attributes, send,
}
use things_mqtt_lua.Controller.Changed.{IsWellFormed}
use things_mqtt_lua.Controller.Contents.{collect-map}

module _ (p : Platform) where
  -- The telemetry that has changed, with the time in milliseconds.
  abbrev pub changed_telemetry : Controller p → p.Value
  changed_telemetry c =
      telemetry_payload p.json
        (collect p.json c.m_tainted_telemetry_keys p.json.null c.m_telemetry_data).0
        (p.time c.m_mqtt_client.world * 1000)

  -- The attributes that have changed.
  abbrev pub changed_attributes : Controller p → p.Value
  changed_attributes c =
      (collect p.json c.m_tainted_attribute_keys p.json.null c.m_attribute_data).0

  -- What the library returns for a publication, and the world after it.
  abbrev pub published : Controller p → String → String → MosqErr × p.World
  published c topic text =
      let b = c.m_mqtt_client.base in
      let (rc, mid, w) =
        p.mosquitto.publish b.m_mosq topic (to_int32 (len text)) text 1 false b.world in
      (rc, w)

  abbrev pub with_world : p.World → Controller p → Controller p
  with_world w c =
      let m = c.m_mqtt_client in
      record c { m_mqtt_client = record m { base = record (m.base) { world = w } } }

  -- The library took the message, or had no connection: `MqttClient::publish` returns.
  abbrev pub Returns : MosqErr → Type 0
  Returns rc = (rc ≡ success) ⊎ (rc ≡ no_conn)

  pub publish-Returns :
      (c : Controller p) (topic text : String)
      → Returns (published c topic text).0
      → publish topic text c ≡ (ok tt, with_world (published c topic text).1 c)
  unfolding publish MqttClient.publish
  publish-Returns c topic text h = ground arith

  -- Whatever the library answers, a publication moves the world alone, and returns or throws.
  pub publish-cases :
      (c : Controller p) (topic text : String)
      → (publish topic text c ≡ (ok tt, with_world (published c topic text).1 c))
        ⊎ (publish topic text c ≡ (
          raised (runtime_error "Failed to publish message"),
          with_world (published c topic text).1 c,
        ))
  unfolding publish MqttClient.publish
  publish-cases c topic text = ground arith

  -- `operator[]` adds nothing to the maps, so the bodies of `send` work on the controller itself.
  pub send_tainted_telemetry_lem :
      (c : Controller p)
      → IsWellFormed p c
      → send_tainted_telemetry {p = p} c
        ≡ (send_telemetry {p = p} (changed_telemetry c)
              >> put (λ c. record c { m_tainted_telemetry_keys = [] }))
            c
  unfolding send_tainted_telemetry
  send_tainted_telemetry_lem c w =
      ap
        (λ d.
          (send_telemetry {p = p} (changed_telemetry c)
              >> put (λ c. record c { m_tainted_telemetry_keys = [] }))
            (record c { m_telemetry_data = d }))
        (collect-map p.json c.m_tainted_telemetry_keys p.json.null c.m_telemetry_data
          w.telemetry.covers)

  pub send_tainted_attributes_lem :
      (c : Controller p)
      → IsWellFormed p c
      → send_tainted_attributes {p = p} c
        ≡ (send_attributes {p = p} (changed_attributes c)
              >> put (λ c. record c { m_tainted_attribute_keys = [] }))
            c
  unfolding send_tainted_attributes
  send_tainted_attributes_lem c w =
      ap
        (λ d.
          (send_attributes {p = p} (changed_attributes c)
              >> put (λ c. record c { m_tainted_attribute_keys = [] }))
            (record c { m_attribute_data = d }))
        (collect-map p.json c.m_tainted_attribute_keys p.json.null c.m_attribute_data
          w.attributes.covers)

  -- In a well-formed controller, if some telemetry has changed and cannot be dumped, `send`
  -- throws, and the controller, with all that waits to be sent, and the world are as before.
  pub send_undumpable :
      (c : Controller p)
      → IsWellFormed p c
      → is_empty c.m_tainted_telemetry_keys ≡ false
      → p.json.dump (changed_telemetry c) ≡ none
      → send {p = p} c ≡ (raised type_error, c)
  unfolding send send_telemetry
  send_undumpable c w some_key h = ground (arith, send_tainted_telemetry_lem c w)

  -- In a well-formed controller, while disconnected, and if the changed telemetry can be dumped,
  -- `send` publishes nothing. It queues one payload if any telemetry has changed, behind those
  -- that are queued already; it marks all telemetry and all attributes as sent; and it returns
  -- whether any had changed.
  pub send_offline :
      (c : Controller p) (text : String)
      → IsWellFormed p c
      → is_connected {p = p} c ≡ false
      → p.json.dump (changed_telemetry c) ≡ some text
      → send {p = p} c ≡ (
        ok (not (is_empty c.m_tainted_telemetry_keys) || not (is_empty c.m_tainted_attribute_keys)),
        record c {
          m_tainted_telemetry_keys = [];
          m_tainted_attribute_keys = [];
          m_pending_telemetry =
              if is_empty c.m_tainted_telemetry_keys
              then c.m_pending_telemetry
              else c.m_pending_telemetry ++ text ∷ [];
        },
      )
  unfolding send send_tainted_attributes send_telemetry send_attributes is_connected
  send_offline c text w offline h =
      ground (arith, send_tainted_telemetry_lem c w, send_tainted_attributes_lem c w)

  -- the controller once `send` has published the telemetry, and the same after the attributes
  abbrev pub after_telemetry : Controller p → String → Controller p
  after_telemetry c text = record (with_world (published c p.telemetry_topic text).1 c) {
    m_tainted_telemetry_keys = [];
  }

  abbrev pub after_attributes : Controller p → String → Controller p
  after_attributes c text = record (with_world (published c p.attributes_topic text).1 c) {
    m_tainted_attribute_keys = [];
  }

  send_tainted_telemetry_online :
      (c : Controller p) (text : String)
      → IsWellFormed p c
      → is_connected {p = p} c ≡ true
      → p.json.dump (changed_telemetry c) ≡ some text
      → Returns (published c p.telemetry_topic text).0
      → send_tainted_telemetry {p = p} c ≡ (ok tt, after_telemetry c text)
  unfolding send_telemetry is_connected
  send_tainted_telemetry_online c text w online h sent =
      ground (arith, send_tainted_telemetry_lem c w, publish-Returns c p.telemetry_topic text sent)

  send_tainted_attributes_online :
      (c : Controller p) (text : String)
      → IsWellFormed p c
      → is_connected {p = p} c ≡ true
      → p.json.dump (changed_attributes c) ≡ some text
      → Returns (published c p.attributes_topic text).0
      → send_tainted_attributes {p = p} c ≡ (ok tt, after_attributes c text)
  unfolding send_attributes is_connected
  send_tainted_attributes_online c text w online h sent =
      ground
        (arith, send_tainted_attributes_lem c w, publish-Returns c p.attributes_topic text sent)

  -- In a well-formed controller, while connected, if all that has changed can be dumped and each
  -- publication succeeds or finds no connection, and telemetry and attributes have both changed,
  -- `send` publishes the telemetry and then the attributes, once each, marks all as sent, queues
  -- nothing and returns true.
  pub send_online :
      (c : Controller p) (telemetry attributes : String)
      → IsWellFormed p c
      → is_connected {p = p} c ≡ true
      → is_empty c.m_tainted_telemetry_keys ≡ false
      → is_empty c.m_tainted_attribute_keys ≡ false
      → p.json.dump (changed_telemetry c) ≡ some telemetry
      → p.json.dump (changed_attributes c) ≡ some attributes
      → Returns (published c p.telemetry_topic telemetry).0
      → Returns (published (after_telemetry c telemetry) p.attributes_topic attributes).0
      → send {p = p} c ≡ (ok true, after_attributes (after_telemetry c telemetry) attributes)
  unfolding send is_connected
  send_online c telemetry attributes w online t a dt da rt ra = ground (
    arith,
    send_tainted_telemetry_online c telemetry w online dt rt,
    send_tainted_attributes_online (after_telemetry c telemetry) attributes
        (record {
          telemetry = record {
            keyed = w.telemetry.keyed;
            covers = λ k h. absurd (false≢true h);
            distinct = tt;
          };
          attributes = w.attributes;
        })
        online da ra,
  )

  -- In a well-formed controller, while connected, if some telemetry has changed and can be dumped,
  -- and the library answers its publication with neither success nor the lack of a connection,
  -- `send` throws and all that had changed still waits to be sent; only the world has moved.
  send_refused :
      (c : Controller p) (text : String)
      → IsWellFormed p c
      → is_connected {p = p} c ≡ true
      → is_empty c.m_tainted_telemetry_keys ≡ false
      → p.json.dump (changed_telemetry c) ≡ some text
      → ¬ (Returns (published c p.telemetry_topic text).0)
      → send {p = p} c ≡ (
        raised (runtime_error "Failed to publish message"),
        with_world (published c p.telemetry_topic text).1 c,
      )
  unfolding send send_telemetry is_connected publish MqttClient.publish
  send_refused c text w online some_key h refused = ground (arith, send_tainted_telemetry_lem c w)
