-- ===== src/Controller/ReorderingCallbacks.antt =====
-- controller.cpp and mqtt/mqtt-client-singlethread.cpp: whatever the order in which the hash tables keep the
-- telemetry and the attributes, the callbacks, and the calls in which the library makes them, do the same.
use text.Mathlib.TextEquality.{eq_iff}
use things_mqtt_lua.Prelude.{
  ◌≡◌, refl, sym, ◌∙◌, ◌==◌, ℕ, Bool, not, Option, none, some, List, [], ◌∷◌, String, string_eq,
  arith,
}
use things_mqtt_lua.Prelude.Dict.{Dict}
use things_mqtt_lua.Prelude.Effect.{
  Exception, parse_error, type_error, Action, Void, ◌>>=◌, ◌>>◌, pure, when, for_each,
}
use things_mqtt_lua.MqttCallbacks.{
  Call, on_connected, on_disconnected, on_published, on_received, on_subscribed, on_unsubscribed,
}
use things_mqtt_lua.MqttClient
use things_mqtt_lua.MqttClient.Codes.{is_accepted, exactly_once}
use things_mqtt_lua.MqttClientSingleThread.{MqttClientSingleThread}
use things_mqtt_lua.Platform.{Platform, JsonObjects}
use things_mqtt_lua.Controller.State.{
  Controller, Closure, calls_on_mqtt_connect, calls_on_mqtt_message, is_empty, on_base,
}
use things_mqtt_lua.Controller.Payload.{collect_all}
use things_mqtt_lua.Controller.Sending.{publish, send_attributes}
use things_mqtt_lua.Controller.Reactions.{
  pop_pending, send_pending, send_all_attributes, send_all_pending, on_accepted, on_mqtt_connect,
  or_throw, call_handler, call_handlers, request_of, rpc_filter, on_rpc, on_mqtt_message, dispatch,
}
use things_mqtt_lua.Controller.Changed.{IsDistinct, keys_of}
use things_mqtt_lua.Controller.Contents.{find-collect_all}
use things_mqtt_lua.Controller.Unordered.{
  SameMap, IsExtensional, Respects, >>=-Respects, by_value, when-Respects, IsBlind-Respects,
  publish-IsBlind, send_attributes-IsBlind,
}

is_empty-SameMap : {V : Type 0} (d d' : Dict String V) → SameMap d d' → is_empty d ≡ is_empty d'
is_empty-SameMap [] [] same = refl
is_empty-SameMap [] ((k, v) ∷ d') same = ground (arith, same k, eq_iff k k)
is_empty-SameMap ((k, v) ∷ d) [] same = ground (arith, same k, eq_iff k k)
is_empty-SameMap (x ∷ d) (y ∷ d') same = refl

module _ (p : Platform) where
  -- An action given by the client of the controller.
  pub by_client :
      {B : Type 0} (f : MqttClientSingleThread p.mosquitto Closure → Action (Controller p) B)
      → ((m : MqttClientSingleThread p.mosquitto Closure) → Respects p (f m))
      → Respects p (λ c. f c.m_mqtt_client c)
  by_client f h c c' alike =
      by_value p f c.m_mqtt_client c'.m_mqtt_client c c' alike.client (h c.m_mqtt_client) alike

  or_throw-Respects : {A : Type 0} (o : Option A) (e : Exception) → Respects p (or_throw o e)
  or_throw-Respects none e c c' alike = (refl, alike)
  or_throw-Respects (some a) e c c' alike = (refl, alike)

  for_each-Respects :
      {A : Type 0} (xs : List A) (f : A → Action (Controller p) Void)
      → ((a : A) → Respects p (f a))
      → Respects p (for_each xs f)
  for_each-Respects [] f h c c' alike = (refl, alike)
  for_each-Respects (x ∷ xs) f h c c' alike =
      >>=-Respects p (f x) (λ _. for_each xs f) (h x) (λ _. for_each-Respects xs f h) c c' alike

  send_pending-Respects : (texts : List String) → Respects p (send_pending {p = p} texts)
  unfolding send_pending
  send_pending-Respects [] c c' alike = (refl, alike)
  send_pending-Respects (text ∷ texts) c c' alike =
      >>=-Respects p (publish {p = p} p.telemetry_topic text)
        (λ _. pop_pending >> send_pending {p = p} texts)
        (IsBlind-Respects p _ (publish-IsBlind p p.telemetry_topic text))
        (λ _.
          >>=-Respects p pop_pending (λ _. send_pending {p = p} texts)
            (IsBlind-Respects p pop_pending (λ x c. refl)) (λ _. send_pending-Respects texts))
        c c' alike

  call_handler-Respects :
      (method : String) (params : p.Value) (h : ℕ × p.RpcHandler)
      → Respects p (call_handler {p = p} method params h)
  call_handler-Respects method params (id, handler) =
      >>=-Respects p _ (λ _. pure tt) (IsBlind-Respects p _ (λ x c. refl))
        (λ _ c c' alike. (refl, alike))

  on_rpc-Respects : (payload : String) → Respects p (on_rpc {p = p} payload)
  unfolding on_rpc call_handlers
  on_rpc-Respects payload =
      >>=-Respects p (or_throw (p.json.parse payload) parse_error)
        (λ json. or_throw (request_of p.json json) type_error >>= call_handlers {p = p})
        (or_throw-Respects _ _)
        (λ json.
          >>=-Respects p (or_throw (request_of p.json json) type_error) (call_handlers {p = p})
            (or_throw-Respects _ _)
            (λ (method, params) c c' alike.
              by_value p (λ hs. for_each hs (call_handler {p = p} method params)) c.m_rpc_handlers
                c'.m_rpc_handlers c c' alike.handlers
                (for_each-Respects c.m_rpc_handlers (call_handler {p = p} method params)
                  (call_handler-Respects method params))
                alike))

module _ (p : Platform) (objects : JsonObjects p.json) (ext : IsExtensional objects) where
  collect_all-IsObject :
      (d : Dict String p.Value) (o : p.Value)
      → objects.IsObject o
      → objects.IsObject (collect_all p.json d o)
  unfolding collect_all
  collect_all-IsObject [] o h = h
  collect_all-IsObject ((k, v) ∷ d) o h =
      collect_all-IsObject d (p.json.set_key o k v) (objects.set_key-IsObject o k v h)

  collect_all-same :
      (d d' : Dict String p.Value)
      → SameMap d d'
      → IsDistinct (keys_of d)
      → IsDistinct (keys_of d')
      → collect_all p.json d p.json.null ≡ collect_all p.json d' p.json.null
  collect_all-same d d' map distinct distinct' =
      ext _ _ (collect_all-IsObject d p.json.null objects.null-IsObject)
        (collect_all-IsObject d' p.json.null objects.null-IsObject)
        (λ k.
          find-collect_all p.json objects k d p.json.null distinct objects.null-IsObject
          ∙ rw (map k) (
              sym
                (find-collect_all p.json objects k d' p.json.null distinct' objects.null-IsObject)))

  send_all_attributes-Respects : Respects p (send_all_attributes {p = p})
  unfolding send_all_attributes
  send_all_attributes-Respects c c' alike =
      by_value p (λ (x : Bool × p.Value). when x.0 (send_attributes {p = p} x.1))
        (not (is_empty c.m_attribute_data), collect_all p.json c.m_attribute_data p.json.null)
        (not (is_empty c'.m_attribute_data), collect_all p.json c'.m_attribute_data p.json.null) c
        c'
        (λ i. (
          not (is_empty-SameMap c.m_attribute_data c'.m_attribute_data alike.attributes i),
          collect_all-same c.m_attribute_data c'.m_attribute_data alike.attributes
              alike.well.attributes.keyed alike.well'.attributes.keyed i,
        ))
        (when-Respects p _ (send_attributes {p = p} _)
          (IsBlind-Respects p _ (send_attributes-IsBlind p _)))
        alike

  on_accepted-Respects : Respects p (on_accepted {p = p})
  unfolding on_accepted send_all_pending
  on_accepted-Respects =
      >>=-Respects p (on_base {p = p} (MqttClient.subscribe (rpc_filter p) exactly_once))
        (λ _. send_all_attributes {p = p} >> send_all_pending {p = p})
        (IsBlind-Respects p _ (λ x c. refl))
        (λ _.
          >>=-Respects p (send_all_attributes {p = p}) (λ _. send_all_pending {p = p})
            send_all_attributes-Respects
            (λ _ c c' alike.
              by_value p (send_pending {p = p}) c.m_pending_telemetry c'.m_pending_telemetry c c'
                alike.pending (send_pending-Respects p c.m_pending_telemetry) alike))

  pub dispatch-Respects : (k : Call Closure) → Respects p (dispatch {p = p} k)
  unfolding dispatch on_mqtt_connect on_mqtt_message
  dispatch-Respects (on_connected calls_on_mqtt_connect rc) =
      when-Respects p (is_accepted rc) (on_accepted {p = p}) on_accepted-Respects
  dispatch-Respects (on_received calls_on_mqtt_message m) =
      when-Respects p (m.topic == p.rpc_topic) (on_rpc {p = p} m.payload)
        (on_rpc-Respects p m.payload)
  dispatch-Respects (on_connected calls_on_mqtt_message rc) = λ c c' alike. (refl, alike)
  dispatch-Respects (on_received calls_on_mqtt_connect m) = λ c c' alike. (refl, alike)
  dispatch-Respects (on_disconnected f rc) = λ c c' alike. (refl, alike)
  dispatch-Respects (on_published f mid) = λ c c' alike. (refl, alike)
  dispatch-Respects (on_subscribed f mid) = λ c c' alike. (refl, alike)
  dispatch-Respects (on_unsubscribed f mid) = λ c c' alike. (refl, alike)
