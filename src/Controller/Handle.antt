-- ===== src/Controller/Handle.antt =====
-- controller.cpp: the handle of the controller's client, through every public method and every callback.
use things_mqtt_lua.Prelude.{
  ◌*◌, refl, Bool, true, false, not, ◌||◌, ◌++◌, if◌then◌else◌, Option, none, some, List, [], ◌∷◌,
  String, string_eq, arith,
}
use things_mqtt_lua.Prelude.Effect.{
  Exception, Action, Void, ◌>>=◌, ◌>>◌, gets, put, pure, when, for_each,
}
use things_mqtt_lua.Mosquitto.Discipline.{Discipline}
use things_mqtt_lua.MqttCallbacks.{}
use things_mqtt_lua.MqttClient
use things_mqtt_lua.MqttClient.Codes.{at_least_once}
use things_mqtt_lua.MqttClient.Handle.{Uses, >>=-Uses, publish-Uses}
use things_mqtt_lua.Platform.{Platform}
use things_mqtt_lua.Controller.State.{Controller, is_connected, is_empty, on_base}
use things_mqtt_lua.Controller.Payload.{collect, telemetry_payload}
use things_mqtt_lua.Controller.Sending.{
  publish, dump, send_telemetry, send_attributes, send_tainted_telemetry, send_tainted_attributes,
  send,
}
use things_mqtt_lua.Controller.Reactions.{or_throw}

module _ (p : Platform) (d : Discipline p.mosquitto) where
  abbrev pub handle_of : Controller p → Option p.mosquitto.Handle
  handle_of c = c.m_mqtt_client.m_mosq

  abbrev pub world_of : Controller p → p.World
  world_of c = c.m_mqtt_client.world

  abbrev pub ControllerUses : {A : Type 0} → Action (Controller p) A → Type 0
  ControllerUses f = Uses d handle_of world_of f

  abbrev pub ControllerOwns : Controller p → Type 0
  ControllerOwns c = d.Held (handle_of c) (world_of c)

  -- A handler of remote procedure calls leaves the controller's handle alone.
  abbrev pub HandlersKeep : Type 0
  HandlersKeep =
      (handler : p.RpcHandler) (method : String) (params : p.Value) (h : Option p.mosquitto.Handle)
      (w : p.World)
      → d.Held h w
      → d.Held h (p.run_handler handler method params w).1

  pub then-Uses :
      {A B : Type 0} (f : Action (Controller p) A) (g : A → Action (Controller p) B)
      → ControllerUses f
      → ((a : A) → ControllerUses (g a))
      → ControllerUses (f >>= g)
  then-Uses f g hf hg = >>=-Uses d handle_of world_of f g hf hg

  dump-Uses : (v : p.Value) → ControllerUses (dump {p = p} v)
  dump-Uses v c owns = ground (arith, owns)

  pub or_throw-Uses : {A : Type 0} (o : Option A) (e : Exception) → ControllerUses (or_throw o e)
  or_throw-Uses none e c owns = (refl, owns)
  or_throw-Uses (some a) e c owns = (refl, owns)

  pub when-Uses :
      (b : Bool) (f : Action (Controller p) Void) → ControllerUses f → ControllerUses (when b f)
  when-Uses true f h c owns = h c owns
  when-Uses false f h c owns = (refl, owns)

  pub for_each-Uses :
      {A : Type 0} (xs : List A) (f : A → Action (Controller p) Void)
      → ((a : A) → ControllerUses (f a))
      → ControllerUses (for_each xs f)
  for_each-Uses [] f h c owns = (refl, owns)
  for_each-Uses (x ∷ xs) f h c owns =
      then-Uses (f x) (λ _. for_each xs f) (h x) (λ _. for_each-Uses xs f h) c owns

  pub publish_text-Uses : (topic text : String) → ControllerUses (publish {p = p} topic text)
  unfolding publish
  publish_text-Uses topic text =
      then-Uses (on_base {p = p} (MqttClient.publish topic text at_least_once false)) (λ _. pure tt)
        (λ c owns. publish-Uses d topic text at_least_once false c.m_mqtt_client.base owns)
        (λ _ c owns. (refl, owns))

  pub send_attributes-Uses : (v : p.Value) → ControllerUses (send_attributes {p = p} v)
  unfolding send_attributes
  send_attributes-Uses v c owns = by_flag (is_connected {p = p} c) c owns
    where
      by_flag :
          (b : Bool)
          → ControllerUses (
              if b
              then (dump {p = p} v >>= λ text. publish {p = p} p.attributes_topic text)
              else pure tt)
      by_flag true =
          then-Uses (dump {p = p} v) (publish {p = p} p.attributes_topic) (dump-Uses v)
            (publish_text-Uses p.attributes_topic)
      by_flag false = λ c owns. (refl, owns)

  send_telemetry-Uses : (v : p.Value) → ControllerUses (send_telemetry {p = p} v)
  unfolding send_telemetry
  send_telemetry-Uses v c owns =
      then-Uses (dump {p = p} v) (deliver (is_connected {p = p} c)) (dump-Uses v)
        (λ text. deliver-Uses (is_connected {p = p} c) text) c owns
    where
      deliver : Bool → String → Action (Controller p) Void
      deliver b text =
          if b
          then publish {p = p} p.telemetry_topic text
          else put (λ c. record c { m_pending_telemetry = c.m_pending_telemetry ++ text ∷ [] })

      deliver-Uses : (b : Bool) (text : String) → ControllerUses (deliver b text)
      deliver-Uses true text = publish_text-Uses p.telemetry_topic text
      deliver-Uses false text = λ c owns. (refl, owns)

  send_tainted_telemetry-Uses : ControllerUses (send_tainted_telemetry {p = p})
  unfolding send_tainted_telemetry
  send_tainted_telemetry-Uses c owns =
      let (values, t) = collect p.json c.m_tainted_telemetry_keys p.json.null c.m_telemetry_data in
      then-Uses
        (send_telemetry {p = p}
          (telemetry_payload p.json values (p.time c.m_mqtt_client.world * 1000)))
        (λ _. put (λ c. record c { m_tainted_telemetry_keys = [] })) (send_telemetry-Uses _)
        (λ _ c owns. (refl, owns)) (record c { m_telemetry_data = t }) owns

  send_tainted_attributes-Uses : ControllerUses (send_tainted_attributes {p = p})
  unfolding send_tainted_attributes
  send_tainted_attributes-Uses c owns =
      let (values, t) = collect p.json c.m_tainted_attribute_keys p.json.null c.m_attribute_data in
      then-Uses (send_attributes {p = p} values)
        (λ _. put (λ c. record c { m_tainted_attribute_keys = [] })) (send_attributes-Uses _)
        (λ _ c owns. (refl, owns)) (record c { m_attribute_data = t }) owns

  pub send-Uses : ControllerUses (send {p = p})
  unfolding send
  send-Uses c owns =
      let telemetry = not (is_empty c.m_tainted_telemetry_keys) in
      then-Uses (when telemetry (send_tainted_telemetry {p = p}))
        (λ _. gets (λ c. c) >>= rest telemetry)
        (when-Uses telemetry (send_tainted_telemetry {p = p}) send_tainted_telemetry-Uses)
        (λ _ c' owns'. rest-Uses telemetry c' c' owns') c owns
    where
      rest : Bool → Controller p → Action (Controller p) Bool
      rest telemetry c' =
          let attributes = not (is_empty c'.m_tainted_attribute_keys) in
          when attributes (send_tainted_attributes {p = p}) >> pure (telemetry || attributes)

      rest-Uses : (b : Bool) (c' : Controller p) → ControllerUses (rest b c')
      rest-Uses b c' =
          then-Uses
            (when (not (is_empty c'.m_tainted_attribute_keys)) (send_tainted_attributes {p = p}))
            (λ _. pure _)
            (when-Uses _ (send_tainted_attributes {p = p}) send_tainted_attributes-Uses)
            (λ _ c owns. (refl, owns))
