-- ===== src/Controller/Messages.antt =====
-- controller.cpp: the contents of the messages of `send` and of `onMqttConnect`, key by key.
use things_mqtt_lua.Prelude.{
  ◌≡◌, refl, none, some, String, if◌then◌else◌, ◌*◌, ◌∙◌, string_eq, arith,
}
use things_mqtt_lua.Prelude.Dict.{lookup, contains}
use things_mqtt_lua.Platform.{Platform, JsonObjects}
use things_mqtt_lua.Controller.State.{Controller}
use things_mqtt_lua.Controller.Payload.{collect, collect_all}
use things_mqtt_lua.Controller.Changed.{IsWellFormed}
use things_mqtt_lua.Controller.Contents.{find-collect, find-collect_all}
use things_mqtt_lua.Controller.Outbox.{changed_telemetry, changed_attributes}

module _ (p : Platform) (objects : JsonObjects p.json) (c : Controller p) where
  open objects use {find, null-IsObject, set_key-IsObject, find-null, find-set_key}

  -- In a well-formed controller, and with a JSON library that keeps the laws of objects, the
  -- telemetry message of `send` is an object whose "ts" is the time in milliseconds and whose
  -- "values" holds, of all keys, exactly those that wait to be sent, each with its latest value.
  pub changed_telemetry_contents :
      IsWellFormed p c
      → (values : p.Value) × (find (changed_telemetry p c) "values" ≡ some values)
        × (find (changed_telemetry p c) "ts"
            ≡ some (p.json.of_ℕ (p.time c.m_mqtt_client.world * 1000)))
        × ((key : String)
            → find values key ≡ (
                if contains key c.m_tainted_telemetry_keys
                then lookup key c.m_telemetry_data
                else none))
  changed_telemetry_contents w =
      let keys = c.m_tainted_telemetry_keys in
      let values = (collect p.json keys p.json.null c.m_telemetry_data).0 in
      let inner = p.json.set_key p.json.null "values" values in
      let inner-IsObject = set_key-IsObject p.json.null "values" values null-IsObject in
      let ts = p.json.of_ℕ (p.time c.m_mqtt_client.world * 1000) in
      (
        values,
        find-set_key inner "ts" "values" ts inner-IsObject
            ∙ find-set_key p.json.null "values" "values" values null-IsObject,
        find-set_key inner "ts" "ts" ts inner-IsObject,
        λ key.
            find-collect p.json objects key keys p.json.null c.m_telemetry_data w.telemetry.covers
              null-IsObject
            ∙ rw (find-null key) refl,
      )

  -- In a well-formed controller, and with a JSON library that keeps the laws of objects, the
  -- attribute message of `send` holds exactly the attributes that wait to be sent, each with its
  -- latest value.
  pub changed_attributes_contents :
      (key : String)
      → IsWellFormed p c
      → find (changed_attributes p c) key
        ≡ (if contains key c.m_tainted_attribute_keys then lookup key c.m_attribute_data else none)
  changed_attributes_contents key w =
      find-collect p.json objects key c.m_tainted_attribute_keys p.json.null c.m_attribute_data
        w.attributes.covers null-IsObject
      ∙ rw (find-null key) refl

  -- In a well-formed controller, and with a JSON library that keeps the laws of objects, the
  -- message of `onMqttConnect` holds every attribute, whether it waits to be sent or not, with its
  -- latest value.
  all_attributes_contents :
      (key : String)
      → IsWellFormed p c
      → find (collect_all p.json c.m_attribute_data p.json.null) key ≡ lookup key c.m_attribute_data
  all_attributes_contents key w =
      find-collect_all p.json objects key c.m_attribute_data p.json.null w.attributes.keyed
        null-IsObject
      ∙ ground (arith, find-null key)
