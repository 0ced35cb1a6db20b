-- ===== src/Controller/Payload.antt =====
-- controller.cpp: the JSON values that `send` and `onMqttConnect` build from the maps.
use things_mqtt_lua.Prelude.{ℕ, none, some, List, [], ◌∷◌, String, string_eq}
use things_mqtt_lua.Prelude.Dict.{Dict, lookup, emplace}
use things_mqtt_lua.Platform.{Json}

module _ (j : Json) where
  -- `m[key]` of an `unordered_map`: a missing key is given a null value
  unfoldable pub at_or_null : String → Dict String j.Value → j.Value × Dict String j.Value
  at_or_null key d = elim (lookup key d) [ some v ↦ (v, d) | none ↦ (j.null, emplace key j.null d) ]

  -- `for (key : keys) values[key] = data[key];`
  unfoldable pub collect :
      List String → j.Value → Dict String j.Value → j.Value × Dict String j.Value
  unfolding at_or_null
  collect [] values d = (values, d)
  collect (key ∷ keys) values d =
      let (v, d') = at_or_null key d in collect keys (j.set_key values key v) d'

  -- `payload["values"] = values; payload["ts"] = ts;`
  abbrev pub telemetry_payload : j.Value → ℕ → j.Value
  telemetry_payload values ts = j.set_key (j.set_key j.null "values" values) "ts" (j.of_ℕ ts)

  -- `for ([key, value] : data) values[key] = value;`
  unfoldable pub collect_all : Dict String j.Value → j.Value → j.Value
  collect_all [] values = values
  collect_all ((key, value) ∷ d) values = collect_all d (j.set_key values key value)
