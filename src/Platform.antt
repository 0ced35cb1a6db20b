-- ===== src/Platform.antt =====
-- What controller.cpp uses and the repository does not implement: the mosquitto library, the JSON
-- library nlohmann::json (vendored), the topics that the build configures, the clock, and the
-- handlers that the user of the library registers.
use things_mqtt_lua.Prelude.{
  ℕ, ◌≡◌, String, Bool, Option, none, some, if◌then◌else◌, ◌==◌, string_eq,
}
use things_mqtt_lua.Prelude.Effect.{Result}
use things_mqtt_lua.Mosquitto.{Mosquitto}

pub record Json : Type 1 where
  pub Value : Type 0
  -- `nlohmann::json x;`
  pub null : Value
  -- `a != b`
  pub ne : Value → Value → Bool
  pub of_ℕ : ℕ → Value
  -- `a[k] = v`, of a value that is null or an object
  pub set_key : Value → String → Value → Value
  -- `a[k]` read on a value that is not `const`: the element, which is null where there was none, and
  -- `a` after that; `none` is a `type_error`
  pub index : Value → String → Option (Value × Value)
  -- `a.dump()`; `none` is the `type_error` that text which is not UTF-8 raises
  pub dump : Value → Option String
  -- `json::parse(s)`; `none` is a `parse_error`
  pub parse : String → Option Value
  -- the conversion to `std::string`; `none` is a `type_error`
  pub get_string : Value → Option String

-- What is documented of objects: `find` looks a key up.
pub record JsonObjects (j : Json) : Type 1 where
  pub find : j.Value → String → Option j.Value
  pub IsObject : j.Value → Type 0
  pub null-IsObject : IsObject j.null
  pub set_key-IsObject :
      (o : j.Value) (k : String) (v : j.Value) → IsObject o → IsObject (j.set_key o k v)
  pub find-null : (k : String) → find j.null k ≡ none
  pub find-set_key :
      (o : j.Value) (k i : String) (v : j.Value)
      → IsObject o
      → find (j.set_key o k v) i ≡ (if k == i then some v else find o i)

pub record Platform : Type 1 where
  pub mosquitto : Mosquitto
  pub open mosquitto use {World}
  pub json : Json
  pub open json use {Value}
  -- `THINGSMQTT_TELEMETRY_TOPIC`, `THINGSMQTT_ATTRIBUTES_TOPIC`, `THINGSMQTT_RPC_TOPIC`
  pub telemetry_topic : String
  pub attributes_topic : String
  pub rpc_topic : String
  -- `std::time(nullptr)`, in seconds
  pub time : World → ℕ
  -- an `RpcHandler`, and a call of it: it may change the world and throw
  pub RpcHandler : Type 0
  pub run_handler : RpcHandler → String → Value → World → Result Value × World
