-- ===== src/Tests/Sending.antt =====
-- Runs of the theorems on `publishTelemetry`, `setAttribute` and `send`.
use Prim.Native.String.{String}
use mathlib.Core.Path.{◌≡◌, refl}
use things_mqtt_lua.Prelude.{
  Bool, true, false, none, some, List, [], ◌∷◌, arith, if◌then◌else◌, string_eq, inl,
}
use things_mqtt_lua.Prelude.Dict.{lookup, contains}
use things_mqtt_lua.Prelude.Effect.{ok, raised, type_error}
use things_mqtt_lua.Mosquitto.{MosqErr, success}
use things_mqtt_lua.MqttClient
use things_mqtt_lua.Controller.State.{Controller, Closure, is_connected}
use things_mqtt_lua.Controller.Payload.{collect}
use things_mqtt_lua.Controller.Sending.{send}
use things_mqtt_lua.Controller.Changed.{IsWellFormed}
use things_mqtt_lua.Controller.Outbox.{
  send_online, send_offline, send_undumpable, after_telemetry, after_attributes, changed_telemetry,
}
use things_mqtt_lua.Controller.Messages.{changed_telemetry_contents}
use things_mqtt_lua.Controller.Writes.{Agrees, publish_all, publish_all-last_write}
use things_mqtt_lua.Tests.Library.{
  Doc, number, str, find_doc, small_platform, small_objects, small_json,
}

-- A controller with the handle and the flag given, one telemetry value and one attribute, both of
-- which wait, one payload that is queued and one handler.
abbrev pub holding : MosqErr → Bool → Doc → Controller small_platform
holding code is_up value = record {
  m_mqtt_client = record {
    base = record (MqttClient.new {m = small_platform.mosquitto} {C = Closure} []) {
      m_mosq = some code;
    };
    m_connected = is_up;
  };
  m_telemetry_data = ("t", value) ∷ [];
  m_tainted_telemetry_keys = "t" ∷ [];
  m_attribute_data = ("a", str "x") ∷ [];
  m_tainted_attribute_keys = "a" ∷ [];
  m_pending_telemetry = "old" ∷ [];
  m_rpc_handlers = (1, "h") ∷ [];
}

pub holding-IsWellFormed :
    (code : MosqErr) (is_up : Bool) (value : Doc)
    → IsWellFormed small_platform (holding code is_up value)
holding-IsWellFormed code is_up value = record {
  telemetry = record { keyed = (refl, tt); covers = λ k h. ground arith; distinct = (refl, tt) };
  attributes = record { keyed = (refl, tt); covers = λ k h. ground arith; distinct = (refl, tt) };
}

abbrev connected_one : Controller small_platform
connected_one = holding success true (number 21)

abbrev dumped : String
dumped = "ts#valuest#;;"

send_online_example : send {p = small_platform} connected_one ≡ (
  ok true,
  after_attributes small_platform (after_telemetry small_platform connected_one dumped) "ax;",
)
unfolding is_connected collect
send_online_example =
    send_online small_platform connected_one dumped "ax;"
      (holding-IsWellFormed success true (number 21)) refl refl refl refl refl (inl refl) (inl refl)

-- The connection is down: the payload joins the queue.
abbrev offline : Controller small_platform
offline = holding success false (number 21)

send_offline_example : send {p = small_platform} offline ≡ (
  ok true,
  record offline {
    m_tainted_telemetry_keys = [];
    m_tainted_attribute_keys = [];
    m_pending_telemetry = "old" ∷ dumped ∷ [];
  },
)
unfolding is_connected collect
send_offline_example =
    send_offline small_platform offline dumped (holding-IsWellFormed success false (number 21)) refl
      refl

-- Text that is not UTF-8 waits to be sent.
abbrev undumpable : Controller small_platform
undumpable = holding success true (str "?")

send_undumpable_example : send {p = small_platform} undumpable ≡ (raised type_error, undumpable)
unfolding collect
send_undumpable_example =
    send_undumpable small_platform undumpable (holding-IsWellFormed success true (str "?")) refl
      refl

changed_telemetry_contents_example :
    (values : Doc) × (find_doc (changed_telemetry small_platform connected_one) "values"
      ≡ some values)
    × (find_doc (changed_telemetry small_platform connected_one) "ts" ≡ some (number 1700000000000))
    × ((key : String)
        → find_doc values key
          ≡ (if contains key ("t" ∷ []) then lookup key (("t", number 21) ∷ []) else none))
changed_telemetry_contents_example =
    changed_telemetry_contents small_platform small_objects connected_one
      (holding-IsWellFormed success true (number 21))

abbrev writes : List (String × Doc)
writes = ("t", number 21) ∷ ("u", number 1) ∷ ("u", number 2) ∷ []

publish_all-last_write_example :
    let c' = publish_all small_platform writes connected_one in
    Agrees small_json (lookup "u" c'.m_telemetry_data) (some (number 2))
    × (lookup "u" c'.m_telemetry_data ≡ some (number 2))
    × (contains "u" c'.m_tainted_telemetry_keys ≡ true)
    × (c'.m_attribute_data ≡ connected_one.m_attribute_data)
    × (c'.m_tainted_attribute_keys ≡ connected_one.m_tainted_attribute_keys)
    × (c'.m_pending_telemetry ≡ connected_one.m_pending_telemetry)
publish_all-last_write_example = publish_all-last_write small_platform writes connected_one "u"
