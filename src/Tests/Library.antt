-- ===== src/Tests/Library.antt =====
-- A mosquitto library and a JSON library that are small enough to run. The world is the list of the
-- messages that the broker got. A handle is the code that the library answers publications with.
use Prim.Native.String
use things_mqtt_lua.Prelude.{
  ℕ, refl, Bool, true, false, not, ◌&&◌, Option, none, some, List, [], ◌∷◌, ◌++◌, String, ◌==◌,
  if◌then◌else◌, string_eq, nat_eq,
}
use things_mqtt_lua.Prelude.Int.{pos}
use things_mqtt_lua.Prelude.Effect.{ok}
use things_mqtt_lua.Mosquitto.{
  Mosquitto, MosqErr, success, other, einval, returns, calls, connected, disconnected,
}
use things_mqtt_lua.Platform.{Json, JsonObjects, Platform}

abbrev pub Log : Type 0
Log = List (String × String)

abbrev pub answer : Option MosqErr → MosqErr
answer none = other (pos 3)
answer (some code) = code

abbrev pub tls_answer : Option String → MosqErr
tls_answer none = other (pos 3)
tls_answer (some ca) = success

abbrev pub small_mosquitto : Mosquitto
small_mosquitto = record {
  World = Log;
  Handle = MosqErr;
  lib_init = λ w. (success, w);
  lib_cleanup = λ w. w;
  errno = λ w. einval;
  new = λ id clean w. (some success, w);
  destroy = λ h w. w;
  username_pw_set = λ h user password w. (success, w);
  tls_set = λ h ca cert key w. (tls_answer ca, w);
  reconnect_delay_set = λ h low high exponential w. w;
  connect = λ h host port keepalive w. (answer h, w);
  connect_bind = λ h host port keepalive bind w. (answer h, w);
  disconnect = λ h w. calls (disconnected (pos 0)) w (returns success);
  subscribe = λ h topic qos w. (answer h, w ++ ("subscribe", topic) ∷ []);
  unsubscribe = λ h topic w. (answer h, w ++ ("unsubscribe", topic) ∷ []);
  publish = λ h topic size payload qos retain w. (answer h, pos 1, w ++ (topic, payload) ∷ []);
  callback_set = λ h kind w. w;
  loop = λ h w. calls (connected (pos 0)) w (returns success);
  loop_start = λ h w. (success, w);
  loop_stop = λ h force w. w;
}

-- A value is null, which is an object without entries too, a number, a text, or an object with one
-- entry more.
pub data Doc : Type 0 where
  nil : Doc
  number : ℕ → Doc
  str : String → Doc
  entry : String → Doc → Doc → Doc

abbrev pub eq_doc : Doc → Doc → Bool
eq_doc nil nil = true
eq_doc (number m) (number n) = m == n
eq_doc (str s) (str t) = s == t
eq_doc (entry j a b) (entry k c d) = (j == k) && (eq_doc a c && eq_doc b d)
eq_doc _ _ = false

abbrev pub find_doc : Doc → String → Option Doc
find_doc (entry k v o) key = if k == key then some v else find_doc o key
find_doc _ key = none

abbrev pub join : Option String → Option String → Option String
join (some s) (some t) = some (String.◌++◌ s t)
join _ _ = none

-- The text of a value; "?" stands for text that is not UTF-8.
abbrev pub dump_doc : Doc → Option String
dump_doc nil = some ";"
dump_doc (number n) = some "#"
dump_doc (str s) = if s == "?" then none else some s
dump_doc (entry k v o) = join (some k) (join (dump_doc v) (dump_doc o))

abbrev pub or_nil : Option Doc → Doc
or_nil none = nil
or_nil (some v) = v

abbrev pub string_of : Doc → Option String
string_of (str s) = some s
string_of _ = none

abbrev pub small_json : Json
small_json = record {
  Value = Doc;
  null = nil;
  ne = λ a b. not (eq_doc a b);
  of_ℕ = number;
  set_key = λ o k v. entry k v o;
  index = λ o k. some (or_nil (find_doc o k), o);
  dump = dump_doc;
  parse = λ s. some (entry "method" (str s) nil);
  get_string = string_of;
}

abbrev pub IsObjectDoc : Doc → Type 0
IsObjectDoc nil = Unit
IsObjectDoc (entry k v o) = Unit
IsObjectDoc _ = ⊥

abbrev pub small_objects : JsonObjects small_json
small_objects = record {
  find = find_doc;
  IsObject = IsObjectDoc;
  null-IsObject = tt;
  set_key-IsObject = λ o k v h. tt;
  find-null = λ k. refl;
  find-set_key = λ o k i v h. refl;
}

-- A handler adds its name and the method to the messages.
abbrev pub small_platform : Platform
small_platform = record {
  mosquitto = small_mosquitto;
  json = small_json;
  telemetry_topic = "v1/telemetry";
  attributes_topic = "v1/attributes";
  rpc_topic = "v1/rpc/request";
  time = λ w. 1700000000;
  RpcHandler = String;
  run_handler = λ handler method params w. (ok nil, w ++ (handler, method) ∷ []);
}
