-- ===== src/Tests/Orders.antt =====
-- Runs of the theorems on the order of the hash tables: the keys "a" and "b" in either order, with a JSON
-- library that keeps objects as functions.
use mathlib.Core.Bool.{false≢true}
use mathlib.Core.Quot
use text.Mathlib.TextEquality.{eq_iff}
use things_mqtt_lua.Prelude.{
  ℕ, ◌≡◌, ◌≢◌, refl, sym, ◌∙◌, ap, Bool, true, false, none, some, Option, List, [], ◌∷◌, String,
  ◌==◌, if◌then◌else◌, string_eq, arith,
}
use things_mqtt_lua.Prelude.Dict.{contains, lookup}
use things_mqtt_lua.Prelude.Effect.{ok}
use things_mqtt_lua.Mosquitto.{success}
use things_mqtt_lua.Platform.{Json, JsonObjects, Platform}
use things_mqtt_lua.MqttClient
use things_mqtt_lua.MqttClientSingleThread
use things_mqtt_lua.Controller.State.{Controller}
use things_mqtt_lua.Controller.Changed.{IsWellFormed}
use things_mqtt_lua.Controller.History.{
  Op, publishes, sends, loops, adds, disconnects, removes, apply_all,
}
use things_mqtt_lua.Controller.Unordered.{IsExtensional, IsAlike}
use things_mqtt_lua.Controller.Commuting.{Unordered, publish_unordered, publish_comm}
use things_mqtt_lua.Controller.Indifference.{outcomes, order_unseen}
use things_mqtt_lua.Tests.Library.{small_mosquitto}

-- `Slot` is `Option Tree`.
mutual
  data Tree : Type 0 where
    leaf : ℕ → Tree
    object : (String → Slot) → Tree

  data Slot : Type 0 where
    absent : Slot
    present : Tree → Slot

abbrev of_slot : Slot → Option Tree
of_slot absent = none
of_slot (present x) = some x

abbrev to_slot : Option Tree → Slot
to_slot none = absent
to_slot (some x) = present x

to_slot-of_slot : (s : Slot) → to_slot (of_slot s) ≡ s
to_slot-of_slot absent = refl
to_slot-of_slot (present x) = refl

abbrev slots : Tree → String → Slot
slots (leaf n) key = absent
slots (object f) key = f key

abbrev elements : Tree → String → Option Tree
elements x key = of_slot (slots x key)

abbrev or_empty : Option Tree → Tree
or_empty none = object (λ key. absent)
or_empty (some x) = x

abbrev tree_json : Json
tree_json = record {
  Value = Tree;
  null = object (λ key. absent);
  ne = λ a b. true;
  of_ℕ = leaf;
  set_key = λ o k v. object (λ key. if k == key then present v else slots o key);
  index = λ o k. some (or_empty (elements o k), o);
  dump = λ x. some "text";
  parse = λ s. none;
  get_string = λ x. none;
}

abbrev IsNode : Tree → Type 0
IsNode (leaf n) = ⊥
IsNode (object f) = Unit

of_slot-if :
    (b : Bool) (v : Tree) (s : Slot)
    → of_slot (if b then present v else s) ≡ (if b then some v else of_slot s)
of_slot-if true v s = refl
of_slot-if false v s = refl

abbrev tree_objects : JsonObjects tree_json
tree_objects = record {
  find = elements;
  IsObject = IsNode;
  null-IsObject = tt;
  set_key-IsObject = λ o k v h. tt;
  find-null = λ k. refl;
  find-set_key = λ o k i v h. of_slot-if (k == i) v (slots o i);
}

tree_extensional : IsExtensional tree_objects
tree_extensional (leaf n) b h h' same = absurd h
tree_extensional (object f) (leaf n) h h' same = absurd h'
tree_extensional (object f) (object g) h h' same =
    let slot : (k : String) → f k ≡ g k =
      λ k. sym (to_slot-of_slot (f k)) ∙ ap to_slot (same k) ∙ to_slot-of_slot (g k) in
    ap object (λ i k. slot k i)

abbrev tree_platform : Platform
tree_platform = record {
  mosquitto = small_mosquitto;
  json = tree_json;
  telemetry_topic = "v1/telemetry";
  attributes_topic = "v1/attributes";
  rpc_topic = "v1/rpc/request";
  time = λ w. 1700000000;
  RpcHandler = String;
  run_handler = λ handler method params w. (ok (leaf 0), w);
}

-- Online, with these entries, which wait to be sent in this order.
abbrev online : List (String × Tree) → List String → Controller tree_platform
online entries keys = record {
  m_mqtt_client = record (MqttClientSingleThread.new []) {
    base = record (MqttClient.new []) { m_mosq = some success };
    m_connected = true;
  };
  m_telemetry_data = entries;
  m_tainted_telemetry_keys = keys;
  m_attribute_data = [];
  m_tainted_attribute_keys = [];
  m_pending_telemetry = [];
  m_rpc_handlers = [];
}

abbrev forwards : Controller tree_platform
forwards = online (("a", leaf 1) ∷ ("b", leaf 2) ∷ []) ("a" ∷ "b" ∷ [])

abbrev backwards : Controller tree_platform
backwards = online (("b", leaf 2) ∷ ("a", leaf 1) ∷ []) ("b" ∷ "a" ∷ [])

two-covers :
    (i j : String) (x y : Tree)
    → (k : String) → contains k (i ∷ j ∷ []) ≡ true
    → lookup k ((i, x) ∷ (j, y) ∷ []) ≢ none
two-covers i j x y k h e = ground (arith, h, e)

swapped_map :
    (i j k : String) (x y : Tree)
    → (i == j) ≡ false
    → lookup k ((i, x) ∷ (j, y) ∷ []) ≡ lookup k ((j, y) ∷ (i, x) ∷ [])
swapped_map i j k x y e = ground (arith, e, eq_iff i j, eq_iff i k, eq_iff j k)

swapped_set : (i j k : String) → contains k (i ∷ j ∷ []) ≡ contains k (j ∷ i ∷ [])
swapped_set i j k = ground arith

forwards-IsWellFormed : IsWellFormed tree_platform forwards
forwards-IsWellFormed = record {
  telemetry = record {
    keyed = (refl, (refl, tt));
    covers = two-covers "a" "b" (leaf 1) (leaf 2);
    distinct = (refl, (refl, tt));
  };
  attributes = record { keyed = tt; covers = λ k h. absurd (false≢true h); distinct = tt };
}

backwards-IsWellFormed : IsWellFormed tree_platform backwards
backwards-IsWellFormed = record {
  telemetry = record {
    keyed = (refl, (refl, tt));
    covers = two-covers "b" "a" (leaf 2) (leaf 1);
    distinct = (refl, (refl, tt));
  };
  attributes = record { keyed = tt; covers = λ k h. absurd (false≢true h); distinct = tt };
}

alike : IsAlike tree_platform forwards backwards
alike = record {
  well = forwards-IsWellFormed;
  well' = backwards-IsWellFormed;
  client = refl;
  pending = refl;
  handlers = refl;
  telemetry = λ k. swapped_map "a" "b" k (leaf 1) (leaf 2) refl;
  tainted_telemetry = λ k. swapped_set "a" "b" k;
  attributes = λ k. refl;
  tainted_attributes = λ k. refl;
}

abbrev ops : List (Op tree_platform)
ops = sends ∷ publishes "b" (leaf 3) ∷ sends ∷ loops ∷ adds "h" ∷ disconnects ∷ removes 1 ∷ []

order_unseen_example :
    (outcomes ops (1, forwards) ≡ outcomes ops (1, backwards))
    × IsAlike tree_platform
        (apply_all tree_platform ops (1, forwards)).1
        (apply_all tree_platform ops (1, backwards)).1
order_unseen_example =
    order_unseen tree_platform tree_objects tree_extensional ops 1 forwards backwards alike

abbrev unordered : Unordered tree_platform
unordered = Quot.mk (forwards, forwards-IsWellFormed)

publish_comm_example :
    publish_unordered tree_platform "c"
      (leaf 4)
      (publish_unordered tree_platform "a" (leaf 5) unordered)
    ≡ publish_unordered tree_platform "a"
        (leaf 5)
        (publish_unordered tree_platform "c" (leaf 4) unordered)
publish_comm_example = publish_comm tree_platform "a" "c" (leaf 5) (leaf 4) refl unordered
