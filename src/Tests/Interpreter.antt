-- ===== src/Tests/Interpreter.antt =====
-- An interpreter and a JSON library that are small enough to run. The heap is the list of the functions
-- that were called. There are tables with at most one entry each.
use things_mqtt_lua.Prelude.{
  ℕ, suc, ◌+◌, ◌≤◌, ◌≡◌, refl, ap, sym, ◌∙◌, arith, Bool, true, Option, none, some, List, [], ◌∷◌,
  ◌++◌, String, ◌==◌, if◌then◌else◌, string_eq, nat_eq, length,
}
use things_mqtt_lua.Prelude.Int.{ℤ, pos}
use things_mqtt_lua.Prelude.Effect.{ok, raised, lua_error, Action}
use things_mqtt_lua.Platform.{Json, Platform}
use things_mqtt_lua.JsonValues.{JsonValues, View}
use things_mqtt_lua.Lua.{LuaTypes, Lua, Value}
use things_mqtt_lua.LuaUtils.Tables.{Tables, head, IsKey}
use things_mqtt_lua.LuaUtils.Scalars.{Views}
use things_mqtt_lua.LuaUtils.Depth.{Below, Heights, ItemsBelow, ElementsBelow}
use things_mqtt_lua.LuaThingsmqtt.Entries.{Entry}
use things_mqtt_lua.LuaThingsmqtt.Process.{Host}
use things_mqtt_lua.Tests.Library.{small_mosquitto}

-- The tables: an empty one, one with a text, one with that table, `debug`, a configuration, and an array.
pub data SmallTable : Type 0 where
  empty antenna nested debug config row : SmallTable

-- Numbers are whole. Tables have names, userdata are addresses, functions are names.
abbrev pub small_types : LuaTypes
small_types = record {
  Number = ℤ;
  Table = SmallTable;
  Function = String;
  Userdata = ℕ;
  Other = Unit;
}

abbrev pub Val : Type 0
Val = Value small_types

abbrev pub fields : SmallTable → List (String × Val)
fields empty = []
fields antenna = ("name", Value.string "dipole") ∷ []
fields nested = ("inner", Value.table antenna) ∷ []
fields debug = ("traceback", Value.function "traceback") ∷ []
fields config = ("host", Value.string "broker") ∷ []
fields row = []

-- The table `row` has one element.
abbrev pub element_of_row : SmallTable → Val → Val
element_of_row row (Value.number (pos n)) = if n == 1 then Value.number (pos 8) else Value.nil
element_of_row t _ = Value.nil

abbrev pub find_field : String → List (String × Val) → Val
find_field key [] = Value.nil
find_field key ((k, x) ∷ xs) = if k == key then x else find_field key xs

abbrev pub element_of : SmallTable → Val → Val
element_of t (Value.string key) = find_field key (fields t)
element_of t k = element_of_row t k

abbrev pub entries_of : List (String × Val) → List (Val × Val)
entries_of [] = []
entries_of ((k, x) ∷ xs) = (Value.string k, x) ∷ entries_of xs

abbrev pub all_entries : SmallTable → List (Val × Val)
all_entries row = (Value.number (pos 1), Value.number (pos 8)) ∷ []
all_entries t = entries_of (fields t)

abbrev pub index_of : Val → Val → Action (List String) Val
index_of (Value.table t) k h = (ok (element_of t k), h)
index_of _ k h = (raised (lua_error "attempt to index"), h)

-- After the one entry there is no other.
abbrev pub next_of : Val → Val → Action (List String) (Option (Val × Val))
next_of (Value.table t) Value.nil h = (ok (head (all_entries t)), h)
next_of (Value.table t) k h = (ok none, h)
next_of _ k h = (raised (lua_error "attempt to traverse"), h)

abbrev pub global_of : String → Val
global_of name = if name == "debug" then Value.table debug else Value.nil

abbrev pub call_of : Val → List String → Val × List String
call_of (Value.function name) h = (Value.string "stack traceback:", name ∷ h)
call_of _ h = (Value.string "attempt to call", h)

abbrev pub small_lua : Lua Entry
small_lua = record {
  types = small_types;
  Heap = List String;
  is_whole = λ n. true;
  to_int64 = λ n. n;
  to_integer = λ n. n;
  of_integer = λ n. n;
  to_float = λ n. n;
  number_text = λ n. "#";
  text_number = λ s. none;
  index = index_of;
  set_index = λ t k x h. (ok tt, h);
  next = next_of;
  new_table = λ h. (empty, h);
  register = λ t methods h. (ok tt, h);
  global = λ name h. (ok (global_of name), h);
  protected_call = λ f args h. call_of f h;
  ref = λ f h. (pos 1, h);
  new_userdata = λ h. (7, h);
  block = λ u h. u;
  set_block = λ u a h. h;
  new_metatable = λ name h. ((true, Value.table empty), h);
  metatable = λ name h. Value.table empty;
  set_metatable = λ x t h. h;
  is_instance = λ u name h. true;
}

fields-length : (t : SmallTable) → length (all_entries t) ≤ 1
fields-length empty = omega arith
fields-length antenna = omega arith
fields-length nested = omega arith
fields-length debug = omega arith
fields-length config = omega arith
fields-length row = omega arith

two_more :
    (before : List (Val × Val)) (p q : Val × Val) (after : List (Val × Val))
    → 2 ≤ length (before ++ p ∷ q ∷ after)
two_more [] p q after = omega arith
two_more (x ∷ before) p q after = omega (arith, two_more before p q after)

pub last_entry :
    (t : SmallTable) (before after : List (Val × Val)) (p : Val × Val)
    → all_entries t ≡ before ++ p ∷ after
    → head after ≡ none
last_entry t before [] p e = refl
last_entry t before (q ∷ after) p e = absurd (
    omega (
      arith,
      fields-length t,
      two_more before p q after,
      ap (λ (xs : List (Val × Val)). length xs) e,
    ))

pub next_of-key :
    (t : SmallTable) (h : List String) (k : Val)
    → IsKey k
    → next_of (Value.table t) k h ≡ (ok none, h)
next_of-key t h Value.nil is_key = absurd is_key
next_of-key t h (Value.boolean b) is_key = refl
next_of-key t h (Value.number n) is_key = refl
next_of-key t h (Value.string s) is_key = refl
next_of-key t h (Value.table s) is_key = refl
next_of-key t h (Value.function f) is_key = refl
next_of-key t h (Value.userdata u) is_key = refl
next_of-key t h (Value.other o) is_key = refl

abbrev pub small_tables : Tables small_lua
small_tables = record {
  IsPlain = λ t h. Unit;
  element = λ t k h. element_of t k;
  entries = λ t h. all_entries t;
  index-plain = λ t k h plain. refl;
  next-nil = λ t h. refl;
  next-entry = λ t h before after k x is_key e.
      next_of-key t h k is_key
      ∙ ap (λ (o : Option (Val × Val)). (ok o, h)) (sym (last_entry t before after (k, x) e));
}

-- An object or an array is a chain of entries or elements.
pub data Tree : Type 0 where
  null no_entry no_element : Tree
  bool : Bool → Tree
  int floating : ℤ → Tree
  str : String → Tree
  entry : String → Tree → Tree → Tree
  element : Tree → Tree → Tree

abbrev pub entries_in : Tree → List (String × Tree)
entries_in (entry k v t) = (k, v) ∷ entries_in t
entries_in _ = []

abbrev pub elements_in : Tree → List Tree
elements_in (element v t) = v ∷ elements_in t
elements_in _ = []

abbrev pub view_tree : Tree → View Tree ℤ
view_tree null = View.null
view_tree (bool b) = View.boolean b
view_tree (int n) = View.integer n
view_tree (floating n) = View.floating n
view_tree (str s) = View.text s
view_tree no_entry = View.object []
view_tree no_element = View.array []
view_tree (entry k v t) = View.object ((k, v) ∷ entries_in t)
view_tree (element v t) = View.array (v ∷ elements_in t)

abbrev pub tree_json : Json
tree_json = record {
  Value = Tree;
  null = null;
  ne = λ a b. true;
  of_ℕ = λ n. int (pos n);
  set_key = λ o k v. entry k v o;
  index = λ o k. some (null, o);
  dump = λ t. some "text";
  parse = λ s. some (str s);
  get_string = λ t. none;
}

abbrev pub tree_values : JsonValues tree_json ℤ
tree_values = record {
  of_int64 = int;
  of_double = floating;
  of_text = str;
  empty_object = no_entry;
  empty_array = no_element;
  push_back = λ t v. element v t;
  view = view_tree;
}

abbrev pub tree_views : Views tree_values
tree_views = record {
  view-null = refl;
  view-of_int64 = λ n. refl;
  view-of_double = λ x. refl;
  view-of_text = λ s. refl;
}

abbrev pub height : Tree → ℕ
height (entry k v t) = suc (height v + height t)
height (element v t) = suc (height v + height t)
height _ = 0

entries_in-below : (n : ℕ) (t : Tree) → height t ≤ n → ItemsBelow height n (entries_in t)
entries_in-below n (entry k v t) h = (omega (arith, h), entries_in-below n t (omega (arith, h)))
entries_in-below n _ h = tt

elements_in-below : (n : ℕ) (t : Tree) → height t ≤ n → ElementsBelow height n (elements_in t)
elements_in-below n (element v t) h = (omega (arith, h), elements_in-below n t (omega (arith, h)))
elements_in-below n _ h = tt

pub view_tree-Below : (t : Tree) → Below height (height t) (view_tree t)
view_tree-Below (entry k v t) = entries_in-below (height (entry k v t)) (entry k v t) (omega arith)
view_tree-Below (element v t) = elements_in-below (height (element v t)) (element v t) (omega arith)
view_tree-Below _ = tt

abbrev pub tree_heights : Heights tree_values
tree_heights = record { height = height; view-Below = view_tree-Below }

abbrev pub tree_platform : Platform
tree_platform = record {
  mosquitto = small_mosquitto;
  json = tree_json;
  telemetry_topic = "v1/telemetry";
  attributes_topic = "v1/attributes";
  rpc_topic = "v1/rpc/request";
  time = λ w. 1700000000;
  RpcHandler = Unit;
  run_handler = λ handler method params w. (ok null, w);
}

abbrev pub small_host : Host
small_host = record {
  platform = tree_platform;
  lua = small_lua;
  json_values = tree_values;
  fuel = 5;
}
