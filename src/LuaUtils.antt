-- ===== src/LuaUtils.antt =====
-- lua-utils.cpp: between Lua values and JSON values. Fuel bounds the depth of a value and, in a table,
-- the number of entries.
pub mod Balance
pub mod Pushes
pub mod Tables
pub mod Flat
pub mod Listed
pub mod Nested
pub mod Depth
pub mod Scalars
pub mod Contract
use things_mqtt_lua.Prelude.{
  ℕ, zero, suc, ◌+◌, ◌%◌, ◌^◌, Bool, true, false, Option, none, some, List, [], ◌∷◌, String,
  if◌then◌else◌,
}
use things_mqtt_lua.Prelude.Int.{ℤ, pos, negsuc, int_of}
use things_mqtt_lua.Prelude.Effect.{
  out_of_fuel, ok, raised, Action, Void, pure, throw, gets, put, for_each, ◌>>=◌, ◌>>◌,
}
use things_mqtt_lua.Platform.{Json}
use things_mqtt_lua.JsonValues.{
  JsonValues, View, null, binary, discarded, boolean, integer, unsigned, floating, text, object,
  array,
}
use things_mqtt_lua.Lua.{
  Lua, Value, Machine, value_at, push, pop, get_table, set_table, check_text, first, c_str,
  next_entry, push_table, at, LuaTypes,
}

-- The indices from the top.
abbrev pub top : ℤ
top = negsuc 0

abbrev pub below_top : ℤ
below_top = negsuc 1

abbrev pub is_nil : {t : LuaTypes} → Value t → Bool
is_nil Value.nil = true
is_nil _ = false

module _ {C : Type 0} (l : Lua C) {j : Json} (v : JsonValues j l.Number) where
  -- The body of the `while` over the entries of an object, or its end. `convert` is the recursive
  -- call, and `rest` is the loop.
  unfoldable pub object_entry :
      (ℤ → Action (Machine l) j.Value)
      → (j.Value → Action (Machine l) j.Value)
      → j.Value
      → Bool
      → Action (Machine l) j.Value
  object_entry convert rest obj false = pure obj
  object_entry convert rest obj true = do
    key ← check_text below_top
    value ← convert top
    pop 1
    rest (j.set_key obj (c_str key) value)

  unfoldable pub object_entries :
      ℕ → (ℤ → Action (Machine l) j.Value) → ℤ → j.Value → Action (Machine l) j.Value
  unfolding object_entry
  object_entries zero convert i obj = throw out_of_fuel
  object_entries (suc fuel) convert i obj =
      next_entry i >>= object_entry convert (object_entries fuel convert i) obj

  -- The body of the `while` over the entries of an array, or its end.
  unfoldable pub array_entry :
      (ℤ → Action (Machine l) j.Value)
      → (j.Value → Action (Machine l) j.Value)
      → j.Value
      → Bool
      → Action (Machine l) j.Value
  array_entry convert rest json false = pure json
  array_entry convert rest json true = do value ← convert top; pop 1; rest (v.push_back json value)

  unfoldable pub array_entries :
      ℕ → (ℤ → Action (Machine l) j.Value) → ℤ → j.Value → Action (Machine l) j.Value
  unfolding array_entry
  array_entries zero convert i json = throw out_of_fuel
  array_entries (suc fuel) convert i json =
      next_entry i >>= array_entry convert (array_entries fuel convert i) json

  -- `case LUA_TTABLE`, once the element 1 is on the stack
  unfoldable pub elements_or_entries :
      ℕ → (ℤ → Action (Machine l) j.Value) → ℤ → Bool → Action (Machine l) j.Value
  elements_or_entries fuel convert i true = do
    pop 1
    push Value.nil
    object_entries fuel convert i v.empty_object
  elements_or_entries fuel convert i false = do
    pop 1
    push Value.nil
    array_entries fuel convert i v.empty_array

  unfoldable pub table_to_json :
      ℕ → (ℤ → Action (Machine l) j.Value) → ℤ → Action (Machine l) j.Value
  unfolding elements_or_entries
  table_to_json fuel convert i = do
    push (Value.number (l.of_integer (pos 1)))
    get_table i
    s ← gets (λ s. s.stack)
    elements_or_entries fuel convert i (is_nil (first s))

  abbrev pub number_to_json : l.Number → j.Value
  number_to_json num = if l.is_whole num then v.of_int64 (l.to_int64 num) else v.of_double num

  -- `lua_toboolean`, an `int`
  abbrev pub toboolean : Bool → ℤ
  toboolean false = pos 0
  toboolean true = pos 1

  -- the `switch` over the type; of a Boolean the JSON value is made of an `int`
  unfoldable pub typed_to_json :
      ℕ → (ℤ → Action (Machine l) j.Value) → ℤ → Option (Value l.types) → Action (Machine l) j.Value
  unfolding table_to_json
  typed_to_json fuel convert i none = pure j.null
  typed_to_json fuel convert i (some Value.nil) = pure j.null
  typed_to_json fuel convert i (some (Value.boolean b)) = pure (v.of_int64 (toboolean b))
  typed_to_json fuel convert i (some (Value.number num)) = pure (number_to_json num)
  typed_to_json fuel convert i (some (Value.string s)) = pure (v.of_text (c_str s))
  typed_to_json fuel convert i (some (Value.table t)) = table_to_json fuel convert i
  typed_to_json fuel convert i (some _) = pure j.null

  unfoldable pub lua_value_to_json : ℕ → ℤ → Action (Machine l) j.Value
  unfolding typed_to_json
  lua_value_to_json zero i s = throw out_of_fuel s
  lua_value_to_json (suc fuel) i s = typed_to_json fuel (lua_value_to_json fuel) i (at s.stack i) s

  -- `lua_pushinteger`
  abbrev pub push_integer : ℤ → Action (Machine l) Void
  push_integer n = push (Value.number (l.of_integer n))

  -- The `for` over the items of an object.
  unfoldable pub push_items :
      (j.Value → Action (Machine l) Void) → List (String × j.Value) → Action (Machine l) Void
  push_items convert [] = pure tt
  push_items convert ((key, value) ∷ items) = do
    push (Value.string (c_str key))
    convert value
    set_table (negsuc 2)
    push_items convert items

  -- The `for` over the elements of an array, from the one with that number.
  unfoldable pub push_elements :
      (j.Value → Action (Machine l) Void) → ℕ → List j.Value → Action (Machine l) Void
  push_elements convert i [] = pure tt
  push_elements convert i (value ∷ elements) = do
    push_integer (pos (i + 1))
    convert value
    set_table (negsuc 2)
    push_elements convert (i + 1) elements

  -- the `switch` over the type; `get<int>()` and `get<unsigned int>()` keep 32 bits
  unfoldable pub view_to_value :
      (j.Value → Action (Machine l) Void) → View j.Value l.Number → Action (Machine l) Void
  unfolding push_items push_elements
  view_to_value convert null = push Value.nil
  view_to_value convert (boolean b) = push (Value.boolean b)
  view_to_value convert (integer n) = push_integer (int_of n)
  view_to_value convert (unsigned n) = push_integer (pos (n % 2 ^ 32))
  view_to_value convert (floating x) = push (Value.number (l.to_float x))
  view_to_value convert (text s) = push (Value.string (c_str s))
  view_to_value convert (object items) = push_table >> push_items convert items
  view_to_value convert (array elements) = push_table >> push_elements convert 0 elements
  view_to_value convert binary = push Value.nil
  view_to_value convert discarded = push Value.nil

  unfoldable pub lua_json_to_value : ℕ → j.Value → Action (Machine l) Void
  unfolding view_to_value
  lua_json_to_value zero json = throw out_of_fuel
  lua_json_to_value (suc fuel) json = view_to_value (lua_json_to_value fuel) (v.view json)
