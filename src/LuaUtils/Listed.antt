-- ===== src/LuaUtils/Listed.antt =====
-- lua-utils.cpp, `lua_value_to_json` of a table that has an element 1, and whose values are no tables.
use things_mqtt_lua.Prelude.{
  ℕ, zero, suc, ◌<◌, ◌≡◌, ◌∙◌, ap, sym, true, false, none, some, List, [], ◌∷◌, ◌++◌, append_assoc,
  arith, length,
}
use things_mqtt_lua.Prelude.Int.{pos}
use things_mqtt_lua.Prelude.Effect.{ok, Action, ◌>>◌, >>=-ok}
use things_mqtt_lua.Platform.{Json}
use things_mqtt_lua.JsonValues.{JsonValues}
use things_mqtt_lua.Lua.{Lua, Value, Machine, next_entry, pop}
use things_mqtt_lua.LuaUtils.{
  array_entry, array_entries, lua_value_to_json, typed_to_json, elements_or_entries, is_nil, top,
}
use things_mqtt_lua.LuaUtils.Tables.{
  Tables, head, IsKey, IsScalar, Holds, next_entry-Holds, one, scalar, lua_value_to_json-scalar,
}
use things_mqtt_lua.LuaUtils.Flat.{table_to_json-Holds}

module _ {C : Type 0} (l : Lua C) {j : Json} (v : JsonValues j l.Number) where
  -- Entries whose values are no tables.
  abbrev pub AllListed : List (Value l.types × Value l.types) → Type 0
  AllListed [] = Unit
  AllListed ((k, x) ∷ es) = IsKey k × IsScalar l x × AllListed es

  -- The array with these values appended one after the other; the keys play no part.
  abbrev pub array_of : List (Value l.types × Value l.types) → j.Value → j.Value
  array_of [] json = json
  array_of ((k, x) ∷ es) json = array_of es (v.push_back json (scalar l v x))

  abbrev on_stack : List (Value l.types) → l.Heap → Machine l
  on_stack st h = record { stack = st; heap = h }

  -- One round of the loop over an array.
  array_entry-scalar :
      (fuel : ℕ) (rest : j.Value → Action (Machine l) j.Value) (json : j.Value)
      (k x : Value l.types) (st : List (Value l.types)) (h : l.Heap)
      → IsScalar l x
      → array_entry l v (lua_value_to_json l v (suc fuel)) rest json true (on_stack (x ∷ k ∷ st) h)
        ≡ rest (v.push_back json (scalar l v x)) (on_stack (k ∷ st) h)
  unfolding array_entry
  array_entry-scalar fuel rest json k x st h plain =
      >>=-ok (lua_value_to_json l v (suc fuel) top) (on_stack (x ∷ k ∷ st) h)
        (on_stack (x ∷ k ∷ st) h) (λ value. pop 1 >> rest (v.push_back json value))
        (lua_value_to_json-scalar l v fuel x (k ∷ st) h plain)

  module _ (tables : Tables l) (i : ℕ) (t : l.Table) (st : List (Value l.types)) (h : l.Heap)
      (holds : Holds l st i t) (fuel : ℕ) where
    open tables use {entries, next-entry}

    array_entries-listed :
        (es : List (Value l.types × Value l.types)) (rounds : ℕ)
        (before : List (Value l.types × Value l.types)) (k : Value l.types) (json : j.Value)
        → entries t h ≡ before ++ es
        → l.next (Value.table t) k h ≡ (ok (head es), h)
        → AllListed es
        → length es < rounds
        → array_entries l v rounds
            (lua_value_to_json l v (suc fuel))
            (pos i)
            json
            (on_stack (k ∷ st) h)
          ≡ (ok (array_of es json), on_stack st h)
    unfolding array_entries array_entry
    array_entries-listed es zero before k json split here listed enough = absurd (omega arith)
    array_entries-listed [] (suc rounds) before k json split here listed enough =
        let convert = lua_value_to_json l v (suc fuel) in
        >>=-ok (next_entry {l = l} (pos i)) (on_stack (k ∷ st) h) (on_stack st h)
          (array_entry l v convert (array_entries l v rounds convert (pos i)) json)
          (next_entry-Holds l i t k st h none holds here)
    array_entries-listed ((k', x) ∷ es) (suc rounds) before k json split here
          (is_key, plain, listed) enough =
        let convert = lua_value_to_json l v (suc fuel) in
        let rest = array_entries l v rounds convert (pos i) in
        >>=-ok (next_entry {l = l} (pos i)) (on_stack (k ∷ st) h) (on_stack (x ∷ k' ∷ st) h)
          (array_entry l v convert rest json)
          (next_entry-Holds l i t k st h (some (k', x)) holds here)
        ∙ array_entry-scalar fuel rest json k' x st h plain
        ∙ array_entries-listed es rounds (before ++ (k', x) ∷ []) k'
            (v.push_back json (scalar l v x)) (split ∙ sym (append_assoc before ((k', x) ∷ []) es))
            (next-entry t h before es k' x is_key split) listed (omega arith)

  -- Of a table without a metatable at a positive index, whose element 1 is not nil and whose values are
  -- no tables, and with fuel for more rounds than it has entries, the result is the array of the JSON of
  -- its values in the order of the traversal, whatever their keys; the stack and the rest of the
  -- interpreter are as before.
  pub listed_array :
      (tables : Tables l) (i : ℕ) (t : l.Table) (st : List (Value l.types)) (h : l.Heap) (fuel : ℕ)
      (es : List (Value l.types × Value l.types))
      → Holds l st i t
      → tables.IsPlain t h
      → is_nil (tables.element t (one l) h) ≡ false
      → tables.entries t h ≡ es
      → AllListed es
      → length es < fuel
      → lua_value_to_json l v (suc fuel) (pos i) (record { stack = st; heap = h })
        ≡ (ok (array_of es v.empty_array), record { stack = st; heap = h })
  unfolding lua_value_to_json typed_to_json elements_or_entries
  listed_array tables i t st h zero es holds plain some_one split listed enough =
      absurd (omega arith)
  listed_array tables i t st h (suc fuel) es holds plain some_one split listed enough =
      let convert = lua_value_to_json l v (suc fuel) in
      let x = tables.element t (one l) h in
      ap (λ x. typed_to_json l v (suc fuel) convert (pos i) x (on_stack st h)) holds.1
      ∙ table_to_json-Holds l v tables i t st h (suc fuel) convert holds plain
      ∙ ap (λ b. elements_or_entries l v (suc fuel) convert (pos i) b (on_stack (x ∷ st) h))
          some_one
      ∙ array_entries-listed tables i t st h holds fuel es (suc fuel) [] Value.nil v.empty_array
          split (tables.next-nil t h ∙ ap (λ l. (ok (head l), h)) split) listed enough
