-- ===== src/LuaUtils/Nested.antt =====
-- lua-utils.cpp, `lua_value_to_json` of a table in a table: the recursive call is made with the index -1,
-- which stands for another value once the key 1 has been pushed.
use things_mqtt_lua.Prelude.{
  ℕ, zero, suc, ◌<◌, ◌≡◌, refl, ◌∙◌, ap, sym, true, some, List, [], ◌∷◌, ◌++◌, append_assoc, String,
  arith, length,
}
use things_mqtt_lua.Prelude.Int.{pos}
use things_mqtt_lua.Prelude.Effect.{Exception, ok, raised, Action, ◌>>◌, >>=-ok, >>=-raised}
use things_mqtt_lua.Platform.{Json}
use things_mqtt_lua.JsonValues.{JsonValues}
use things_mqtt_lua.Lua.{Lua, Value, Machine, next_entry, pop, get_table, first, c_str}
use things_mqtt_lua.LuaUtils.{
  lua_value_to_json, top, typed_to_json, table_to_json, elements_or_entries, is_nil, object_entry,
  object_entries,
}
use things_mqtt_lua.LuaUtils.Tables.{
  Tables, head, Holds, one, get_table-eq, next_entry-Holds, scalar,
}
use things_mqtt_lua.LuaUtils.Flat.{pairs, AllScalar, object_entry-scalar, table_to_json-Holds}

module _ {C : Type 0} (l : Lua C) {j : Json} (v : JsonValues j l.Number) (e : Exception) where
  abbrev on_stack : List (Value l.types) → l.Heap → Machine l
  on_stack st h = record { stack = st; heap = h }

  -- An element of a number is asked for, and the interpreter raises an error.
  abbrev pub NumbersRaise : l.Heap → Type 0
  NumbersRaise h = l.index (one l) (one l) h ≡ (raised e, h)

  -- A table at the top: the element 1 of the key 1 is asked for.
  top_table :
      (fuel : ℕ) (u : l.Table) (st : List (Value l.types)) (h : l.Heap)
      → NumbersRaise h
      → lua_value_to_json l v (suc fuel) top (on_stack (Value.table u ∷ st) h)
        ≡ (raised e, on_stack (Value.table u ∷ st) h)
  unfolding lua_value_to_json typed_to_json table_to_json
  top_table fuel u st h raises =
      >>=-raised (get_table {l = l} top) (on_stack (one l ∷ Value.table u ∷ st) h)
        (on_stack (Value.table u ∷ st) h)
        (λ _ s.
          elements_or_entries l v fuel (lua_value_to_json l v fuel) top (is_nil (first s.stack)) s)
        (get_table-eq l top (one l) (one l) (Value.table u ∷ st) h (raised e) refl raises)

  object_entry-table :
      (fuel : ℕ) (rest : j.Value → Action (Machine l) j.Value) (obj : j.Value) (key : String)
      (u : l.Table) (st : List (Value l.types)) (h : l.Heap)
      → NumbersRaise h
      → object_entry l v
          (lua_value_to_json l v (suc fuel))
          rest
          obj
          true
          (on_stack (Value.table u ∷ Value.string key ∷ st) h)
        ≡ (raised e, on_stack (Value.table u ∷ Value.string key ∷ st) h)
  unfolding object_entry
  object_entry-table fuel rest obj key u st h raises =
      >>=-raised (lua_value_to_json l v (suc fuel) top)
        (on_stack (Value.table u ∷ Value.string key ∷ st) h)
        (on_stack (Value.table u ∷ Value.string key ∷ st) h)
        (λ value. pop 1 >> rest (j.set_key obj (c_str key) value))
        (top_table fuel u (Value.string key ∷ st) h raises)

  module _ (tables : Tables l) (i : ℕ) (t : l.Table) (st : List (Value l.types)) (h : l.Heap)
      (holds : Holds l st i t) (fuel : ℕ) (key : String) (u : l.Table)
      (after : List (Value l.types × Value l.types)) (raises : NumbersRaise h) where
    open tables use {entries, next-entry}

    abbrev with_table : List (String × Value l.types) → List (Value l.types × Value l.types)
    with_table es = pairs l v es ++ (Value.string key, Value.table u) ∷ after

    object_entries-table :
        (es : List (String × Value l.types)) (rounds : ℕ)
        (before : List (Value l.types × Value l.types)) (k : Value l.types) (obj : j.Value)
        → entries t h ≡ before ++ with_table es
        → l.next (Value.table t) k h ≡ (ok (head (with_table es)), h)
        → AllScalar l v es
        → length es < rounds
        → (object_entries l v rounds
            (lua_value_to_json l v (suc fuel))
            (pos i)
            obj
            (on_stack (k ∷ st) h)).0
          ≡ raised e
    unfolding object_entries
    object_entries-table es zero before k obj split here plain enough = absurd (omega arith)
    object_entries-table [] (suc rounds) before k obj split here plain enough =
        let convert = lua_value_to_json l v (suc fuel) in
        let rest = object_entries l v rounds convert (pos i) in
        ap (λ x. x.0)
          (>>=-ok (next_entry {l = l} (pos i)) (on_stack (k ∷ st) h)
              (on_stack (Value.table u ∷ Value.string key ∷ st) h)
              (object_entry l v convert rest obj)
              (next_entry-Holds l i t k st h (some (Value.string key, Value.table u)) holds here)
            ∙ object_entry-table fuel rest obj key u st h raises)
    object_entries-table ((name, x) ∷ es) (suc rounds) before k obj split here plain enough =
        let convert = lua_value_to_json l v (suc fuel) in
        let rest = object_entries l v rounds convert (pos i) in
        ap (λ x. x.0)
          (>>=-ok (next_entry {l = l} (pos i)) (on_stack (k ∷ st) h)
              (on_stack (x ∷ Value.string name ∷ st) h) (object_entry l v convert rest obj)
              (next_entry-Holds l i t k st h (some (Value.string name, x)) holds here)
            ∙ object_entry-scalar l v fuel rest obj name x st h plain.0)
        ∙ object_entries-table es rounds (before ++ (Value.string name, x) ∷ []) (Value.string name)
            (j.set_key obj (c_str name) (scalar l v x))
            (split ∙ sym (append_assoc before ((Value.string name, x) ∷ []) (with_table es)))
            (next-entry t h before (with_table es) (Value.string name) x tt split) plain.1
            (omega arith)

  -- Of a table as in `flat_object`, but with a value that is a table, after any entries whose values
  -- are none: if to ask a number for an element raises an error, the conversion raises that error.
  pub nested_table_raises :
      (tables : Tables l) (i : ℕ) (t : l.Table) (st : List (Value l.types)) (h : l.Heap) (fuel : ℕ)
      (es : List (String × Value l.types)) (key : String) (u : l.Table)
      (after : List (Value l.types × Value l.types))
      → l.index (one l) (one l) h ≡ (raised e, h)
      → Holds l st i t
      → tables.IsPlain t h
      → tables.element t (one l) h ≡ Value.nil
      → tables.entries t h ≡ pairs l v es ++ (Value.string key, Value.table u) ∷ after
      → AllScalar l v es
      → length es < fuel
      → (lua_value_to_json l v (suc fuel) (pos i) (record { stack = st; heap = h })).0 ≡ raised e
  unfolding lua_value_to_json typed_to_json elements_or_entries
  nested_table_raises tables i t st h zero es key u after raises holds plain no_one split scalars
        enough =
      absurd (omega arith)
  nested_table_raises tables i t st h (suc fuel) es key u after raises holds plain no_one split
        scalars enough =
      let convert = lua_value_to_json l v (suc fuel) in
      ap (λ x. x.0)
        (ap (λ x. typed_to_json l v (suc fuel) convert (pos i) x (on_stack st h)) holds.1
          ∙ table_to_json-Holds l v tables i t st h (suc fuel) convert holds plain
          ∙ ap
              (λ x.
                elements_or_entries l v (suc fuel) convert (pos i) (is_nil x) (on_stack (x ∷ st) h))
              no_one)
      ∙ object_entries-table tables i t st h holds fuel key u after raises es (suc fuel) []
          Value.nil v.empty_object split (tables.next-nil t h ∙ ap (λ l. (ok (head l), h)) split)
          scalars enough
