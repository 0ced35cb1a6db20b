-- ===== src/LuaUtils/Tables.antt =====
-- What the Lua manual says of tables without metamethods, and single steps of `lua_value_to_json` on
-- such a table.
use things_mqtt_lua.Prelude.{
  ℕ, suc, ◌≤◌, ◌≡◌, refl, ◌∙◌, ap, Bool, Option, none, some, List, [], ◌∷◌, ◌++◌, arith, length,
  nat_eq,
}
use things_mqtt_lua.Prelude.Int.{ℤ, pos}
use things_mqtt_lua.Prelude.Effect.{Result, ok, raised, Void}
use things_mqtt_lua.Platform.{Json}
use things_mqtt_lua.JsonValues.{JsonValues}
use things_mqtt_lua.Lua.{
  LuaTypes, Lua, Value, Machine, next_entry, get_table, push_entry, or_nil, at, from_bottom, c_str,
}
use things_mqtt_lua.LuaUtils.{lua_value_to_json, number_to_json, toboolean, top}

abbrev pub head {ℓ} : {A : Type ℓ} → List A → Option A
head [] = none
head (x ∷ xs) = some x

-- A key of a table is not nil.
abbrev pub IsKey : {t : LuaTypes} → Value t → Type 0
IsKey Value.nil = ⊥
IsKey _ = Unit

-- Of a table without a metatable: the element under a key, and its entries in the order in which
-- `lua_next` visits them, from the key nil on,
-- and goes on from any other key.
pub record Tables {C : Type 0} (l : Lua C) : Type 1 where
  pub IsPlain : l.Table → l.Heap → Type 0
  pub element : l.Table → Value l.types → l.Heap → Value l.types
  pub entries : l.Table → l.Heap → List (Value l.types × Value l.types)
  pub index-plain :
      (t : l.Table) (k : Value l.types) (h : l.Heap)
      → IsPlain t h
      → l.index (Value.table t) k h ≡ (ok (element t k h), h)
  pub next-nil :
      (t : l.Table) (h : l.Heap) → l.next (Value.table t) Value.nil h ≡ (ok (head (entries t h)), h)
  pub next-entry :
      (t : l.Table) (h : l.Heap) (before after : List (Value l.types × Value l.types))
      (k x : Value l.types)
      → IsKey k
      → entries t h ≡ before ++ (k, x) ∷ after
      → l.next (Value.table t) k h ≡ (ok (head after), h)

pub from_bottom-push {ℓ} :
    {A : Type ℓ} (x : A) (xs : List A) (i : ℕ)
    → i ≤ length xs
    → from_bottom (x ∷ xs) i ≡ from_bottom xs i
from_bottom-push x xs i h = ground arith

module _ {C : Type 0} (l : Lua C) where
  -- The key 1.
  abbrev pub one : Value l.types
  one = Value.number (l.of_integer (pos 1))

  -- A value that is no table.
  abbrev pub IsScalar : Value l.types → Type 0
  IsScalar (Value.table t) = ⊥
  IsScalar _ = Unit

  -- What is on the stack below the key of a loop: at the index `i` from the bottom, the table.
  abbrev pub Holds : List (Value l.types) → ℕ → l.Table → Type 0
  Holds st i t = (i ≤ length st) × (from_bottom st i ≡ some (Value.table t))

  pub next_entry-Holds :
      (i : ℕ) (t : l.Table) (k : Value l.types) (st : List (Value l.types)) (h : l.Heap)
      (entry : Option (Value l.types × Value l.types))
      → Holds st i t
      → l.next (Value.table t) k h ≡ (ok entry, h)
      → next_entry {l = l} (pos i) (record { stack = k ∷ st; heap = h })
        ≡ push_entry entry (record { stack = st; heap = h })
  next_entry-Holds i t k st h entry (le, here) e =
      ap
        (λ (r : Result (Option (Value l.types × Value l.types)) × l.Heap).
          elim r.0 as (λ _. Result Bool × Machine l) [
            | ok entry ↦ push_entry entry (record { stack = st; heap = r.1 })
            | raised x ↦ (raised x, record { stack = st; heap = r.1 })
          ])
        (ap (λ o. l.next (or_nil o) k h) (from_bottom-push k st i le ∙ here) ∙ e)

  pub get_table-eq :
      (i : ℤ) (k t : Value l.types) (st : List (Value l.types)) (h : l.Heap)
      (r : Result (Value l.types))
      → at (k ∷ st) i ≡ some t
      → l.index t k h ≡ (r, h)
      → get_table {l = l} i (record { stack = k ∷ st; heap = h })
        ≡ elim r as (λ _. Result Void × Machine l) [
          | ok x ↦ (ok tt, record { stack = x ∷ st; heap = h })
          | raised e ↦ (raised e, record { stack = st; heap = h })
        ]
  get_table-eq i k t st h r here e =
      ap
        (λ (r : Result (Value l.types) × l.Heap). elim r.0 as (λ _. Result Void × Machine l) [
          | ok x ↦ (ok tt, record { stack = x ∷ st; heap = r.1 })
          | raised e ↦ (raised e, record { stack = st; heap = r.1 })
        ])
        (ap (λ o. l.index (or_nil o) k h) here ∙ e)

  module _ {j : Json} (v : JsonValues j l.Number) where
    -- The JSON of a value that is no table.
    abbrev pub scalar : Value l.types → j.Value
    scalar (Value.boolean b) = v.of_int64 (toboolean l v b)
    scalar (Value.number n) = number_to_json l v n
    scalar (Value.string s) = v.of_text (c_str s)
    scalar _ = j.null

    pub lua_value_to_json-scalar :
        (fuel : ℕ) (x : Value l.types) (st : List (Value l.types)) (h : l.Heap)
        → IsScalar x
        → let s : Machine l = record { stack = x ∷ st; heap = h } in
          lua_value_to_json l v (suc fuel) top s ≡ (ok (scalar x), s)
    unfolding lua_value_to_json
    lua_value_to_json-scalar fuel (Value.table t) st h is_table = absurd is_table
    lua_value_to_json-scalar fuel Value.nil st h plain = refl
    lua_value_to_json-scalar fuel (Value.boolean b) st h plain = refl
    lua_value_to_json-scalar fuel (Value.number b) st h plain = refl
    lua_value_to_json-scalar fuel (Value.string b) st h plain = refl
    lua_value_to_json-scalar fuel (Value.function b) st h plain = refl
    lua_value_to_json-scalar fuel (Value.userdata b) st h plain = refl
    lua_value_to_json-scalar fuel (Value.other b) st h plain = refl
