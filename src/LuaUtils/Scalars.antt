-- ===== src/LuaUtils/Scalars.antt =====
-- lua-utils.cpp: a value that is no table, to JSON and back.
use Prim.Native.Char.{code}
use things_mqtt_lua.Prelude.{
  ℕ, suc, ◌^◌, ◌<◌, ◌≡◌, refl, ap, ◌∙◌, Bool, true, false, List, ◌∷◌, String, if◌then◌else◌,
  Bool-cases, inl, inr, ◌==◌, nat_eq,
}
use things_mqtt_lua.Prelude.Int.{ℤ, pos, negsuc, int_of, int_of-pos, int_of-negsuc}
use things_mqtt_lua.Prelude.Effect.{ok, ◌>>=◌, >>=-ok}
use things_mqtt_lua.Platform.{Json}
use things_mqtt_lua.JsonValues.{JsonValues, null, integer, floating, text}
use things_mqtt_lua.Lua.{Lua, Value, Machine, c_str}
use things_mqtt_lua.LuaUtils.{lua_value_to_json, lua_json_to_value, view_to_value, top}
use things_mqtt_lua.LuaUtils.Tables.{IsScalar, scalar, lua_value_to_json-scalar}

-- A JSON value made of a value of a kind has that kind and that value.
pub record Views {j : Json} {N : Type 0} (v : JsonValues j N) : Type 0 where
  pub view-null : v.view j.null ≡ null
  pub view-of_int64 : (n : ℤ) → v.view (v.of_int64 n) ≡ integer n
  pub view-of_double : (x : N) → v.view (v.of_double x) ≡ floating x
  pub view-of_text : (s : String) → v.view (v.of_text s) ≡ text s

c_str-c_str : (s : String) → c_str (c_str s) ≡ c_str s
c_str-c_str String.[] = refl
c_str-c_str (String.◌∷◌ c s) = elim (Bool-cases (code c == 0)) [
  | inl zero ↦ rw zero refl
  | inr more ↦ rw (more, more) (ap (String.◌∷◌ c) (c_str-c_str s))
]

module _ {C : Type 0} (l : Lua C) where
  abbrev number_back : Bool → l.Number → l.Number
  number_back true n = l.of_integer (int_of (l.to_int64 n))
  number_back false n = l.to_float n

  -- What is left of a value: of a Boolean 1 or 0, of a whole number the low 32 bits of its `int64_t`, of
  -- any other number its `float`, of a text what comes before its first zero byte, and nothing of a
  -- function or userdata.
  abbrev pub carried : Value l.types → Value l.types
  carried (Value.boolean b) = Value.number (l.of_integer (if b then pos 1 else pos 0))
  carried (Value.number n) = Value.number (number_back (l.is_whole n) n)
  carried (Value.string s) = Value.string (c_str s)
  carried _ = Value.nil

  abbrev IsInt : ℤ → Type 0
  IsInt (pos n) = n < 2 ^ 31
  IsInt (negsuc n) = n < 2 ^ 31

  abbrev IsCarriedNumber : Bool → l.Number → Type 0
  IsCarriedNumber true n = IsInt (l.to_int64 n) × (l.of_integer (l.to_int64 n) ≡ n)
  IsCarriedNumber false n = l.to_float n ≡ n

  -- The values that come back as they were: a whole number in the range of `int` which its `int64_t`
  -- determines, or another that is a `float`; a text without a zero byte; nil.
  abbrev pub IsCarried : Value l.types → Type 0
  IsCarried Value.nil = Unit
  IsCarried (Value.number n) = IsCarriedNumber (l.is_whole n) n
  IsCarried (Value.string s) = c_str s ≡ s
  IsCarried _ = ⊥

  int_of-IsInt : (n : ℤ) → IsInt n → int_of n ≡ n
  int_of-IsInt (pos n) h = int_of-pos n h
  int_of-IsInt (negsuc n) h = int_of-negsuc n h

  number_back-eq : (b : Bool) (n : l.Number) → IsCarriedNumber b n → number_back b n ≡ n
  number_back-eq true n (small, e) = ap l.of_integer (int_of-IsInt (l.to_int64 n) small) ∙ e
  number_back-eq false n e = e

  carried-eq : (x : Value l.types) → IsCarried x → carried x ≡ x
  carried-eq Value.nil h = refl
  carried-eq (Value.boolean b) h = absurd h
  carried-eq (Value.number n) h = ap (λ m. Value.number m) (number_back-eq (l.is_whole n) n h)
  carried-eq (Value.string s) h = ap (λ t. Value.string t) h
  carried-eq (Value.table t) h = absurd h
  carried-eq (Value.function f) h = absurd h
  carried-eq (Value.userdata u) h = absurd h
  carried-eq (Value.other o) h = absurd h

  module _ {j : Json} (v : JsonValues j l.Number) (views : Views v) where
    open views use {view-null, view-of_int64, view-of_double, view-of_text}

    number_back-ok :
        (b : Bool) (fuel : ℕ) (n : l.Number) (s : Machine l)
        → lua_json_to_value l v
            (suc fuel)
            (if b then v.of_int64 (l.to_int64 n) else v.of_double n)
            s
          ≡ (ok tt, record s { stack = Value.number (number_back b n) ∷ s.stack })
    unfolding lua_json_to_value view_to_value
    number_back-ok true fuel n s = rw (view-of_int64 (l.to_int64 n)) refl
    number_back-ok false fuel n s = rw (view-of_double n) refl

    scalar-back :
        (fuel : ℕ) (x : Value l.types) (s : Machine l)
        → IsScalar l x
        → lua_json_to_value l v (suc fuel) (scalar l v x) s
          ≡ (ok tt, record s { stack = carried x ∷ s.stack })
    unfolding lua_json_to_value view_to_value int_of
    scalar-back fuel (Value.table t) s is_table = absurd is_table
    scalar-back fuel (Value.boolean true) s plain = rw (view-of_int64 (pos 1)) refl
    scalar-back fuel (Value.boolean false) s plain = rw (view-of_int64 (pos 0)) refl
    scalar-back fuel (Value.number n) s plain = number_back-ok (l.is_whole n) fuel n s
    scalar-back fuel (Value.string t) s plain = rw (view-of_text (c_str t), c_str-c_str t) refl
    scalar-back fuel Value.nil s plain = rw view-null refl
    scalar-back fuel (Value.function f) s plain = rw view-null refl
    scalar-back fuel (Value.userdata u) s plain = rw view-null refl
    scalar-back fuel (Value.other o) s plain = rw view-null refl

    -- A value at the top that is no table, converted to JSON and back: what is pushed is `carried` of it,
    -- that is 1 or 0 of a Boolean, the low 32 bits of a whole number, the `float` of any other, a text up to its first zero
    -- byte, and nil for what JSON has no value for.
    pub scalar_there_and_back :
        (fuel : ℕ) (x : Value l.types) (st : List (Value l.types)) (h : l.Heap)
        → IsScalar l x
        → (lua_value_to_json l v (suc fuel) top >>= lua_json_to_value l v (suc fuel))
            (record { stack = x ∷ st; heap = h })
          ≡ (ok tt, record { stack = carried x ∷ x ∷ st; heap = h })
    scalar_there_and_back fuel x st h plain =
        let s : Machine l = record { stack = x ∷ st; heap = h } in
        >>=-ok (lua_value_to_json l v (suc fuel) top) s s (lua_json_to_value l v (suc fuel))
          (lua_value_to_json-scalar l v fuel x st h plain)
        ∙ scalar-back fuel x s plain

    IsCarried-IsScalar : (x : Value l.types) → IsCarried x → IsScalar l x
    IsCarried-IsScalar (Value.table t) h = h
    IsCarried-IsScalar Value.nil h = tt
    IsCarried-IsScalar (Value.boolean b) h = absurd h
    IsCarried-IsScalar (Value.number n) h = tt
    IsCarried-IsScalar (Value.string s) h = tt
    IsCarried-IsScalar (Value.function f) h = tt
    IsCarried-IsScalar (Value.userdata u) h = tt
    IsCarried-IsScalar (Value.other o) h = tt

    -- Nil, a text without a zero byte, a whole number from -2³¹ to 2³¹ - 1 that its `int64_t`
    -- determines, and another number that is a `float` come back from JSON as they were.
    pub scalar_roundtrip :
        (fuel : ℕ) (x : Value l.types) (st : List (Value l.types)) (h : l.Heap)
        → IsCarried x
        → (lua_value_to_json l v (suc fuel) top >>= lua_json_to_value l v (suc fuel))
            (record { stack = x ∷ st; heap = h })
          ≡ (ok tt, record { stack = x ∷ x ∷ st; heap = h })
    scalar_roundtrip fuel x st h keeps =
        scalar_there_and_back fuel x st h (IsCarried-IsScalar x keeps)
        ∙ ap (λ y. (ok tt, record { stack = y ∷ x ∷ st; heap = h })) (carried-eq x keeps)
