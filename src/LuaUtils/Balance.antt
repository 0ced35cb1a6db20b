-- ===== src/LuaUtils/Balance.antt =====
-- lua-utils.cpp: what the conversions leave on the stack, whatever the interpreter answers.
use mathlib.Core.Path.{subst}
use things_mqtt_lua.Prelude.{
  ℕ, zero, suc, ◌≡◌, refl, sym, Bool, true, false, Option, none, some, List, ◌∷◌, String,
}
use things_mqtt_lua.Prelude.Int.{ℤ, pos}
use things_mqtt_lua.Prelude.Effect.{Result, ok, raised, Action, Void, ◌>>=◌, ◌>>◌, >>=-cases}
use things_mqtt_lua.Platform.{Json}
use things_mqtt_lua.JsonValues.{JsonValues}
use things_mqtt_lua.Lua.{
  Lua, Value, Machine, push, pop, next_entry, check_text, get_table, or_nil, at, c_str, first,
  push_entry,
}
use things_mqtt_lua.LuaUtils.{
  object_entry, array_entry, object_entries, array_entries, elements_or_entries, is_nil,
  table_to_json, typed_to_json, lua_value_to_json, below_top, top,
}

module _ {C : Type 0} (l : Lua C) where
  -- If a call returns, it leaves that stack.
  abbrev pub Leaves : {A : Type 0} → List (Value l.types) → Result A × Machine l → Type 0
  Leaves st (ok a, s) = s.stack ≡ st
  Leaves st (raised e, s) = Unit

  pub >>=-Leaves :
      {A B : Type 0} (m : Action (Machine l) A) (f : A → Action (Machine l) B)
      (st st' : List (Value l.types)) (s : Machine l)
      → Leaves st (m s)
      → ((a : A) (h : l.Heap) → Leaves st' (f a (record { stack = st; heap = h })))
      → Leaves st' ((m >>= f) s)
  >>=-Leaves {A} {B} m f st st' s h next =
      >>=-cases (Leaves st) (Leaves st') m f s h on_ok (λ e s' h. tt)
    where
      on_ok : (a : A) (s' : Machine l) → s'.stack ≡ st → Leaves st' (f a s')
      on_ok a s' e =
          subst (λ xs. Leaves st' (f a (record { stack = xs; heap = s'.heap }))) (sym e)
            (next a s'.heap)

  -- After `lua_next`: the entry above the stack, or nothing.
  abbrev pub LeavesEntry : List (Value l.types) → Result Bool × Machine l → Type 0
  LeavesEntry st (ok true, s) = (k : Value l.types) × (v : Value l.types) × (s.stack ≡ v ∷ k ∷ st)
  LeavesEntry st (ok false, s) = s.stack ≡ st
  LeavesEntry st (raised e, s) = Unit

  -- A step of a loop: what follows when there is no entry left, and when there is one.
  pub >>=-entry :
      {B : Type 0} (m : Action (Machine l) Bool) (f : Bool → Action (Machine l) B)
      (st : List (Value l.types)) (s : Machine l)
      → LeavesEntry st (m s)
      → ((h : l.Heap) → Leaves st (f false (record { stack = st; heap = h })))
      → ((k v : Value l.types) (h : l.Heap)
          → Leaves st (f true (record { stack = v ∷ k ∷ st; heap = h })))
      → Leaves st ((m >>= f) s)
  >>=-entry {B} m f st s entry done more =
      >>=-cases (LeavesEntry st) (Leaves st) m f s entry on_ok (λ e s' h. tt)
    where
      on_ok : (b : Bool) (s' : Machine l) → LeavesEntry st (ok b, s') → Leaves st (f b s')
      on_ok false s' e =
          subst (λ xs. Leaves st (f false (record { stack = xs; heap = s'.heap }))) (sym e)
            (done s'.heap)
      on_ok true s' (k, v, e) =
          subst (λ xs. Leaves st (f true (record { stack = xs; heap = s'.heap }))) (sym e)
            (more k v s'.heap)

  push_entry-LeavesEntry :
      (r : Result (Option (Value l.types × Value l.types))) (st : List (Value l.types)) (h : l.Heap)
      → let s : Machine l = record { stack = st; heap = h } in
        LeavesEntry st (elim r as (λ _. Result Bool × Machine l) [
          | ok entry ↦ push_entry entry s
          | raised e ↦ (raised e, s)
        ])
  push_entry-LeavesEntry (ok none) st h = refl
  push_entry-LeavesEntry (ok (some (k, v))) st h = (k, v, refl)
  push_entry-LeavesEntry (raised e) st h = tt

  pub next_entry-LeavesEntry :
      (i : ℤ) (k : Value l.types) (st : List (Value l.types)) (h : l.Heap)
      → LeavesEntry st (next_entry {l = l} i (record { stack = k ∷ st; heap = h }))
  next_entry-LeavesEntry i k st h =
      push_entry-LeavesEntry (l.next (or_nil (at (k ∷ st) i)) k h).0 st _

  -- A text takes the place of the key that it is read from.
  check_text-Leaves :
      (k v : Value l.types) (st : List (Value l.types)) (h : l.Heap)
      → (k' : Value l.types) × Leaves
          (v ∷ k' ∷ st)
          (check_text {l = l} below_top (record { stack = v ∷ k ∷ st; heap = h }))
  check_text-Leaves (Value.string s) v st h = (Value.string s, refl)
  check_text-Leaves (Value.number n) v st h = (Value.string (l.number_text n), refl)
  check_text-Leaves _ v st h = (Value.nil, tt)

  index-Leaves :
      (r : Result (Value l.types)) (st : List (Value l.types)) (h : l.Heap)
      → let s : Machine l = record { stack = st; heap = h } in
        (x : Value l.types) × Leaves
          (x ∷ st)
          (elim r as (λ _. Result Void × Machine l) [ ok a ↦ push a s | raised e ↦ (raised e, s) ])
  index-Leaves (ok a) st h = (a, refl)
  index-Leaves (raised e) st h = (Value.nil, tt)

  -- A value takes the place of its key.
  get_table-Leaves :
      (i : ℤ) (k : Value l.types) (st : List (Value l.types)) (h : l.Heap)
      → (x : Value l.types) × Leaves
          (x ∷ st)
          (get_table {l = l} i (record { stack = k ∷ st; heap = h }))
  get_table-Leaves i k st h = index-Leaves (l.index (or_nil (at (k ∷ st) i)) k h).0 st _

  -- A conversion leaves the stack as it was.
  abbrev pub IsConversion : {A : Type 0} → (ℤ → Action (Machine l) A) → Type 0
  IsConversion convert =
      (i : ℤ) (st : List (Value l.types)) (h : l.Heap)
      → Leaves st (convert i (record { stack = st; heap = h }))

  -- A loop takes the key away that it starts from.
  abbrev pub IsLoop : {A B : Type 0} → (A → Action (Machine l) B) → Type 0
  IsLoop {A} rest =
      (a : A) (k : Value l.types) (st : List (Value l.types)) (h : l.Heap)
      → Leaves st (rest a (record { stack = k ∷ st; heap = h }))

  module _ {j : Json} (v : JsonValues j l.Number) (convert : ℤ → Action (Machine l) j.Value)
      (c : IsConversion convert) where
    object_entry-Leaves :
        (rest : j.Value → Action (Machine l) j.Value) (obj : j.Value)
        → IsLoop rest
        → (k x : Value l.types) (st : List (Value l.types)) (h : l.Heap)
        → Leaves st
            (object_entry l v convert rest obj true (record { stack = x ∷ k ∷ st; heap = h }))
    unfolding object_entry
    object_entry-Leaves rest obj r k x st h =
        let (k', found) = check_text-Leaves k x st h in
        let store : String → j.Value → Action (Machine l) j.Value =
          λ key value. pop 1 >> rest (j.set_key obj (c_str key) value) in
        >>=-Leaves (check_text {l = l} below_top) (λ key. convert top >>= store key) (x ∷ k' ∷ st)
          st (record { stack = x ∷ k ∷ st; heap = h }) found
          λ key h'.
            >>=-Leaves (convert top) (store key) (x ∷ k' ∷ st) st
              (record { stack = x ∷ k' ∷ st; heap = h' }) (c top (x ∷ k' ∷ st) h')
              λ value h''. r (j.set_key obj (c_str key) value) k' st h''

    array_entry-Leaves :
        (rest : j.Value → Action (Machine l) j.Value) (json : j.Value)
        → IsLoop rest
        → (k x : Value l.types) (st : List (Value l.types)) (h : l.Heap)
        → Leaves st
            (array_entry l v convert rest json true (record { stack = x ∷ k ∷ st; heap = h }))
    unfolding array_entry
    array_entry-Leaves rest json r k x st h =
        >>=-Leaves (convert top) (λ value. pop 1 >> rest (v.push_back json value)) (x ∷ k ∷ st) st
          (record { stack = x ∷ k ∷ st; heap = h }) (c top (x ∷ k ∷ st) h)
          λ value h'. r (v.push_back json value) k st h'

    object_entries-IsLoop : (fuel : ℕ) (i : ℤ) → IsLoop (object_entries l v fuel convert i)
    unfolding object_entries
    object_entries-IsLoop zero i obj k st h = tt
    object_entries-IsLoop (suc fuel) i obj k st h =
        >>=-entry (next_entry {l = l} i)
          (object_entry l v convert (object_entries l v fuel convert i) obj) st
          (record { stack = k ∷ st; heap = h }) (next_entry-LeavesEntry i k st h) (λ h'. refl)
          (λ k' x h'.
            object_entry-Leaves (object_entries l v fuel convert i) obj
              (object_entries-IsLoop fuel i) k' x st h')

    array_entries-IsLoop : (fuel : ℕ) (i : ℤ) → IsLoop (array_entries l v fuel convert i)
    unfolding array_entries
    array_entries-IsLoop zero i json k st h = tt
    array_entries-IsLoop (suc fuel) i json k st h =
        >>=-entry (next_entry {l = l} i)
          (array_entry l v convert (array_entries l v fuel convert i) json) st
          (record { stack = k ∷ st; heap = h }) (next_entry-LeavesEntry i k st h) (λ h'. refl)
          (λ k' x h'.
            array_entry-Leaves (array_entries l v fuel convert i) json (array_entries-IsLoop fuel i)
              k' x st h')

    elements_or_entries-Leaves :
        (fuel : ℕ) (i : ℤ) (is_object : Bool) (x : Value l.types) (st : List (Value l.types))
        (h : l.Heap)
        → Leaves st
            (elements_or_entries l v fuel convert i is_object (record { stack = x ∷ st; heap = h }))
    unfolding elements_or_entries
    elements_or_entries-Leaves fuel i true x st h =
        object_entries-IsLoop fuel i v.empty_object Value.nil st h
    elements_or_entries-Leaves fuel i false x st h =
        array_entries-IsLoop fuel i v.empty_array Value.nil st h

    table_to_json-IsConversion : (fuel : ℕ) → IsConversion (table_to_json l v fuel convert)
    unfolding table_to_json
    table_to_json-IsConversion fuel i st h =
        let one : Value l.types = Value.number (l.of_integer (pos 1)) in
        let (x, found) = get_table-Leaves i one st h in
        >>=-Leaves (get_table {l = l} i)
          (λ _ s. elements_or_entries l v fuel convert i (is_nil (first s.stack)) s) (x ∷ st) st
          (record { stack = one ∷ st; heap = h }) found
          (λ _ h'. elements_or_entries-Leaves fuel i (is_nil x) x st h')

    typed_to_json-Leaves :
        (fuel : ℕ) (i : ℤ) (x : Option (Value l.types)) (st : List (Value l.types)) (h : l.Heap)
        → Leaves st (typed_to_json l v fuel convert i x (record { stack = st; heap = h }))
    unfolding typed_to_json
    typed_to_json-Leaves fuel i none st h = refl
    typed_to_json-Leaves fuel i (some (Value.table t)) st h = table_to_json-IsConversion fuel i st h
    typed_to_json-Leaves fuel i (some Value.nil) st h = refl
    typed_to_json-Leaves fuel i (some (Value.boolean b)) st h = refl
    typed_to_json-Leaves fuel i (some (Value.number n)) st h = refl
    typed_to_json-Leaves fuel i (some (Value.string s)) st h = refl
    typed_to_json-Leaves fuel i (some (Value.function f)) st h = refl
    typed_to_json-Leaves fuel i (some (Value.userdata u)) st h = refl
    typed_to_json-Leaves fuel i (some (Value.other o)) st h = refl

  -- Whatever the interpreter answers and whatever the index: if `lua_value_to_json` returns, it leaves
  -- the stack as it was.
  pub lua_value_to_json-balance :
      {j : Json} (v : JsonValues j l.Number) (fuel : ℕ) (i : ℤ) (st : List (Value l.types))
      (h : l.Heap)
      → Leaves st (lua_value_to_json l v fuel i (record { stack = st; heap = h }))
  unfolding lua_value_to_json
  lua_value_to_json-balance v zero i st h = tt
  lua_value_to_json-balance v (suc fuel) i st h =
      typed_to_json-Leaves v (lua_value_to_json l v fuel) (lua_value_to_json-balance v fuel) fuel i
        (at st i) st h
