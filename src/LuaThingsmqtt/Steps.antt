-- ===== src/LuaThingsmqtt/Steps.antt =====
-- lua-thingsmqtt.cpp: what single steps of the C functions leave on the stack, whatever the interpreter
-- answers.
use mathlib.Core.Path.{subst}
use things_mqtt_lua.Prelude.{
  ℕ, ◌≡◌, refl, sym, Option, none, some, List, [], ◌∷◌, String, nat_eq, length,
}
use things_mqtt_lua.Prelude.Int.{ℤ, pos}
use things_mqtt_lua.Prelude.Effect.{Result, ok, raised, Action, gets, ◌>>=◌, >>=-cases}
use things_mqtt_lua.Lua.{Value, Machine, check_text, at, required}
use things_mqtt_lua.LuaUtils.Balance.{Leaves}
use things_mqtt_lua.LuaThingsmqtt.Entries.{thingsmqtt_meta}
use things_mqtt_lua.LuaThingsmqtt.Process.{Host, Process, check_controller, on_lua, address_in}
use things_mqtt_lua.LuaThingsmqtt.Methods.{}
use things_mqtt_lua.LuaThingsmqtt.Publishing.{called}

module _ (host : Host) where
  open host use {lua, json_values, fuel}

  -- If a call returns, it leaves that stack.
  abbrev pub Ends : {A : Type 0} → List (Value lua.types) → Result A × Process host → Type 0
  Ends st (ok a, P) = P.lua.stack ≡ st
  Ends st (raised e, P) = Unit

  -- A call into the interpreter alone.
  pub on_lua-Ends :
      {A : Type 0} (m : Action (Machine lua) A) (st : List (Value lua.types)) (P : Process host)
      → Leaves lua st (m P.lua)
      → Ends st (on_lua host m P)
  on_lua-Ends {A} m st P h = by_result (m P.lua).0 (m P.lua).1 h
    where
      by_result :
          (r : Result A) (s : Machine lua)
          → Leaves lua st (r, s)
          → Ends st (r, record P { lua = s })
      by_result (ok a) s h = h
      by_result (raised e) s h = tt

  required-Leaves :
      {A : Type 0} (i : ℤ) (expected : String) (o : Option A) (s : Machine lua)
      → Leaves lua s.stack (required {l = lua} i expected o s)
  required-Leaves i expected none s = tt
  required-Leaves i expected (some a) s = refl

  pub check_controller-Ends :
      (st : List (Value lua.types)) (P : Process host)
      → Ends st (check_controller host (called host st P))
  check_controller-Ends st P =
      on_lua-Ends
        (gets (λ s. address_in host (at s.stack (pos 1)) s.heap)
          >>= required (pos 1) thingsmqtt_meta)
        st (called host st P)
        (required-Leaves (pos 1) thingsmqtt_meta (address_in host (at st (pos 1)) P.lua.heap) _)

  -- A key at the second place gives way to its text.
  pub check_text-second :
      (x k o : Value lua.types) (h : lua.Heap)
      → (k' : Value lua.types) × Leaves lua
          (x ∷ k' ∷ o ∷ [])
          (check_text {l = lua} (pos 2) (record { stack = x ∷ k ∷ o ∷ []; heap = h }))
  check_text-second x (Value.string s) o h = (Value.string s, refl)
  check_text-second x (Value.number n) o h = (Value.string (lua.number_text n), refl)
  check_text-second x _ o h = (Value.nil, tt)

  pub check_text-first :
      (k : Value lua.types) (h : lua.Heap)
      → (k' : Value lua.types) × Leaves lua
          (k' ∷ [])
          (check_text {l = lua} (pos 1) (record { stack = k ∷ []; heap = h }))
  check_text-first (Value.string s) h = (Value.string s, refl)
  check_text-first (Value.number n) h = (Value.string (lua.number_text n), refl)
  check_text-first _ h = (Value.nil, tt)

  -- If a call returns, it returns `count` values and leaves that many on the stack.
  abbrev pub LeavesCount : ℕ → Result ℕ × Process host → Type 0
  LeavesCount count (ok n, P) = (n ≡ count) × (length P.lua.stack ≡ count)
  LeavesCount count (raised e, P) = Unit

  pub >>=-count :
      {A : Type 0} (m : Action (Process host) A) (f : A → Action (Process host) ℕ)
      (st : List (Value lua.types)) (count : ℕ) (P : Process host)
      → Ends st (m P)
      → ((a : A) (Q : Process host) → LeavesCount count (f a (called host st Q)))
      → LeavesCount count ((m >>= f) P)
  >>=-count {A} m f st count P h next =
      >>=-cases (λ x. Ends st x) (λ x. LeavesCount count x) m f P h on_ok (λ e Q h. tt)
    where
      on_ok : (a : A) (Q : Process host) → Q.lua.stack ≡ st → LeavesCount count (f a Q)
      on_ok a Q e = subst (λ xs. LeavesCount count (f a (called host xs Q))) (sym e) (next a Q)
