-- ===== src/Prelude/Effect.antt =====
-- C++ calls that change an object and may throw: the state comes back after a throw too, since
-- what was written stays written.
use things_mqtt_lua.Prelude.Int.{ℤ}
use Prim.Native.String.{String}
use mathlib.Core.Bool.{Bool, true, false}
use mathlib.Core.List.{List, [], ◌∷◌}
use mathlib.Core.Path.{◌≡◌, ap}

-- The exceptions that the program throws, or lets through from nlohmann::json and from Lua.
pub data Exception : Type 0 where
  runtime_error : String → Exception
  invalid_argument : String → Exception
  bad_alloc : Exception
  parse_error : Exception
  type_error : Exception
  -- An error of the Lua interpreter, which leaves the C function as an exception does.
  lua_error : String → Exception
  -- The error of `luaL_check...`: the argument and what was expected.
  bad_argument : ℤ → String → Exception
  -- The model's own: a loop has used up its fuel.
  out_of_fuel : Exception

pub data Result {ℓ} (A : Type ℓ) : Type ℓ where
  ok : A → Result A
  raised : Exception → Result A

abbrev pub Action : Type 0 → Type 0 → Type 0
Action S A = S → Result A × S

abbrev pub Void : Type 0
Void = Unit

module _ {S : Type 0} where
  abbrev pub pure : {A : Type 0} → A → Action S A
  pure a s = (ok a, s)

  abbrev pub throw : {A : Type 0} → Exception → Action S A
  throw e s = (raised e, s)

  abbrev pub gets : {A : Type 0} → (S → A) → Action S A
  gets f s = (ok (f s), s)

  abbrev pub put : (S → S) → Action S Void
  put f s = (ok tt, f s)

  abbrev pub throw_if : Bool → Exception → Action S Void
  throw_if true e s = (raised e, s)
  throw_if false e s = (ok tt, s)

  abbrev pub when : Bool → Action S Void → Action S Void
  when true m s = m s
  when false m s = (ok tt, s)

  infixl 5 ◌>>=◌ ◌>>◌
  abbrev pub ◌>>=◌ : {A B : Type 0} → Action S A → (A → Action S B) → Action S B
  ◌>>=◌ m f s = let (r, s') = m s in elim r [ ok a ↦ f a s' | raised e ↦ (raised e, s') ]

  abbrev pub ◌>>◌ : {A B : Type 0} → Action S A → Action S B → Action S B
  m >> k = m >>= λ _. k

  -- `for (x : xs) f(x);`
  abbrev pub for_each {ℓ} : {A : Type ℓ} → List A → (A → Action S Void) → Action S Void
  for_each [] f s = (ok tt, s)
  for_each (x ∷ xs) f s =
      let (r, s') = f x s in elim r [ ok _ ↦ for_each xs f s' | raised e ↦ (raised e, s') ]

-- A step whose outcome is known.
module _ {S : Type 0} {A B : Type 0} (m : Action S A) (s s' : S) where
  pub >>=-ok : (f : A → Action S B) {a : A} → m s ≡ (ok a, s') → (m >>= f) s ≡ f a s'
  >>=-ok f h = ap (λ (x : Result A × S). elim x.0 [ ok a ↦ f a x.1 | raised e ↦ (raised e, x.1) ]) h

  pub >>-ok : (k : Action S B) {a : A} → m s ≡ (ok a, s') → (m >> k) s ≡ k s'
  >>-ok k h = >>=-ok (λ _. k) h

  pub >>=-raised :
      (f : A → Action S B) {e : Exception} → m s ≡ (raised e, s') → (m >>= f) s ≡ (raised e, s')
  >>=-raised f h =
      ap (λ (x : Result A × S). elim x.0 [ ok a ↦ f a x.1 | raised e ↦ (raised e, x.1) ]) h

-- From what is known of the first step's outcome to what is wanted of both.
pub >>=-cases :
    {S A B : Type 0} (P : Result A × S → Type 0) (Q : Result B × S → Type 0) (m : Action S A)
    (f : A → Action S B) (s : S)
    → P (m s)
    → ((a : A) (s' : S) → P (ok a, s') → Q (f a s'))
    → ((e : Exception) (s' : S) → P (raised e, s') → Q (raised e, s'))
    → Q ((m >>= f) s)
>>=-cases {S} {A} {B} P Q m f s h on_ok on_raised = by_result (m s).0 (m s).1 h
  where
    by_result :
        (r : Result A) (s' : S)
        → P (r, s')
        → Q (elim r as (λ _. Result B × S) [ ok a ↦ f a s' | raised e ↦ (raised e, s') ])
    by_result (ok a) s' h = on_ok a s' h
    by_result (raised e) s' h = on_raised e s' h

-- A property of the state that both steps keep, whether they return or throw.
pub >>=-keeps :
    {S A B : Type 0} (P : S → Type 0) (m : Action S A) (f : A → Action S B) (s : S)
    → P (m s).1
    → ((a : A) (s' : S) → P s' → P (f a s').1)
    → P ((m >>= f) s).1
>>=-keeps P m f s hm hf =
    >>=-cases (λ x. P x.1) (λ x. P x.1) m f s hm (λ a s' h. hf a s' h) (λ e s' h. h)
