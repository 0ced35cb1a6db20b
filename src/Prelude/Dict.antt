-- ===== src/Prelude/Dict.antt =====
-- `std::unordered_map` as an association list and `std::unordered_set` as a list, keys compared
-- by `==`. A new key goes to the end; the library leaves the order of iteration open.
use mathlib.Core.Path.{◌≡◌, refl}
use mathlib.Core.Bool.{Bool, false, ◌||◌}
use mathlib.Core.Option.{Option, none, some}
use mathlib.Core.List.{List, [], ◌∷◌, ◌++◌}
use native.Mathlib.Omega.{arith}
use things_mqtt_lua.Prelude.Tests.{if◌then◌else◌, Eq, ◌==◌}

abbrev pub Dict {ℓ κ} : Type ℓ → Type κ → Type (ℓ ⊔ κ)
Dict K V = List (K × V)

module _ {ℓ κ} {K : Type ℓ} {V : Type κ} ⦃e : Eq K⦄ where
  -- `m.find(k)`
  abbrev pub lookup : K → Dict K V → Option V
  lookup k [] = none
  lookup k ((j, v) ∷ d) = if j == k then some v else lookup k d

  -- `it->second = v`, with `it` the entry of `k`
  abbrev pub assign : K → V → Dict K V → Dict K V
  assign k v [] = []
  assign k v ((j, w) ∷ d) = if j == k then (j, v) ∷ d else (j, w) ∷ assign k v d

  -- `m.emplace(k, v)`: an entry that is there stays
  abbrev pub emplace : K → V → Dict K V → Dict K V
  emplace k v d = elim (lookup k d) [ none ↦ d ++ (k, v) ∷ [] | some _ ↦ d ]

  -- `m[k] = v`
  abbrev pub insert_or_assign : K → V → Dict K V → Dict K V
  insert_or_assign k v d = elim (lookup k d) [ none ↦ d ++ (k, v) ∷ [] | some _ ↦ assign k v d ]

  -- `m.erase(k)`
  abbrev pub erase : K → Dict K V → Dict K V
  erase k [] = []
  erase k ((j, w) ∷ d) = if j == k then erase k d else (j, w) ∷ erase k d

  pub lookup-snoc :
      (j k : K) (v : V) (d : Dict K V)
      → lookup j (d ++ (k, v) ∷ [])
        ≡ elim (lookup j d) [ some w ↦ some w | none ↦ if k == j then some v else none ]
  lookup-snoc j k v [] = refl
  lookup-snoc j k v ((i, w) ∷ d) = ground (arith, lookup-snoc j k v d)

  pub lookup-assign :
      (j k : K) (v : V) (d : Dict K V)
      → lookup j (assign k v d)
        ≡ elim (lookup j d) [ some w ↦ some (if k == j then v else w) | none ↦ none ]
  lookup-assign j k v [] = refl
  lookup-assign j k v ((i, w) ∷ d) =
      ground (arith, lookup-assign j k v d, e.exact i k, e.exact i j, e.exact k j)

  pub lookup-insert_or_assign :
      (j k : K) (v : V) (d : Dict K V)
      → lookup j (insert_or_assign k v d) ≡ (if k == j then some v else lookup j d)
  lookup-insert_or_assign j k v d =
      ground (arith, lookup-snoc j k v d, lookup-assign j k v d, e.exact k j)

  pub lookup-erase :
      (j k : K) (d : Dict K V) → lookup j (erase k d) ≡ (if k == j then none else lookup j d)
  lookup-erase j k [] = ground arith
  lookup-erase j k ((i, w) ∷ d) =
      ground (arith, lookup-erase j k d, e.exact i k, e.exact i j, e.exact k j)

module _ {ℓ} {K : Type ℓ} ⦃e : Eq K⦄ where
  -- membership in an `unordered_set`
  abbrev pub contains : K → List K → Bool
  contains k [] = false
  contains k (j ∷ s) = j == k || contains k s

  -- `s.insert(k)`
  abbrev pub insert : K → List K → List K
  insert k s = if contains k s then s else s ++ k ∷ []

  pub contains-snoc : (j k : K) (s : List K) → contains j (s ++ k ∷ []) ≡ (contains j s || k == j)
  contains-snoc j k [] = ground arith
  contains-snoc j k (i ∷ s) = ground (arith, contains-snoc j k s)

  pub contains-insert : (j k : K) (s : List K) → contains j (insert k s) ≡ (contains j s || k == j)
  contains-insert j k s = ground (arith, contains-snoc j k s, e.exact k j)
