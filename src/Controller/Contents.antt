-- ===== src/Controller/Contents.antt =====
-- controller.cpp: what the JSON objects hold that `send` and `onMqttConnect` build.
use things_mqtt_lua.Prelude.{
  ◌≡◌, refl, ◌∙◌, none, some, List, [], ◌∷◌, String, if◌then◌else◌, string_eq, arith, Option-cases,
  inl, inr,
}
use text.Mathlib.TextEquality.{eq_iff}
use text.Mathlib.TextPositions.{eq_refl}
use things_mqtt_lua.Prelude.Dict.{Dict, lookup, contains}
use things_mqtt_lua.Platform.{Json, JsonObjects}
use things_mqtt_lua.Controller.Payload.{collect, collect_all, at_or_null}
use things_mqtt_lua.Controller.Changed.{Covers, IsDistinct, keys_of, contains-keys_of}

module _ (json : Json) where
  Covers-head :
      (k : String) (ks : List String) (d : Dict String json.Value)
      → Covers d (k ∷ ks)
      → (v : json.Value) × (lookup k d ≡ some v)
  Covers-head k ks d cov = elim (Option-cases (lookup k d)) [
    | inl e ↦ absurd (cov k (ground (arith, eq_refl k)) e)
    | inr found ↦ found
  ]

  Covers-tail :
      (k : String) (ks : List String) (d : Dict String json.Value) → Covers d (k ∷ ks) → Covers d ks
  Covers-tail k ks d cov i m = cov i (ground arith)

  collect-cons :
      (k : String) (ks : List String) (o v : json.Value) (d : Dict String json.Value)
      → lookup k d ≡ some v
      → collect json (k ∷ ks) o d ≡ collect json ks (json.set_key o k v) d
  unfolding collect at_or_null
  collect-cons k ks o v d e = rw (at_or_null, e) refl

  -- `operator[]` makes no new entry for a key that is covered.
  pub collect-map :
      (ks : List String) (o : json.Value) (d : Dict String json.Value)
      → Covers d ks
      → (collect json ks o d).1 ≡ d
  unfolding collect
  collect-map [] o d cov = refl
  collect-map (k ∷ ks) o d cov =
      let (v, e) = Covers-head k ks d cov in
      rw (collect-cons k ks o v d e)
        (collect-map ks (json.set_key o k v) d (Covers-tail k ks d cov))

module _ (json : Json) (objects : JsonObjects json) where
  open objects use {find, IsObject, set_key-IsObject, find-set_key}

  pub collect-IsObject :
      (ks : List String) (o : json.Value) (d : Dict String json.Value)
      → Covers d ks
      → IsObject o
      → IsObject (collect json ks o d).0
  unfolding collect
  collect-IsObject [] o d cov h = h
  collect-IsObject (k ∷ ks) o d cov h =
      let (v, e) = Covers-head json k ks d cov in
      rw (collect-cons json k ks o v d e) (
        collect-IsObject ks (json.set_key o k v) d (Covers-tail json k ks d cov)
          (set_key-IsObject o k v h))

  -- The object has each key of the list, with the value in the map, and otherwise what it had.
  pub find-collect :
      (i : String) (ks : List String) (o : json.Value) (d : Dict String json.Value)
      → Covers d ks
      → IsObject o
      → find (collect json ks o d).0 i ≡ (if contains i ks then lookup i d else find o i)
  unfolding collect
  find-collect i [] o d cov h = refl
  find-collect i (k ∷ ks) o d cov h =
      let (v, e) = Covers-head json k ks d cov in
      rw (collect-cons json k ks o v d e) (
        find-collect i ks (json.set_key o k v) d (Covers-tail json k ks d cov)
          (set_key-IsObject o k v h)
        ∙ ground (arith, find-set_key o k i v h, e, eq_iff k i))

  -- The object has each key of the map, if no key stands twice, and otherwise what it had.
  pub find-collect_all :
      (i : String) (d : Dict String json.Value) (o : json.Value)
      → IsDistinct (keys_of d)
      → IsObject o
      → find (collect_all json d o) i ≡ elim (lookup i d) [ some v ↦ some v | none ↦ find o i ]
  unfolding collect_all
  find-collect_all i [] o distinct h = refl
  find-collect_all i ((k, v) ∷ d) o distinct h =
      find-collect_all i d (json.set_key o k v) distinct.1 (set_key-IsObject o k v h)
      ∙ ground (arith, find-set_key o k i v h, eq_iff k i, distinct.0, contains-keys_of k d)
