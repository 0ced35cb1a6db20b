-- ===== src/Controller/Writes.antt =====
-- controller.cpp, `publishTelemetry` and `setAttribute`, over a whole sequence of calls.
use things_mqtt_lua.Prelude.{
  ◌≡◌, refl, ◌∙◌, ◌⊎◌, inl, inr, Bool, false, ◌||◌, Option, none, some, Bool-cases, List, [], ◌∷◌,
  String, if◌then◌else◌, ◌==◌, string_eq, arith,
}
use text.Mathlib.TextEquality.{eq_iff}
use things_mqtt_lua.Prelude.Dict.{Dict, lookup, contains}
use things_mqtt_lua.Platform.{Json, Platform}
use things_mqtt_lua.Controller.State.{Controller}
use things_mqtt_lua.Controller.Sending.{publish_telemetry, set_attribute}
use things_mqtt_lua.Controller.Changed.{
  is_news, keep, store, contains-store, lookup-store, publish_telemetry-store, set_attribute-store,
}

-- The last value that the writes give to a key, or `old`.
abbrev pub last_write {ℓ} : {V : Type ℓ} → String → List (String × V) → Option V → Option V
last_write j [] old = old
last_write j ((k, v) ∷ ws) old = last_write j ws (if k == j then some v else old)

-- The value of one key through the writes: each value that is `!=` to the one there replaces it.
abbrev pub kept_value :
    (json : Json) → String → List (String × json.Value) → Option json.Value → Option json.Value
kept_value json j [] old = old
kept_value json j ((k, v) ∷ ws) old = kept_value json j ws (if k == j then keep json old v else old)

-- Whether any write to the key replaces the value that the key has by then.
abbrev pub is_changed :
    (json : Json) → String → List (String × json.Value) → Option json.Value → Bool
is_changed json j [] old = false
is_changed json j ((k, v) ∷ ws) old =
    if k == j
    then is_news json old v || is_changed json j ws (keep json old v)
    else is_changed json j ws old

-- The value kept is the other one, or not `!=` to it.
abbrev pub Agrees : (json : Json) → Option json.Value → Option json.Value → Type 0
Agrees json none none = Unit
Agrees json (some a) (some b) = (a ≡ b) ⊎ (json.ne a b ≡ false)
Agrees json _ _ = ⊥

module _ (json : Json) where
  keep-Agrees : (old : Option json.Value) (v : json.Value) → Agrees json (keep json old v) (some v)
  keep-Agrees none v = inl refl
  keep-Agrees (some old) v = elim (Bool-cases (json.ne old v)) [
    | inl changed ↦ rw changed (inl refl)
    | inr same ↦ rw same (inr same)
  ]

  kept_value-Agrees :
      (j : String) (ws : List (String × json.Value)) (kept last : Option json.Value)
      → Agrees json kept last
      → Agrees json (kept_value json j ws kept) (last_write j ws last)
  kept_value-Agrees j [] kept last h = h
  kept_value-Agrees j ((k, v) ∷ ws) kept last h = elim (Bool-cases (k == j)) [
    | inl same ↦ rw same (kept_value-Agrees j ws (keep json kept v) (some v) (keep-Agrees kept v))
    | inr another ↦ rw another (kept_value-Agrees j ws kept last h)
  ]

  same-Agrees : (o : Option json.Value) → Agrees json o o
  same-Agrees none = tt
  same-Agrees (some a) = inl refl

  abbrev store_all :
      List (String × json.Value)
      → Dict String json.Value × List String
      → Dict String json.Value × List String
  store_all [] s = s
  store_all ((k, v) ∷ ws) (d, keys) = store_all ws (store json k v d keys)

  lookup-store_all :
      (j : String) (ws : List (String × json.Value)) (d : Dict String json.Value)
      (keys : List String)
      → lookup j (store_all ws (d, keys)).0 ≡ kept_value json j ws (lookup j d)
  lookup-store_all j [] d keys = refl
  lookup-store_all j ((k, v) ∷ ws) d keys =
      let (d', keys') = store json k v d keys in
      lookup-store_all j ws d' keys' ∙ rw (lookup-store json j k v d keys) refl

  contains-store_all :
      (j : String) (ws : List (String × json.Value)) (d : Dict String json.Value)
      (keys : List String)
      → contains j (store_all ws (d, keys)).1
        ≡ (contains j keys || is_changed json j ws (lookup j d))
  contains-store_all j [] d keys = ground arith
  contains-store_all j ((k, v) ∷ ws) d keys =
      let (d', keys') = store json k v d keys in
      contains-store_all j ws d' keys'
      ∙ rw (lookup-store json j k v d keys, contains-store json j k v d keys)
          (ground (arith, eq_iff k j))

module _ (p : Platform) where
  -- A sequence of calls of `publishTelemetry`, or of `setAttribute`.
  abbrev pub publish_all : List (String × p.Value) → Controller p → Controller p
  publish_all [] c = c
  publish_all ((k, v) ∷ ws) c = publish_all ws (publish_telemetry {p = p} k v c)

  abbrev pub set_all : List (String × p.Value) → Controller p → Controller p
  set_all [] c = c
  set_all ((k, v) ∷ ws) c = set_all ws (set_attribute {p = p} k v c)

  publish_all-store_all :
      (ws : List (String × p.Value)) (c : Controller p)
      → let s = store_all p.json ws (c.m_telemetry_data, c.m_tainted_telemetry_keys) in
        publish_all ws c ≡ record c { m_telemetry_data = s.0; m_tainted_telemetry_keys = s.1 }
  publish_all-store_all [] c = refl
  publish_all-store_all ((k, v) ∷ ws) c =
      publish_all-store_all ws (publish_telemetry {p = p} k v c)
      ∙ rw (publish_telemetry-store p k v c) refl

  set_all-store_all :
      (ws : List (String × p.Value)) (c : Controller p)
      → let s = store_all p.json ws (c.m_attribute_data, c.m_tainted_attribute_keys) in
        set_all ws c ≡ record c { m_attribute_data = s.0; m_tainted_attribute_keys = s.1 }
  set_all-store_all [] c = refl
  set_all-store_all ((k, v) ∷ ws) c =
      set_all-store_all ws (set_attribute {p = p} k v c) ∙ rw (set_attribute-store p k v c) refl

  module _ (ws : List (String × p.Value)) (c : Controller p) (key : String) where
    -- After any sequence of calls of `publishTelemetry`, a key has the value last written to it, or
    -- one that is not `!=` to that, or the one that it had if none was written: of the values
    -- written, each that was `!=` to the one there has replaced it. The key waits to be sent if it
    -- waited or some write replaced its value; and no attribute and no pending payload changes.
    pub publish_all-last_write :
        let c' = publish_all ws c in
        Agrees p.json
          (lookup key c'.m_telemetry_data)
          (last_write key ws (lookup key c.m_telemetry_data))
        × (lookup key c'.m_telemetry_data
            ≡ kept_value p.json key ws (lookup key c.m_telemetry_data))
        × (contains key c'.m_tainted_telemetry_keys ≡ (
            contains key c.m_tainted_telemetry_keys
            || is_changed p.json key ws (lookup key c.m_telemetry_data)))
        × (c'.m_attribute_data ≡ c.m_attribute_data)
        × (c'.m_tainted_attribute_keys ≡ c.m_tainted_attribute_keys)
        × (c'.m_pending_telemetry ≡ c.m_pending_telemetry)
    publish_all-last_write = rw (publish_all-store_all ws c) (
      rw (lookup-store_all p.json key ws c.m_telemetry_data c.m_tainted_telemetry_keys) (
          kept_value-Agrees p.json key ws _ _ (same-Agrees p.json (lookup key c.m_telemetry_data))),
      lookup-store_all p.json key ws c.m_telemetry_data c.m_tainted_telemetry_keys,
      contains-store_all p.json key ws c.m_telemetry_data c.m_tainted_telemetry_keys,
      refl,
      refl,
      refl,
    )

    -- After any sequence of calls of `setAttribute`, an attribute has the value last written to it,
    -- or one that is not `!=` to that, or the one that it had if none was written: of the values
    -- written, each that was `!=` to the one there has replaced it. It waits to be sent if it waited
    -- or some write replaced its value; and no telemetry and no pending payload changes.
    pub set_all-last_write :
        let c' = set_all ws c in
        Agrees p.json
          (lookup key c'.m_attribute_data)
          (last_write key ws (lookup key c.m_attribute_data))
        × (lookup key c'.m_attribute_data
            ≡ kept_value p.json key ws (lookup key c.m_attribute_data))
        × (contains key c'.m_tainted_attribute_keys ≡ (
            contains key c.m_tainted_attribute_keys
            || is_changed p.json key ws (lookup key c.m_attribute_data)))
        × (c'.m_telemetry_data ≡ c.m_telemetry_data)
        × (c'.m_tainted_telemetry_keys ≡ c.m_tainted_telemetry_keys)
        × (c'.m_pending_telemetry ≡ c.m_pending_telemetry)
    set_all-last_write = rw (set_all-store_all ws c) (
      rw (lookup-store_all p.json key ws c.m_attribute_data c.m_tainted_attribute_keys) (
          kept_value-Agrees p.json key ws _ _ (same-Agrees p.json (lookup key c.m_attribute_data))),
      lookup-store_all p.json key ws c.m_attribute_data c.m_tainted_attribute_keys,
      contains-store_all p.json key ws c.m_attribute_data c.m_tainted_attribute_keys,
      refl,
      refl,
      refl,
    )
