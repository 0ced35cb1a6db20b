-- ===== src/Controller/Changed.antt =====
-- controller.cpp, `publishTelemetry` and `setAttribute`: what is kept, and which keys wait to be sent.
-- The two make one step, `store`, each on a map and a set of its own.
use things_mqtt_lua.Prelude.{
  ◌≡◌, ◌≢◌, refl, ap, inl, inr, Bool, true, false, ◌||◌, ◌&&◌, Option, none, some, List, [], ◌∷◌,
  ◌++◌, String, if◌then◌else◌, ◌==◌, string_eq, arith, Bool-cases, Option-cases,
}
use text.Mathlib.TextEquality.{eq_iff}
use things_mqtt_lua.Prelude.Dict.{
  Dict, lookup, assign, emplace, contains, insert, lookup-snoc, lookup-assign, contains-insert,
  contains-snoc,
}
use things_mqtt_lua.Platform.{Json, Platform}
use things_mqtt_lua.Controller.State.{Controller}
use things_mqtt_lua.Controller.Sending.{publish_telemetry, set_attribute}

-- Every key of the set has a value in the map.
abbrev pub Covers : {V : Type 0} → Dict String V → List String → Type 0
Covers d keys = (k : String) → contains k keys ≡ true → lookup k d ≢ none

-- No key stands twice.
abbrev pub IsDistinct : List String → Type 0
IsDistinct [] = Unit
IsDistinct (k ∷ ks) = (contains k ks ≡ false) × IsDistinct ks

abbrev pub keys_of : {V : Type 0} → Dict String V → List String
keys_of [] = []
keys_of ((k, v) ∷ d) = k ∷ keys_of d

-- A map and the set of its keys that wait to be sent.
pub record IsCache {V : Type 0} (d : Dict String V) (keys : List String) : Type 0 where
  pub keyed : IsDistinct (keys_of d)
  pub covers : Covers d keys
  pub distinct : IsDistinct keys

-- The invariant of the controller's maps and sets.
pub record IsWellFormed (p : Platform) (c : Controller p) : Type 0 where
  pub telemetry : IsCache c.m_telemetry_data c.m_tainted_telemetry_keys
  pub attributes : IsCache c.m_attribute_data c.m_tainted_attribute_keys

snoc-IsDistinct :
    (k : String) (ks : List String)
    → contains k ks ≡ false
    → IsDistinct ks
    → IsDistinct (ks ++ k ∷ [])
snoc-IsDistinct k [] h d = (refl, tt)
snoc-IsDistinct k (j ∷ ks) h d =
    ground (arith, snoc-IsDistinct k ks, contains-snoc j k ks, eq_iff j k, eq_iff k j)

insert-IsDistinct : (k : String) (ks : List String) → IsDistinct ks → IsDistinct (insert k ks)
insert-IsDistinct k ks d = ground (arith, snoc-IsDistinct k ks)

module _ {V : Type 0} (k : String) (v : V) where
  keys_of-snoc : (d : Dict String V) → keys_of (d ++ (k, v) ∷ []) ≡ keys_of d ++ k ∷ []
  keys_of-snoc [] = refl
  keys_of-snoc (e ∷ d) = ap (◌∷◌ e.0) (keys_of-snoc d)

  keys_of-emplace :
      (d : Dict String V) → lookup k d ≡ none → keys_of (emplace k v d) ≡ keys_of d ++ k ∷ []
  keys_of-emplace d new = ground (arith, keys_of-snoc d)

  keys_of-assign : (d : Dict String V) → keys_of (assign k v d) ≡ keys_of d
  keys_of-assign [] = refl
  keys_of-assign (e ∷ d) = ground (arith, keys_of-assign d)

pub contains-keys_of :
    {V : Type 0} (i : String) (d : Dict String V)
    → contains i (keys_of d) ≡ elim (lookup i d) [ some _ ↦ true | none ↦ false ]
contains-keys_of i [] = refl
contains-keys_of i (e ∷ d) = ground (arith, contains-keys_of i d)

module _ (json : Json) where
  -- Whether `key` has no value yet, or another.
  abbrev pub is_news : Option json.Value → json.Value → Bool
  is_news none value = true
  is_news (some old) value = json.ne old value

  -- What a key has after a write, from what it had: `value` if that is news.
  abbrev pub keep : Option json.Value → json.Value → Option json.Value
  keep old value = if is_news old value then some value else old

  abbrev pub store_found :
      Option json.Value
      → String
      → json.Value
      → Dict String json.Value
      → List String
      → Dict String json.Value × List String
  store_found none key value d keys = (emplace key value d, insert key keys)
  store_found (some old) key value d keys =
      if json.ne old value then (assign key value d, insert key keys) else (d, keys)

  abbrev pub store :
      String
      → json.Value
      → Dict String json.Value
      → List String
      → Dict String json.Value × List String
  store key value d keys = store_found (lookup key d) key value d keys

  module _ (j k : String) (v : json.Value) (d : Dict String json.Value) (keys : List String) where
    -- The keys that wait are those that waited and the key stored, if that was news.
    pub contains-store :
        contains j (store k v d keys).1 ≡ (contains j keys || (k == j && is_news (lookup k d) v))
    contains-store = ground (arith, contains-insert j k keys)

    -- The key stored has the value, or the one that it had if that is not `!=` to it; no other
    -- changes.
    pub lookup-store :
        lookup j (store k v d keys).0 ≡ (if k == j then keep (lookup j d) v else lookup j d)
    lookup-store = elim (Option-cases (lookup k d)) [
      | inl new ↦ rw new (ground (arith, new, lookup-snoc j k v d, eq_iff k j))
      | inr (old, found) ↦ rw found (ground (arith, found, lookup-assign j k v d, eq_iff k j))
    ]

  store-Covers :
      (k : String) (v : json.Value) (d : Dict String json.Value) (keys : List String)
      → Covers d keys
      → Covers (store k v d keys).0 (store k v d keys).1
  store-Covers k v d keys cov j m = ground (
    arith,
    cov j,
    contains-insert j k keys,
    lookup-snoc j k v d,
    lookup-assign j k v d,
    eq_iff k j,
  )

  store-keyed :
      (k : String) (v : json.Value) (d : Dict String json.Value) (keys : List String)
      → IsDistinct (keys_of d)
      → IsDistinct (keys_of (store k v d keys).0)
  store-keyed k v d keys h = elim (Option-cases (lookup k d)) [
    | inl new ↦
        rw (new, keys_of-emplace k v d new)
          (snoc-IsDistinct k (keys_of d) (ground (arith, contains-keys_of k d)) h)
    | inr (old, found) ↦ rw found (elim (Bool-cases (json.ne old v)) [
      | inl changed ↦ rw (changed, keys_of-assign k v d) h
      | inr same ↦ rw same h
    ])
  ]

  pub store-IsCache :
      (k : String) (v : json.Value) (d : Dict String json.Value) (keys : List String)
      → IsCache d keys
      → IsCache (store k v d keys).0 (store k v d keys).1
  store-IsCache k v d keys h = record {
    keyed = store-keyed k v d keys h.keyed;
    covers = store-Covers k v d keys h.covers;
    distinct = ground (arith, insert-IsDistinct k keys h.distinct, h.distinct);
  }

module _ (p : Platform) (k : String) (v : p.Value) (c : Controller p) where
  abbrev telemetry_after : Dict String p.Value × List String
  telemetry_after = store p.json k v c.m_telemetry_data c.m_tainted_telemetry_keys

  abbrev attributes_after : Dict String p.Value × List String
  attributes_after = store p.json k v c.m_attribute_data c.m_tainted_attribute_keys

  pub publish_telemetry-store : publish_telemetry {p = p} k v c ≡ record c {
    m_telemetry_data = telemetry_after.0;
    m_tainted_telemetry_keys = telemetry_after.1;
  }
  unfolding publish_telemetry
  publish_telemetry-store = elim (Option-cases (lookup k c.m_telemetry_data)) [
    | inl new ↦ rw (new, publish_telemetry)
    | inr (old, found) ↦
        rw (found, publish_telemetry)
          (elim (Bool-cases (p.json.ne old v)) [ inl changed ↦ rw changed | inr same ↦ rw same ])
  ]

  pub set_attribute-store : set_attribute {p = p} k v c ≡ record c {
    m_attribute_data = attributes_after.0;
    m_tainted_attribute_keys = attributes_after.1;
  }
  unfolding set_attribute
  set_attribute-store = elim (Option-cases (lookup k c.m_attribute_data)) [
    | inl new ↦ rw (new, set_attribute)
    | inr (old, found) ↦
        rw (found, set_attribute)
          (elim (Bool-cases (p.json.ne old v)) [ inl changed ↦ rw changed | inr same ↦ rw same ])
  ]

  pub publish_telemetry-IsWellFormed :
      IsWellFormed p c → IsWellFormed p (publish_telemetry {p = p} k v c)
  publish_telemetry-IsWellFormed w = rw publish_telemetry-store (record {
    telemetry = store-IsCache p.json k v c.m_telemetry_data c.m_tainted_telemetry_keys w.telemetry;
    attributes = w.attributes;
  })

  pub set_attribute-IsWellFormed : IsWellFormed p c → IsWellFormed p (set_attribute {p = p} k v c)
  set_attribute-IsWellFormed w = rw set_attribute-store (record {
    telemetry = w.telemetry;
    attributes =
        store-IsCache p.json k v c.m_attribute_data c.m_tainted_attribute_keys w.attributes;
  })
