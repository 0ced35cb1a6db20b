-- ===== src/Controller/Unordered.antt =====
-- controller.hpp and controller.cpp: the order in which the hash tables of the controller keep their keys,
-- which the C++ library leaves open, and what `publishTelemetry`, `setAttribute` and `send` make of it.
use mathlib.Core.Path.{subst}
use mathlib.Core.Bool.{false≢true}
use text.Mathlib.TextEquality.{eq_iff}
use things_mqtt_lua.Prelude.{
  ◌≡◌, refl, sym, ap, Bool, true, false, Option, none, some, List, [], ◌∷◌, ◌++◌, String,
  if◌then◌else◌, string_eq, arith,
}
use things_mqtt_lua.Prelude.Dict.{Dict, lookup, contains}
use things_mqtt_lua.Prelude.Effect.{
  when, Result, type_error, ok, raised, Action, Void, ◌>>=◌, put, pure,
}
use things_mqtt_lua.Platform.{Platform, Json, JsonObjects}
use things_mqtt_lua.Controller.State.{Controller, is_connected, is_empty}
use things_mqtt_lua.Controller.Sending.{publish, dump, send_telemetry, send_attributes}
use things_mqtt_lua.Controller.Changed.{IsWellFormed, IsCache}
use things_mqtt_lua.Controller.Outbox.{}

-- The same entries, in whatever order; the same members.
abbrev pub SameMap : {V : Type 0} → Dict String V → Dict String V → Type 0
SameMap d d' = (k : String) → lookup k d ≡ lookup k d'

abbrev pub SameSet : List String → List String → Type 0
SameSet ks ks' = (k : String) → contains k ks ≡ contains k ks'

-- Objects that have the same elements are equal, as `std::map`, in which nlohmann::json keeps them, makes
-- them.
abbrev pub IsExtensional : {j : Json} → JsonObjects j → Type 0
IsExtensional {j} objects =
    (a b : j.Value)
    → objects.IsObject a
    → objects.IsObject b
    → ((k : String) → objects.find a k ≡ objects.find b k)
    → a ≡ b

pub is_empty-SameSet : (ks ks' : List String) → SameSet ks ks' → is_empty ks ≡ is_empty ks'
is_empty-SameSet [] [] same = refl
is_empty-SameSet [] (k ∷ ks') same = ground (arith, same k, eq_iff k k)
is_empty-SameSet (k ∷ ks) [] same = ground (arith, same k, eq_iff k k)
is_empty-SameSet (k ∷ ks) (k' ∷ ks') same = refl

pub cleared-IsCache :
    {V : Type 0} {d : Dict String V} {keys : List String} → IsCache d keys → IsCache d []
cleared-IsCache h = record {
  keyed = h.keyed;
  covers = λ k here. absurd (false≢true here);
  distinct = tt;
}

module _ (p : Platform) where
  -- Two controllers that differ in the order of their maps and sets alone.
  pub record IsAlike (c c' : Controller p) : Type 0 where
    pub well : IsWellFormed p c
    pub well' : IsWellFormed p c'
    pub client : c.m_mqtt_client ≡ c'.m_mqtt_client
    pub pending : c.m_pending_telemetry ≡ c'.m_pending_telemetry
    pub handlers : c.m_rpc_handlers ≡ c'.m_rpc_handlers
    pub telemetry : SameMap c.m_telemetry_data c'.m_telemetry_data
    pub tainted_telemetry : SameSet c.m_tainted_telemetry_keys c'.m_tainted_telemetry_keys
    pub attributes : SameMap c.m_attribute_data c'.m_attribute_data
    pub tainted_attributes : SameSet c.m_tainted_attribute_keys c'.m_tainted_attribute_keys

  abbrev pub Respects : {A : Type 0} → Action (Controller p) A → Type 0
  Respects f =
      (c c' : Controller p) → IsAlike c c' → ((f c).0 ≡ (f c').0) × IsAlike (f c).1 (f c').1

  pub >>=-Respects :
      {A B : Type 0} (f : Action (Controller p) A) (g : A → Action (Controller p) B)
      → Respects f
      → ((a : A) → Respects (g a))
      → Respects (f >>= g)
  >>=-Respects {A} {B} f g hf hg c c' alike =
      let (same, alike') = hf c c' alike in by_result (f c).0 (f c').0 (f c).1 (f c').1 same alike'
    where
      rest : Result A → Controller p → Result B × Controller p
      rest r s = elim r [ ok a ↦ g a s | raised e ↦ (raised e, s) ]

      one_result :
          (r : Result A) (s s' : Controller p)
          → IsAlike s s'
          → ((rest r s).0 ≡ (rest r s').0) × IsAlike (rest r s).1 (rest r s').1
      one_result (ok a) s s' alike = hg a s s' alike
      one_result (raised e) s s' alike = (refl, alike)

      by_result :
          (r r' : Result A) (s s' : Controller p)
          → r ≡ r'
          → IsAlike s s'
          → ((rest r s).0 ≡ (rest r' s').0) × IsAlike (rest r s).1 (rest r' s').1
      by_result r r' s s' same alike =
          subst (λ q. ((rest r s).0 ≡ (rest q s').0) × IsAlike (rest r s).1 (rest q s').1) same
            (one_result r s s' alike)

  -- an action given by what the controller holds, that two alike controllers hold alike
  pub by_value :
      {A B : Type 0} (f : A → Action (Controller p) B) (v v' : A) (c c' : Controller p)
      → v ≡ v'
      → Respects (f v)
      → IsAlike c c'
      → ((f v c).0 ≡ (f v' c').0) × IsAlike (f v c).1 (f v' c').1
  by_value f v v' c c' same h alike =
      subst (λ x. ((f v c).0 ≡ (f x c').0) × IsAlike (f v c).1 (f x c').1) same (h c c' alike)

  pub when-Respects : (b : Bool) (f : Action (Controller p) Void) → Respects f → Respects (when b f)
  when-Respects true f h c c' alike = h c c' alike
  when-Respects false f h c c' alike = (refl, alike)

  -- An action that neither reads nor writes the maps and the sets: it does the same with others in their
  -- place.
  abbrev pub Maps : Type 0
  Maps = Dict String p.Value × List String × Dict String p.Value × List String

  abbrev maps : Controller p → Maps
  maps c = (
    c.m_telemetry_data, c.m_tainted_telemetry_keys, c.m_attribute_data, c.m_tainted_attribute_keys,
  )

  abbrev pub with_maps : Maps → Controller p → Controller p
  with_maps x c = record c {
    m_telemetry_data = x.0;
    m_tainted_telemetry_keys = x.1;
    m_attribute_data = x.2;
    m_tainted_attribute_keys = x.3;
  }

  abbrev pub IsBlind : {A : Type 0} → Action (Controller p) A → Type 0
  IsBlind f = (x : Maps) (c : Controller p) → f (with_maps x c) ≡ ((f c).0, with_maps x (f c).1)

  abbrev blank : Controller p → Controller p
  blank c = with_maps ([], [], [], []) c

  blank-alike : (c c' : Controller p) → IsAlike c c' → blank c ≡ blank c'
  blank-alike c c' alike = cc

  pub IsBlind-Respects : {A : Type 0} (f : Action (Controller p) A) → IsBlind f → Respects f
  IsBlind-Respects f blind c c' alike =
      let b = f (blank c) in
      let b' = f (blank c') in
      let e = ap f (blank-alike c c' alike) in
      let moved : (b.0 ≡ b'.0) × IsAlike (with_maps (maps c) b.1) (with_maps (maps c') b'.1) = (
        ap (λ x. x.0) e,
        record {
          well = record { telemetry = alike.well.telemetry; attributes = alike.well.attributes };
          well' = record { telemetry = alike.well'.telemetry; attributes = alike.well'.attributes };
          client = ap (λ x. x.1.m_mqtt_client) e;
          pending = ap (λ x. x.1.m_pending_telemetry) e;
          handlers = ap (λ x. x.1.m_rpc_handlers) e;
          telemetry = alike.telemetry;
          tainted_telemetry = alike.tainted_telemetry;
          attributes = alike.attributes;
          tainted_attributes = alike.tainted_attributes;
        },
      ) in
      subst (λ x. (x.0 ≡ (f c').0) × IsAlike x.1 (f c').1) (sym (blind (maps c) (blank c)))
        (subst (λ x. (b.0 ≡ x.0) × IsAlike (with_maps (maps c) b.1) x.1)
          (sym (blind (maps c') (blank c'))) moved)

  pub publish-IsBlind : (topic text : String) → IsBlind (publish {p = p} topic text)
  unfolding publish
  publish-IsBlind topic text x c = ground arith

  dump_then-IsBlind :
      {A : Type 0} (o : Option String) (k : String → Action (Controller p) A)
      → ((text : String) → IsBlind (k text))
      → IsBlind (
          (λ (c : Controller p). elim o as (λ _. Result String × Controller p) [
            | some text ↦ (ok text, c)
            | none ↦ (raised type_error, c)
          ])
          >>= k)
  dump_then-IsBlind none k h x c = refl
  dump_then-IsBlind (some text) k h x c = h text x c

  pub send_telemetry-IsBlind : (v : p.Value) → IsBlind (send_telemetry {p = p} v)
  unfolding send_telemetry is_connected
  send_telemetry-IsBlind v x c =
      dump_then-IsBlind (p.json.dump v) (deliver c.m_mqtt_client.m_connected)
        (deliver-IsBlind c.m_mqtt_client.m_connected) x c
    where
      deliver : Bool → String → Action (Controller p) Void
      deliver b text =
          if b
          then publish {p = p} p.telemetry_topic text
          else put (λ c. record c { m_pending_telemetry = c.m_pending_telemetry ++ text ∷ [] })

      deliver-IsBlind : (b : Bool) (text : String) → IsBlind (deliver b text)
      deliver-IsBlind true text = publish-IsBlind p.telemetry_topic text
      deliver-IsBlind false text = λ x c. refl

  pub send_attributes-IsBlind : (v : p.Value) → IsBlind (send_attributes {p = p} v)
  unfolding send_attributes is_connected
  send_attributes-IsBlind v x c = by_flag c.m_mqtt_client.m_connected x c
    where
      by_flag :
          (b : Bool)
          → IsBlind (
              if b
              then (dump {p = p} v >>= λ text. publish {p = p} p.attributes_topic text)
              else pure tt)
      by_flag true =
          dump_then-IsBlind (p.json.dump v) (publish {p = p} p.attributes_topic)
            (publish-IsBlind p.attributes_topic)
      by_flag false = λ x c. refl
