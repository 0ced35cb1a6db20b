-- ===== src/Controller/Commuting.antt =====
-- controller.cpp: `publishTelemetry` of a controller whose hash tables have no order: the quotient of the well-formed controllers by that order.
use mathlib.Core.Bool.{false≢true}
use mathlib.Core.Quot
use mathlib.Core.Quot.{Quot, Quot-set}
use mathlib.Core.Path.{subst}
use text.Mathlib.TextEquality.{eq_iff}
use things_mqtt_lua.Prelude.{
  Bool, true, false, ◌≡◌, refl, ◌∙◌, sym, ap, ◌==◌, ◌||◌, ◌&&◌, String, List, if◌then◌else◌,
  string_eq, arith,
}
use things_mqtt_lua.Prelude.Dict.{Dict, lookup, contains}
use things_mqtt_lua.Platform.{Platform, Json}
use things_mqtt_lua.Controller.State.{Controller}
use things_mqtt_lua.Controller.Sending.{publish_telemetry}
use things_mqtt_lua.Controller.Changed.{
  IsWellFormed, store, is_news, keep, contains-store, lookup-store, publish_telemetry-store,
  publish_telemetry-IsWellFormed,
}
use things_mqtt_lua.Controller.Unordered.{SameMap, SameSet, IsAlike}
use things_mqtt_lua.Controller.Reordering.{publish_telemetry-IsAlike}

not_both : (a b k : String) → (a == b) ≡ false → ((a == k) && (b == k)) ≡ false
not_both a b k other = ground (arith, other, eq_iff a k, eq_iff b k, eq_iff a b)

turned : (a b : String) → (a == b) ≡ false → (b == a) ≡ false
turned a b other = ground (arith, other, eq_iff a b, eq_iff b a)

-- Two changes of an entry, of which at most one is made, in either order.
changes_commute :
    {X : Type 0} (t u : Bool) (f g : X → X) (v : X)
    → (t && u) ≡ false
    → (if u then g (if t then f v else v) else (if t then f v else v))
      ≡ (if t then f (if u then g v else v) else (if u then g v else v))
changes_commute true true f g v h = absurd (false≢true (sym h))
changes_commute true false f g v h = refl
changes_commute false u f g v h = refl

or_commute : (p q r : Bool) → ((p || q) || r) ≡ ((p || r) || q)
or_commute p q r = ground arith

module _ (j : Json) (a b : String) (x y : j.Value) (d : Dict String j.Value)
    (ks : List String) where
  stored : Dict String j.Value × List String
  stored = store j a x d ks

  lookup-twice :
      (k : String)
      → (a == b) ≡ false
      → lookup k (store j b y stored.0 stored.1).0 ≡ (
          if b == k
          then keep j (if a == k then keep j (lookup k d) x else lookup k d) y
          else (if a == k then keep j (lookup k d) x else lookup k d))
  unfolding stored
  lookup-twice k other =
      lookup-store j k b y stored.0 stored.1
      ∙ ap (λ v. if b == k then keep j v y else v) (lookup-store j k a x d ks)

  contains-twice :
      (k : String)
      → (a == b) ≡ false
      → contains k (store j b y stored.0 stored.1).1 ≡ (
          (contains k ks || ((a == k) && is_news j (lookup a d) x))
          || ((b == k) && is_news j (lookup b d) y))
  unfolding stored
  contains-twice k other =
      let kept : lookup b stored.0 ≡ lookup b d =
        lookup-store j b a x d ks
        ∙ ap (λ t. if t then keep j (lookup b d) x else lookup b d) other in
      contains-store j k b y stored.0 stored.1
      ∙ ap (λ v. contains k stored.1 || ((b == k) && is_news j v y)) kept
      ∙ ap (λ t. t || ((b == k) && is_news j (lookup b d) y)) (contains-store j k a x d ks)

module _ (j : Json) (a b : String) (x y : j.Value) (d : Dict String j.Value) (ks : List String)
    (other : (a == b) ≡ false) where
  store_commute :
      let s = store j b y (store j a x d ks).0 (store j a x d ks).1 in
      let s' = store j a x (store j b y d ks).0 (store j b y d ks).1 in
      SameMap s.0 s'.0 × SameSet s.1 s'.1
  unfolding stored
  store_commute = (
    λ k.
        lookup-twice j a b x y d ks k other
        ∙ changes_commute (a == k) (b == k) (λ v. keep j v x) (λ v. keep j v y) (lookup k d)
            (not_both a b k other)
        ∙ sym (lookup-twice j b a y x d ks k (turned a b other)),
    λ k.
        contains-twice j a b x y d ks k other
        ∙ or_commute (contains k ks) _ _
        ∙ sym (contains-twice j b a y x d ks k (turned a b other)),
  )

module _ (p : Platform) where
  -- A well-formed controller, and the same without the order of its hash tables.
  abbrev pub WellFormed : Type 0
  WellFormed = (c : Controller p) × IsWellFormed p c

  abbrev pub Unordered : Type 0
  Unordered = Quot (λ (x y : WellFormed). IsAlike p x.0 y.0)

  -- `publishTelemetry`, which does not see the order.
  pub publish_unordered : String → p.Value → Unordered → Unordered
  publish_unordered key value =
      Quot.lift Quot-set
        (λ (c, w).
          Quot.mk
            (publish_telemetry {p = p} key value c, publish_telemetry-IsWellFormed p key value c w))
        (λ x y alike. Quot.sound (publish_telemetry-IsAlike p key value x.0 y.0 alike))

  publish_twice :
      (a b : String) (x y : p.Value) (c : Controller p)
      → publish_telemetry {p = p} b y (publish_telemetry {p = p} a x c) ≡ (
          let s = store p.json a x c.m_telemetry_data c.m_tainted_telemetry_keys in
          let s' = store p.json b y s.0 s.1 in
          record c { m_telemetry_data = s'.0; m_tainted_telemetry_keys = s'.1 })
  publish_twice a b x y c =
      ap (publish_telemetry {p = p} b y) (publish_telemetry-store p a x c)
      ∙ publish_telemetry-store p b y _

  publish_twice-IsAlike :
      (a b : String) (x y : p.Value) (c : Controller p)
      → (a == b) ≡ false
      → IsWellFormed p c
      → IsAlike p
          (publish_telemetry {p = p} b y (publish_telemetry {p = p} a x c))
          (publish_telemetry {p = p} a x (publish_telemetry {p = p} b y c))
  publish_twice-IsAlike a b x y c other w =
      let well =
        publish_telemetry-IsWellFormed p b y _ (publish_telemetry-IsWellFormed p a x c w) in
      let well' =
        publish_telemetry-IsWellFormed p a x _ (publish_telemetry-IsWellFormed p b y c w) in
      let (map, set) =
        store_commute p.json a b x y c.m_telemetry_data c.m_tainted_telemetry_keys other in
      let e = publish_twice a b x y c in
      let e' = publish_twice b a y x c in
      rw (e, e')
        (record {
          well = subst (IsWellFormed p) e well;
          well' = subst (IsWellFormed p) e' well';
          client = refl;
          pending = refl;
          handlers = refl;
          telemetry = map;
          tainted_telemetry = set;
          attributes = λ k. refl;
          tainted_attributes = λ k. refl;
        })

  -- Of the well-formed controllers without the order of their hash tables: two calls of
  -- `publishTelemetry` with different keys can be swapped.
  pub publish_comm :
      (a b : String) (x y : p.Value)
      → (a == b) ≡ false
      → (u : Unordered)
      → publish_unordered b y (publish_unordered a x u)
        ≡ publish_unordered a x (publish_unordered b y u)
  unfolding publish_unordered
  publish_comm a b x y other =
      Quot.ind (λ u. Quot-set _ _) (λ (c, w). Quot.sound (publish_twice-IsAlike a b x y c other w))
