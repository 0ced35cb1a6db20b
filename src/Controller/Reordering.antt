-- ===== src/Controller/Reordering.antt =====
-- controller.cpp: whatever the order in which the hash tables keep their keys, `publishTelemetry`,
-- `setAttribute` and `send` do the same.
use mathlib.Core.Path.{subst}
use things_mqtt_lua.Prelude.{
  ◌≡◌, refl, sym, ap, ◌∙◌, ◌*◌, Bool, not, ◌||◌, List, [], String, string_eq,
}
use things_mqtt_lua.Prelude.Dict.{Dict}
use things_mqtt_lua.Prelude.Effect.{Action, Void, ◌>>=◌, ◌>>◌, put, pure, when, gets}
use things_mqtt_lua.Platform.{Platform, JsonObjects}
use things_mqtt_lua.Controller.State.{Controller, is_empty}
use things_mqtt_lua.Controller.Payload.{collect, telemetry_payload}
use things_mqtt_lua.Controller.Sending.{
  publish_telemetry, set_attribute, send_telemetry, send_attributes, send_tainted_telemetry,
  send_tainted_attributes, send,
}
use things_mqtt_lua.Controller.Changed.{
  IsWellFormed, Covers, store, contains-store, lookup-store, publish_telemetry-store,
  set_attribute-store, publish_telemetry-IsWellFormed, set_attribute-IsWellFormed,
}
use things_mqtt_lua.Controller.Contents.{collect-IsObject, find-collect}
use things_mqtt_lua.Controller.Outbox.{
  changed_telemetry, changed_attributes, send_tainted_telemetry_lem, send_tainted_attributes_lem,
}
use things_mqtt_lua.Controller.Unordered.{
  SameMap, SameSet, IsExtensional, is_empty-SameSet, cleared-IsCache, IsAlike, Respects,
  >>=-Respects, by_value, when-Respects, IsBlind-Respects, send_telemetry-IsBlind,
  send_attributes-IsBlind,
}

module _ (p : Platform) (objects : JsonObjects p.json) (ext : IsExtensional objects) where
  collect-same :
      (ks ks' : List String) (d d' : Dict String p.Value)
      → SameSet ks ks'
      → SameMap d d'
      → Covers d ks
      → Covers d' ks'
      → (collect p.json ks p.json.null d).0 ≡ (collect p.json ks' p.json.null d').0
  collect-same ks ks' d d' set map cov cov' =
      ext _ _ (collect-IsObject p.json objects ks p.json.null d cov objects.null-IsObject)
        (collect-IsObject p.json objects ks' p.json.null d' cov' objects.null-IsObject)
        (λ k.
          find-collect p.json objects k ks p.json.null d cov objects.null-IsObject
          ∙ rw (set k, map k)
              (sym (find-collect p.json objects k ks' p.json.null d' cov' objects.null-IsObject)))

  changed_telemetry-same :
      (c c' : Controller p) → IsAlike p c c' → changed_telemetry p c ≡ changed_telemetry p c'
  changed_telemetry-same c c' alike =
      let values =
        collect-same c.m_tainted_telemetry_keys c'.m_tainted_telemetry_keys c.m_telemetry_data
          c'.m_telemetry_data alike.tainted_telemetry alike.telemetry alike.well.telemetry.covers
          alike.well'.telemetry.covers in
      ap (λ v. telemetry_payload p.json v (p.time c.m_mqtt_client.world * 1000)) values
      ∙ ap
          (λ m.
            telemetry_payload p.json
              (collect p.json c'.m_tainted_telemetry_keys p.json.null c'.m_telemetry_data).0
              (p.time m.world * 1000))
          alike.client

  changed_attributes-same :
      (c c' : Controller p) → IsAlike p c c' → changed_attributes p c ≡ changed_attributes p c'
  changed_attributes-same c c' alike =
      collect-same c.m_tainted_attribute_keys c'.m_tainted_attribute_keys c.m_attribute_data
        c'.m_attribute_data alike.tainted_attributes alike.attributes alike.well.attributes.covers
        alike.well'.attributes.covers

  send_tainted_telemetry-Respects : Respects p (send_tainted_telemetry {p = p})
  send_tainted_telemetry-Respects c c' alike =
      rw (send_tainted_telemetry_lem p c alike.well, send_tainted_telemetry_lem p c' alike.well')
        (by_value p (λ v. send_telemetry {p = p} v >> clear) (changed_telemetry p c)
          (changed_telemetry p c') c c' (changed_telemetry-same c c' alike)
          (>>=-Respects p (send_telemetry {p = p} (changed_telemetry p c)) (λ _. clear)
            (IsBlind-Respects p _ (send_telemetry-IsBlind p (changed_telemetry p c)))
            (λ _. clear-Respects))
          alike)
    where
      clear : Action (Controller p) Void
      clear = put (λ c. record c { m_tainted_telemetry_keys = [] })

      clear-Respects : Respects p clear
      clear-Respects c c' alike = (
        refl,
        record {
          well = record {
            telemetry = cleared-IsCache alike.well.telemetry;
            attributes = alike.well.attributes;
          };
          well' = record {
            telemetry = cleared-IsCache alike.well'.telemetry;
            attributes = alike.well'.attributes;
          };
          client = alike.client;
          pending = alike.pending;
          handlers = alike.handlers;
          telemetry = alike.telemetry;
          tainted_telemetry = λ k. refl;
          attributes = alike.attributes;
          tainted_attributes = alike.tainted_attributes;
        },
      )

  send_tainted_attributes-Respects : Respects p (send_tainted_attributes {p = p})
  send_tainted_attributes-Respects c c' alike =
      rw (send_tainted_attributes_lem p c alike.well, send_tainted_attributes_lem p c' alike.well')
        (by_value p (λ v. send_attributes {p = p} v >> clear) (changed_attributes p c)
          (changed_attributes p c') c c' (changed_attributes-same c c' alike)
          (>>=-Respects p (send_attributes {p = p} (changed_attributes p c)) (λ _. clear)
            (IsBlind-Respects p _ (send_attributes-IsBlind p (changed_attributes p c)))
            (λ _. clear-Respects))
          alike)
    where
      clear : Action (Controller p) Void
      clear = put (λ c. record c { m_tainted_attribute_keys = [] })

      clear-Respects : Respects p clear
      clear-Respects c c' alike = (
        refl,
        record {
          well = record {
            telemetry = alike.well.telemetry;
            attributes = cleared-IsCache alike.well.attributes;
          };
          well' = record {
            telemetry = alike.well'.telemetry;
            attributes = cleared-IsCache alike.well'.attributes;
          };
          client = alike.client;
          pending = alike.pending;
          handlers = alike.handlers;
          telemetry = alike.telemetry;
          tainted_telemetry = alike.tainted_telemetry;
          attributes = alike.attributes;
          tainted_attributes = λ k. refl;
        },
      )

  -- `if (!set.empty()) f();`, with whether it was done
  pub send-Respects : Respects p (send {p = p})
  unfolding send
  send-Respects c c' alike =
      by_value p (λ b. when b (send_tainted_telemetry {p = p}) >>= λ _. gets (λ c. c) >>= rest b)
        (not (is_empty c.m_tainted_telemetry_keys)) (not (is_empty c'.m_tainted_telemetry_keys)) c
        c' (ap not (is_empty-SameSet _ _ alike.tainted_telemetry))
        (>>=-Respects p (when _ (send_tainted_telemetry {p = p})) (λ _. gets (λ c. c) >>= rest _)
          (when-Respects p _ (send_tainted_telemetry {p = p}) send_tainted_telemetry-Respects)
          (λ _. rest-Respects _))
        alike
    where
      rest : Bool → Controller p → Action (Controller p) Bool
      rest telemetry c' =
          let attributes = not (is_empty c'.m_tainted_attribute_keys) in
          when attributes (send_tainted_attributes {p = p}) >> pure (telemetry || attributes)

      rest-Respects : (b : Bool) → Respects p (gets (λ c. c) >>= rest b)
      rest-Respects b c c' alike =
          by_value p (λ a. when a (send_tainted_attributes {p = p}) >> pure (b || a))
            (not (is_empty c.m_tainted_attribute_keys)) (not (is_empty c'.m_tainted_attribute_keys))
            c c' (ap not (is_empty-SameSet _ _ alike.tainted_attributes))
            (>>=-Respects p (when _ (send_tainted_attributes {p = p})) (λ _. pure (b || _))
              (when-Respects p _ (send_tainted_attributes {p = p}) send_tainted_attributes-Respects)
              (λ _ c c' alike. (refl, alike)))
            alike

module _ (p : Platform) where
  store-same :
      (k : String) (v : p.Value) (d d' : Dict String p.Value) (ks ks' : List String)
      → SameMap d d'
      → SameSet ks ks'
      → SameMap (store p.json k v d ks).0 (store p.json k v d' ks').0
        × SameSet (store p.json k v d ks).1 (store p.json k v d' ks').1
  store-same k v d d' ks ks' map set = (
    λ j. lookup-store p.json j k v d ks ∙ rw (map j) (sym (lookup-store p.json j k v d' ks')),
    λ j.
        contains-store p.json j k v d ks
        ∙ rw (set j, map k) (sym (contains-store p.json j k v d' ks')),
  )

  pub publish_telemetry-IsAlike :
      (key : String) (value : p.Value) (c c' : Controller p)
      → IsAlike p c c'
      → IsAlike p (publish_telemetry {p = p} key value c) (publish_telemetry {p = p} key value c')
  publish_telemetry-IsAlike key value c c' alike =
      let e = publish_telemetry-store p key value c in
      let e' = publish_telemetry-store p key value c' in
      let well = publish_telemetry-IsWellFormed p key value c alike.well in
      let well' = publish_telemetry-IsWellFormed p key value c' alike.well' in
      let (map, set) =
        store-same key value c.m_telemetry_data c'.m_telemetry_data c.m_tainted_telemetry_keys
          c'.m_tainted_telemetry_keys alike.telemetry alike.tainted_telemetry in
      rw (e, e')
        (record {
          well = subst (IsWellFormed p) e well;
          well' = subst (IsWellFormed p) e' well';
          client = alike.client;
          pending = alike.pending;
          handlers = alike.handlers;
          telemetry = map;
          tainted_telemetry = set;
          attributes = alike.attributes;
          tainted_attributes = alike.tainted_attributes;
        })

  pub set_attribute-IsAlike :
      (key : String) (value : p.Value) (c c' : Controller p)
      → IsAlike p c c'
      → IsAlike p (set_attribute {p = p} key value c) (set_attribute {p = p} key value c')
  set_attribute-IsAlike key value c c' alike =
      let e = set_attribute-store p key value c in
      let e' = set_attribute-store p key value c' in
      let well = set_attribute-IsWellFormed p key value c alike.well in
      let well' = set_attribute-IsWellFormed p key value c' alike.well' in
      let (map, set) =
        store-same key value c.m_attribute_data c'.m_attribute_data c.m_tainted_attribute_keys
          c'.m_tainted_attribute_keys alike.attributes alike.tainted_attributes in
      rw (e, e')
        (record {
          well = subst (IsWellFormed p) e well;
          well' = subst (IsWellFormed p) e' well';
          client = alike.client;
          pending = alike.pending;
          handlers = alike.handlers;
          telemetry = alike.telemetry;
          tainted_telemetry = alike.tainted_telemetry;
          attributes = map;
          tainted_attributes = set;
        })
