-- ===== src/Controller/Stability.antt =====
-- controller.cpp: the invariant of the controller's maps and sets, through every call of its methods,
-- whether the call returns or throws.
use mathlib.Core.Bool.{false≢true}
use mathlib.Core.Path.{subst}
use things_mqtt_lua.Prelude.{
  ◌≡◌, refl, sym, Bool, true, false, List, [], String, not, ◌||◌, string_eq, arith,
}
use things_mqtt_lua.Prelude.Dict.{Dict}
use things_mqtt_lua.Prelude.Effect.{Action, Void, >>=-keeps, put, pure, when, ◌>>=◌}
use things_mqtt_lua.MqttCallbacks.{}
use things_mqtt_lua.Platform.{Platform}
use things_mqtt_lua.Controller.State.{
  Controller, ControllerConfig, new, is_empty, connect, connect_to,
}
use things_mqtt_lua.Controller.Sending.{
  send_telemetry, send_attributes, send_tainted_telemetry, send_tainted_attributes, send,
}
use things_mqtt_lua.Controller.Reactions.{loop, disconnect}
use things_mqtt_lua.Controller.Changed.{IsCache, IsWellFormed}
use things_mqtt_lua.Controller.Outbox.{
  changed_telemetry, changed_attributes, send_tainted_telemetry_lem, send_tainted_attributes_lem,
}
use things_mqtt_lua.Controller.Callbacks.{loop-Keeps, disconnect-Keeps}
use things_mqtt_lua.Controller.Frame.{send_telemetry-Keeps, send_attributes-Keeps}

module _ (p : Platform) where
  -- the maps and the sets
  abbrev Caches : Type 0
  Caches = Dict String p.Value × List String × Dict String p.Value × List String

  abbrev caches : Controller p → Caches
  caches c = (
    c.m_telemetry_data, c.m_tainted_telemetry_keys, c.m_attribute_data, c.m_tainted_attribute_keys,
  )

  same-IsWellFormed :
      {c c' : Controller p} → caches c' ≡ caches c → IsWellFormed p c → IsWellFormed p c'
  same-IsWellFormed {c} {c'} e w =
      let parts : IsCache c'.m_telemetry_data c'.m_tainted_telemetry_keys
          × IsCache c'.m_attribute_data c'.m_tainted_attribute_keys =
        subst (λ (v : Caches). IsCache v.0 v.1 × IsCache v.2 v.3) (sym e)
          (w.telemetry, w.attributes) in
      record { telemetry = parts.0; attributes = parts.1 }

  pub new-IsWellFormed : (w : p.World) → IsWellFormed p (new {p = p} w)
  unfolding new
  new-IsWellFormed w = record {
    telemetry = record { keyed = tt; covers = λ k h. absurd (false≢true h); distinct = tt };
    attributes = record { keyed = tt; covers = λ k h. absurd (false≢true h); distinct = tt };
  }

  pub send_tainted_telemetry-IsWellFormed :
      (c : Controller p) → IsWellFormed p c → IsWellFormed p (send_tainted_telemetry {p = p} c).1
  send_tainted_telemetry-IsWellFormed c w = rw (send_tainted_telemetry_lem p c w) (
      >>=-keeps (IsWellFormed p) (send_telemetry {p = p} (changed_telemetry p c))
        (λ _. put (λ c. record c { m_tainted_telemetry_keys = [] })) c
        (same-IsWellFormed (send_telemetry-Keeps caches (λ _ _ _. refl) (changed_telemetry p c) c)
          w)
        (λ _ c' w'. record {
          telemetry = record {
            keyed = w'.telemetry.keyed;
            covers = λ k h. absurd (false≢true h);
            distinct = tt;
          };
          attributes = w'.attributes;
        }))

  pub send_tainted_attributes-IsWellFormed :
      (c : Controller p) → IsWellFormed p c → IsWellFormed p (send_tainted_attributes {p = p} c).1
  send_tainted_attributes-IsWellFormed c w = rw (send_tainted_attributes_lem p c w) (
      >>=-keeps (IsWellFormed p) (send_attributes {p = p} (changed_attributes p c))
        (λ _. put (λ c. record c { m_tainted_attribute_keys = [] })) c
        (same-IsWellFormed (send_attributes-Keeps caches (λ _ _ _. refl) (changed_attributes p c) c)
          w)
        (λ _ c' w'. record {
          telemetry = w'.telemetry;
          attributes = record {
            keyed = w'.attributes.keyed;
            covers = λ k h. absurd (false≢true h);
            distinct = tt;
          };
        }))

  when-IsWellFormed :
      (b : Bool) (m : Action (Controller p) Void)
      → ((c : Controller p) → IsWellFormed p c → IsWellFormed p (m c).1)
      → (c : Controller p) → IsWellFormed p c
      → IsWellFormed p (when b m c).1
  when-IsWellFormed true m h c w = h c w
  when-IsWellFormed false m h c w = w

  pub send-IsWellFormed : (c : Controller p) → IsWellFormed p c → IsWellFormed p (send {p = p} c).1
  unfolding send
  send-IsWellFormed c w =
      >>=-keeps (IsWellFormed p)
        (when (not (is_empty c.m_tainted_telemetry_keys)) (send_tainted_telemetry {p = p}))
        (λ _ c'.
          (when (not (is_empty c'.m_tainted_attribute_keys)) (send_tainted_attributes {p = p})
              >>= λ _. pure (
                  not (is_empty c.m_tainted_telemetry_keys)
                  || not (is_empty c'.m_tainted_attribute_keys)))
            c')
        c
        (when-IsWellFormed _ (send_tainted_telemetry {p = p}) send_tainted_telemetry-IsWellFormed c
          w)
        (λ _ c' w'.
          >>=-keeps (IsWellFormed p)
            (when (not (is_empty c'.m_tainted_attribute_keys)) (send_tainted_attributes {p = p}))
            (λ _. pure (
              not (is_empty c.m_tainted_telemetry_keys)
              || not (is_empty c'.m_tainted_attribute_keys)))
            c'
            (when-IsWellFormed _ (send_tainted_attributes {p = p})
              send_tainted_attributes-IsWellFormed c' w')
            (λ _ _ w''. w''))

  pub loop-IsWellFormed : (c : Controller p) → IsWellFormed p c → IsWellFormed p (loop {p = p} c).1
  loop-IsWellFormed c w = same-IsWellFormed (loop-Keeps caches (λ _ _ _. refl) c) w

  pub disconnect-IsWellFormed :
      (c : Controller p) → IsWellFormed p c → IsWellFormed p (disconnect {p = p} c).1
  disconnect-IsWellFormed c w = same-IsWellFormed (disconnect-Keeps caches (λ _ _ _. refl) c) w

  pub connect-IsWellFormed :
      (config : ControllerConfig) (c : Controller p)
      → IsWellFormed p c
      → IsWellFormed p (connect {p = p} config c).1
  unfolding connect connect_to
  connect-IsWellFormed config c w = same-IsWellFormed {c = c} (ground arith) w
