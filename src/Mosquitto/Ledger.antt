-- ===== src/Mosquitto/Ledger.antt =====
-- The calls of libmosquitto that mqtt/mqtt-client.cpp and the two derived clients make, with a ledger
-- beside the library's own state: which of the handles that `mosquitto_new` has given out are not yet
-- destroyed, and how often the library was called with one that is.
use things_mqtt_lua.Prelude.{
  ℕ, suc, ◌-◌, Bool, false, Option, none, some, List, [], ◌∷◌, if◌then◌else◌, ◌==◌, ◌||◌, nat_eq,
}
use things_mqtt_lua.Mosquitto.{
  Mosquitto, MosqErr, success, no_conn, conn_lost, other, Run, returns, calls,
}

-- `made` handles have been given out, with the serial numbers below it; those in `live` are not yet
-- destroyed. `references` is the count that the library keeps of its initialisations.
pub record Ledger : Type 0 where
  pub made : ℕ
  pub live : List ℕ
  pub misuses : ℕ
  pub references : ℕ

abbrev pub empty_ledger : Ledger
empty_ledger = record { made = 0; live = []; misuses = 0; references = 0 }

abbrev pub is_live : ℕ → List ℕ → Bool
is_live n [] = false
is_live n (k ∷ ks) = (n == k) || is_live n ks

abbrev pub without : ℕ → List ℕ → List ℕ
without n [] = []
without n (k ∷ ks) = let rest = without n ks in if n == k then rest else k ∷ rest

abbrev pub misused : Ledger → Ledger
misused g = record g { misuses = suc g.misuses }

abbrev pub on_live : ℕ → (Ledger → Ledger) → Ledger → Ledger
on_live n f g = if is_live n g.live then f g else misused g

module _ {H : Type 0} where
  -- A call with a handle; the null pointer is no handle.
  abbrev pub touch : Option (H × ℕ) → Ledger → Ledger
  touch none g = g
  touch (some (h, n)) g = on_live n (λ g. g) g

  -- A call that ends the handle's life.
  abbrev pub strike : Option (H × ℕ) → Ledger → Ledger
  strike none g = g
  strike (some (h, n)) g = on_live n (λ g. record g { live = without n g.live }) g

  abbrev pub enter : Option H → Ledger → Option (H × ℕ) × Ledger
  enter none g = (none, g)
  enter (some h) g = (some (h, g.made), record g { made = suc g.made; live = g.made ∷ g.live })

  abbrev pub bare : Option (H × ℕ) → Option H
  bare none = none
  bare (some (h, n)) = some h

abbrev pub count_init : MosqErr → Ledger → Ledger
count_init success g = record g { references = suc g.references }
count_init no_conn g = g
count_init conn_lost g = g
count_init (other _) g = g

abbrev pub count_cleanup : Ledger → Ledger
count_cleanup g = record g { references = g.references - 1 }

module _ {W : Type 0} where
  -- The callbacks leave the ledger as they leave it; the library goes on with its own state.
  abbrev pub run_beside : Run W → Ledger → Run (W × Ledger)
  run_beside (returns rc w) g = returns rc (w, g)
  run_beside (calls e w next) g = calls e (w, g) (λ x. run_beside (next x.0) x.1)

abbrev pub tallied : Mosquitto → Mosquitto
tallied m = record {
  World = m.World × Ledger;
  Handle = m.Handle × ℕ;
  lib_init = λ x. let (rc, w) = m.lib_init x.0 in (rc, (w, count_init rc x.1));
  lib_cleanup = λ x. (m.lib_cleanup x.0, count_cleanup x.1);
  errno = λ x. m.errno x.0;
  new = λ id clean x. let (h, w) = m.new id clean x.0 in let (h', g) = enter h x.1 in (h', (w, g));
  destroy = λ h x. (m.destroy (bare h) x.0, strike h x.1);
  username_pw_set = λ h user password x.
      let (rc, w) = m.username_pw_set (bare h) user password x.0 in (rc, (w, touch h x.1));
  tls_set =
      λ h ca cert key x. let (rc, w) = m.tls_set (bare h) ca cert key x.0 in (rc, (w, touch h x.1));
  reconnect_delay_set = λ h low high exponential x.
      (m.reconnect_delay_set (bare h) low high exponential x.0, touch h x.1);
  connect = λ h host port keepalive x.
      let (rc, w) = m.connect (bare h) host port keepalive x.0 in (rc, (w, touch h x.1));
  connect_bind = λ h host port keepalive bind x.
      let (rc, w) = m.connect_bind (bare h) host port keepalive bind x.0 in (rc, (w, touch h x.1));
  disconnect = λ h x. run_beside (m.disconnect (bare h) x.0) (touch h x.1);
  subscribe =
      λ h topic qos x. let (rc, w) = m.subscribe (bare h) topic qos x.0 in (rc, (w, touch h x.1));
  unsubscribe =
      λ h topic x. let (rc, w) = m.unsubscribe (bare h) topic x.0 in (rc, (w, touch h x.1));
  publish = λ h topic size payload qos retain x.
      let (rc, mid, w) = m.publish (bare h) topic size payload qos retain x.0 in
      (rc, mid, (w, touch h x.1));
  callback_set = λ h kind x. (m.callback_set (bare h) kind x.0, touch h x.1);
  loop = λ h x. run_beside (m.loop (bare h) x.0) (touch h x.1);
  loop_start = λ h x. let (rc, w) = m.loop_start (bare h) x.0 in (rc, (w, touch h x.1));
  loop_stop = λ h force x. (m.loop_stop (bare h) force x.0, touch h x.1);
}
