-- ===== src/Mosquitto/Discipline.antt =====
-- What a client of libmosquitto keeps of its handle from one call of the library to the next.
use things_mqtt_lua.Prelude.{ℕ, ◌≡◌, Bool, true, Option, none, some, [], ◌∷◌, String, nat_eq, arith}
use things_mqtt_lua.Prelude.Int.{ℤ}
use things_mqtt_lua.Mosquitto.{
  Mosquitto, MosqErr, success, no_conn, conn_lost, other, Run, returns, calls, CallbackKind,
}
use things_mqtt_lua.Mosquitto.Ledger.{
  Ledger, tallied, touch, strike, enter, run_beside, bare, count_init,
}

-- A property of the world that the call keeps, if the callbacks that it makes do.
abbrev pub RunKeeps : {W : Type 0} → (W → Type 0) → Run W → Type 0
RunKeeps P (returns rc w) = P w
RunKeeps {W} P (calls e w next) = P w × ((w' : W) → P w' → RunKeeps P (next w'))

-- `Held h` says of a world that `h` is the one handle that its owner has. The fields say what each call
-- makes of that.
pub record Discipline (m : Mosquitto) : Type 1 where
  pub Held : Option m.Handle → m.World → Type 0
  pub new :
      (id : Option String) (w : m.World) → Held none w → let (h, w') = m.new id true w in Held h w'
  pub destroy : (h : Option m.Handle) (w : m.World) → Held h w → Held none (m.destroy h w)
  pub username_pw_set :
      (user : String) (password : Option String) (h : Option m.Handle) (w : m.World)
      → Held h w
      → Held h (m.username_pw_set h user password w).1
  pub tls_set :
      (ca cert key : Option String) (h : Option m.Handle) (w : m.World)
      → Held h w
      → Held h (m.tls_set h ca cert key w).1
  pub reconnect_delay_set :
      (h : Option m.Handle) (w : m.World) → Held h w → Held h (m.reconnect_delay_set h 1 30 true w)
  pub connect :
      (host : String) (port keepalive : ℤ) (h : Option m.Handle) (w : m.World)
      → Held h w
      → Held h (m.connect h host port keepalive w).1
  pub connect_bind :
      (host : String) (port keepalive : ℤ) (bind : String) (h : Option m.Handle) (w : m.World)
      → Held h w
      → Held h (m.connect_bind h host port keepalive bind w).1
  pub disconnect :
      (h : Option m.Handle) (w : m.World) → Held h w → RunKeeps (Held h) (m.disconnect h w)
  pub subscribe :
      (topic : String) (qos : ℕ) (h : Option m.Handle) (w : m.World)
      → Held h w
      → Held h (m.subscribe h topic qos w).1
  pub unsubscribe :
      (topic : String) (h : Option m.Handle) (w : m.World)
      → Held h w
      → Held h (m.unsubscribe h topic w).1
  pub publish :
      (topic : String) (size : ℤ) (payload : String) (qos : ℕ) (retain : Bool) (h : Option m.Handle)
      (w : m.World)
      → Held h w
      → Held h (m.publish h topic size payload qos retain w).2
  pub callback_set :
      (kind : CallbackKind) (h : Option m.Handle) (w : m.World)
      → Held h w
      → Held h (m.callback_set h kind w)
  pub loop : (h : Option m.Handle) (w : m.World) → Held h w → RunKeeps (Held h) (m.loop h w)
  pub loop_start : (h : Option m.Handle) (w : m.World) → Held h w → Held h (m.loop_start h w).1
  pub loop_stop :
      (force : Bool) (h : Option m.Handle) (w : m.World) → Held h w → Held h (m.loop_stop h force w)

abbrev pub InitKeeps : {m : Mosquitto} → Discipline m → Type 0
InitKeeps {m} d = (h : Option m.Handle) (w : m.World) → d.Held h w → d.Held h (m.lib_init w).1

module _ {H : Type 0} where
  -- The ledger of one owner: the handle that it has is the one that lives, and no other was used.
  abbrev pub Entered : Option (H × ℕ) → Ledger → Type 0
  Entered none g = (g.live ≡ []) × (g.misuses ≡ 0)
  Entered (some (h, n)) g = (g.live ≡ n ∷ []) × (g.misuses ≡ 0)

  pub touch-Entered : (h : Option (H × ℕ)) (g : Ledger) → Entered h g → Entered h (touch h g)
  touch-Entered none g e = e
  touch-Entered (some (h, n)) g (live, well) = ground (arith, live, well)

  pub strike-Entered : (h : Option (H × ℕ)) (g : Ledger) → Entered h g → Entered none (strike h g)
  strike-Entered none g e = e
  strike-Entered (some (h, n)) g (live, well) = ground (arith, live, well)

  pub enter-Entered :
      (h : Option H) (g : Ledger) → Entered none g → let (h', g') = enter h g in Entered h' g'
  enter-Entered none g e = e
  enter-Entered (some h) g (live, well) = ground (arith, live, well)

module _ {W H : Type 0} (h : Option (H × ℕ)) where
  pub run_beside-RunKeeps :
      (r : Run W) (g : Ledger)
      → Entered h g
      → RunKeeps (λ (x : W × Ledger). Entered h x.1) (run_beside r g)
  run_beside-RunKeeps (returns rc w) g e = e
  run_beside-RunKeeps (calls event w next) g e = (e, λ x e'. run_beside-RunKeeps (next x.0) x.1 e')

pub count_init-Entered :
    {H : Type 0} (h : Option (H × ℕ)) (rc : MosqErr) (g : Ledger)
    → Entered h g
    → Entered h (count_init rc g)
count_init-Entered none success g e = e
count_init-Entered (some _) success g e = e
count_init-Entered h no_conn g e = e
count_init-Entered h conn_lost g e = e
count_init-Entered h (other _) g e = e

-- A library that keeps a ledger enters each handle with its owner, if that is the only one.
abbrev pub ledger_discipline : (m : Mosquitto) → Discipline (tallied m)
ledger_discipline m = record {
  Held = λ h x. Entered h x.1;
  new = λ id x e. enter-Entered (m.new id true x.0).0 x.1 e;
  destroy = λ h x e. strike-Entered h x.1 e;
  username_pw_set = λ user password h x e. touch-Entered h x.1 e;
  tls_set = λ ca cert key h x e. touch-Entered h x.1 e;
  reconnect_delay_set = λ h x e. touch-Entered h x.1 e;
  connect = λ host port keepalive h x e. touch-Entered h x.1 e;
  connect_bind = λ host port keepalive bind h x e. touch-Entered h x.1 e;
  disconnect = λ h x e.
      run_beside-RunKeeps h (m.disconnect (bare h) x.0) (touch h x.1) (touch-Entered h x.1 e);
  subscribe = λ topic qos h x e. touch-Entered h x.1 e;
  unsubscribe = λ topic h x e. touch-Entered h x.1 e;
  publish = λ topic size payload qos retain h x e. touch-Entered h x.1 e;
  callback_set = λ kind h x e. touch-Entered h x.1 e;
  loop = λ h x e. run_beside-RunKeeps h (m.loop (bare h) x.0) (touch h x.1) (touch-Entered h x.1 e);
  loop_start = λ h x e. touch-Entered h x.1 e;
  loop_stop = λ force h x e. touch-Entered h x.1 e;
}

pub ledger_init : (m : Mosquitto) → InitKeeps (ledger_discipline m)
ledger_init m h x e = count_init-Entered h (m.lib_init x.0).0 x.1 e
