-- ===== src/ThreadSafeQueue/Linearizable.antt =====
-- threadsafe-queue.hpp: the calls of several threads, whatever the order in which the threads run.
use things_mqtt_lua.Prelude.{ℕ, ◌≡◌, true, none, List, nat_eq, arith}
use things_mqtt_lua.ThreadSafeQueue.Locking.{
  Pc, outside, locking, pushing, testing, reading, dropping, leaving, Returned, System, Reach,
}
use things_mqtt_lua.ThreadSafeQueue.Exclusion.{
  Sequential, is_inside, StartsWith, HasFront, Under, Reach-IsExclusive,
}

module _ {Msg : Type 0} where
  -- Whatever the order in which the threads run, once the mutex is free: the calls that have returned, in
  -- the order in which they gave it back, have the results that they have one after the other, each as
  -- one step, and leave the queue that they then leave.
  pub Reach-Sequential :
      {queue : List Msg} {done : List (Returned Msg)} {s : System Msg}
      → Reach queue done s
      → s.m_mutex ≡ none
      → Sequential queue done s.m_queue
  Reach-Sequential r free = (Reach-IsExclusive r).free free

  -- What a statement that reads the front of the queue relies on.
  abbrev pub FrontIs : Pc Msg → List Msg → Type 0
  FrontIs reading q = HasFront q
  FrontIs (dropping msg) q = StartsWith msg q
  FrontIs _ q = Unit

  Under-FrontIs :
      (queue : List Msg) (done : List (Returned Msg)) (q : List Msg) (i : ℕ) (p : Pc Msg)
      → Under queue done q i p
      → FrontIs p q
  Under-FrontIs queue done q i outside under = tt
  Under-FrontIs queue done q i (locking c) under = tt
  Under-FrontIs queue done q i (pushing msg) under = tt
  Under-FrontIs queue done q i testing under = tt
  Under-FrontIs queue done q i reading under = under.0
  Under-FrontIs queue done q i (dropping msg) under = under.0
  Under-FrontIs queue done q i (leaving c got) under = tt

  -- Whatever the order in which the threads run: two threads are never under the lock at a time; a
  -- thread that comes to `front()` or to `pop()` finds a message in the queue, and at `pop()` that message
  -- is the one that it has copied.
  pub Reach-exclusive :
      {queue : List Msg} {done : List (Returned Msg)} {s : System Msg}
      → Reach queue done s
      → (i j : ℕ) → is_inside (s.pc i) ≡ true
      → is_inside (s.pc j) ≡ true
      → (i ≡ j) × FrontIs (s.pc i) s.m_queue
  Reach-exclusive {queue} {done} {s} r i j inside inside' =
      let inv = Reach-IsExclusive r in
      let held = inv.owner i inside in
      let same : i ≡ j = ground (arith, held, inv.owner j inside') in
      (same, Under-FrontIs queue done s.m_queue i (s.pc i) (inv.under i held))
