-- ===== src/ThreadSafeQueue/Exclusion.antt =====
-- threadsafe-queue.hpp: what the mutex keeps of the queue, at each statement that a thread comes to while it
-- holds it.
use things_mqtt_lua.Prelude.{
  ℕ, ◌≡◌, refl, sym, ap, ◌∙◌, Bool, true, false, Option, none, some, List, [], ◌∷◌, ◌++◌, nat_eq,
  arith,
}
use mathlib.Core.Path.{subst}
use things_mqtt_lua.ThreadSafeQueue
use things_mqtt_lua.ThreadSafeQueue.{ThreadSafeQueue, pop_front}
use things_mqtt_lua.ThreadSafeQueue.Fifo.{Call, pushes, pops}
use things_mqtt_lua.ThreadSafeQueue.Locking.{
  Pc, outside, locking, pushing, testing, reading, dropping, leaving, first_statement, Returned,
  System, update, at, Step, begin, lock, push, find_empty, find_some, read, drop, unlock, start,
  Reach, started, later,
}

module _ {Msg : Type 0} where
  -- A call that is one step.
  abbrev pub call_at_once : Call Msg → ThreadSafeQueue Msg → Option Msg × ThreadSafeQueue Msg
  call_at_once (pushes msg) q = (none, ThreadSafeQueue.push msg q)
  call_at_once pops q = ThreadSafeQueue.pop q

  -- The calls, the last one first, have these results one after the other, and leave this queue.
  pub data Sequential (queue : List Msg) : List (Returned Msg) → List Msg → Type 0 where
    none_yet : Sequential queue [] queue
    after_call :
        (i : ℕ) (c : Call Msg) (got : Option Msg) (done : List (Returned Msg))
        (before after : List Msg)
        → Sequential queue done before
        → call_at_once c (record { m_queue = before }) ≡ (got, record { m_queue = after })
        → Sequential queue ((i, c, got) ∷ done) after

  abbrev pub is_inside : Pc Msg → Bool
  is_inside outside = false
  is_inside (locking c) = false
  is_inside _ = true

  abbrev pub StartsWith : Msg → List Msg → Type 0
  StartsWith msg [] = ⊥
  StartsWith msg (m ∷ rest) = m ≡ msg

  abbrev pub HasFront : List Msg → Type 0
  HasFront [] = ⊥
  HasFront (m ∷ rest) = Unit

  -- What holds of the queue while a thread has the mutex, by the statement that it comes to.
  abbrev pub Under : List Msg → List (Returned Msg) → List Msg → ℕ → Pc Msg → Type 0
  Under queue done q i outside = ⊥
  Under queue done q i (locking c) = ⊥
  Under queue done q i (pushing msg) = Sequential queue done q
  Under queue done q i testing = Sequential queue done q
  Under queue done q i reading = HasFront q × Sequential queue done q
  Under queue done q i (dropping msg) = StartsWith msg q × Sequential queue done q
  Under queue done q i (leaving c got) = Sequential queue ((i, c, got) ∷ done) q

  pub record IsExclusive (queue : List Msg) (done : List (Returned Msg)) (s : System Msg)
      : Type 0 where
    pub owner : (i : ℕ) → is_inside (s.pc i) ≡ true → s.m_mutex ≡ some i
    pub under : (i : ℕ) → s.m_mutex ≡ some i → Under queue done s.m_queue i (s.pc i)
    pub free : s.m_mutex ≡ none → Sequential queue done s.m_queue

  start-IsExclusive : (queue : List Msg) → IsExclusive queue [] (start queue)
  start-IsExclusive queue = record {
    owner = λ i inside. ground arith;
    under = λ i e. ground arith;
    free = λ e. none_yet;
  }

  pub update-same : (f : ℕ → Pc Msg) (i : ℕ) (p : Pc Msg) → update f i p i ≡ p
  update-same f i p = ground arith

  pub update-other : (f : ℕ → Pc Msg) (i j : ℕ) (p : Pc Msg) → ¬ (j ≡ i) → update f i p j ≡ f j
  update-other f i j p other = ground (arith, other)

  module _ (queue : List Msg) (done : List (Returned Msg)) where
    Under-update :
        (f : ℕ → Pc Msg) (q : List Msg) (i j : ℕ) (p : Pc Msg)
        → some i ≡ some j
        → Under queue done q i p
        → Under queue done q j (update f i p j)
    Under-update f q i j p e under =
        let same : i ≡ j = ground (arith, e) in
        subst (λ k. Under queue done q k (update f i p k)) same
          (subst (Under queue done q i) (sym (update-same f i p)) under)

    first_statement-Under :
        (q : List Msg) (i : ℕ) (c : Call Msg)
        → Sequential queue done q
        → Under queue done q i (first_statement c)
    first_statement-Under q i (pushes msg) seq = seq
    first_statement-Under q i pops seq = seq

    -- The thread that has the mutex goes on under it.
    go_on :
        (s : System Msg) (i : ℕ) (p : Pc Msg) (q : List Msg)
        → IsExclusive queue done s
        → s.m_mutex ≡ some i
        → is_inside p ≡ true
        → Under queue done q i p
        → IsExclusive queue done (at i p (record s { m_queue = q }))
    go_on s i p q inv held inside under = record {
      owner = λ j e. ground (arith, inv.owner j, held);
      under = λ j e. Under-update s.pc q i j p (sym held ∙ e) under;
      free = λ e. ground (arith, held, e);
    }

    -- ... from the statement that it has come to
    pub inside_held :
        (s : System Msg) (i : ℕ) (p : Pc Msg)
        → IsExclusive queue done s
        → s.pc i ≡ p
        → is_inside p ≡ true
        → (s.m_mutex ≡ some i) × Under queue done s.m_queue i p
    inside_held s i p inv e inside =
        let held = inv.owner i (ap is_inside e ∙ inside) in
        (held, subst (Under queue done s.m_queue i) e (inv.under i held))

    begin_call :
        (s : System Msg) (i : ℕ) (c : Call Msg)
        → IsExclusive queue done s
        → s.pc i ≡ outside
        → IsExclusive queue done (at i (locking c) s)
    begin_call s i c inv e = record {
      owner = λ j inside. ground (arith, inv.owner j);
      under = λ j held.
          let under = inv.under j held in
          let other : ¬ (j ≡ i) = λ same.
            subst (Under queue done s.m_queue i) e
              (subst (λ k. Under queue done s.m_queue k (s.pc k)) same under) in
          subst (Under queue done s.m_queue j) (sym (update-other s.pc i j (locking c) other))
            under;
      free = inv.free;
    }

    lock_mutex :
        (s : System Msg) (i : ℕ) (c : Call Msg)
        → IsExclusive queue done s
        → s.m_mutex ≡ none
        → IsExclusive queue done (at i (first_statement c) (record s { m_mutex = some i }))
    lock_mutex s i c inv free = record {
      owner = λ j inside. ground (arith, inv.owner j, free);
      under = λ j held.
          Under-update s.pc s.m_queue i j (first_statement c) held
            (first_statement-Under s.m_queue i c (inv.free free));
      free = λ e. ground (arith, e);
    }

    unlock_mutex :
        (s : System Msg) (i : ℕ) (c : Call Msg) (got : Option Msg)
        → IsExclusive queue done s
        → s.pc i ≡ leaving c got
        → IsExclusive queue ((i, c, got) ∷ done) (at i outside (record s { m_mutex = none }))
    unlock_mutex s i c got inv e =
        let (held, under) = inside_held s i (leaving c got) inv e refl in
        record {
          owner = λ j inside. ground (arith, inv.owner j, held);
          under = λ j e'. ground (arith, e');
          free = λ _. under;
        }

  Step-IsExclusive :
      {queue : List Msg} {done returned : List (Returned Msg)} {s t : System Msg}
      → Step s returned t
      → IsExclusive queue done s
      → IsExclusive queue (returned ++ done) t
  unfolding ThreadSafeQueue.push ThreadSafeQueue.pop
  Step-IsExclusive {queue} {done} {s = s} (begin i c e) inv = begin_call queue done s i c inv e
  Step-IsExclusive {queue} {done} {s = s} (lock i c e free) inv =
      lock_mutex queue done s i c inv free
  Step-IsExclusive {queue} {done} {s = s} (push i msg e) inv =
      let (held, seq) = inside_held queue done s i (pushing msg) inv e refl in
      go_on queue done s i (leaving (pushes msg) none) (s.m_queue ++ msg ∷ []) inv held refl
        (after_call i (pushes msg) none done s.m_queue _ seq refl)
  Step-IsExclusive {queue} {done} {s = s} (find_empty i e empty) inv =
      let (held, seq) = inside_held queue done s i testing inv e refl in
      go_on queue done s i (leaving pops none) s.m_queue inv held refl (
        after_call i pops none done s.m_queue s.m_queue seq (
          subst (λ q. call_at_once pops (record { m_queue = q }) ≡ (none, record { m_queue = q }))
            (sym empty) refl))
  Step-IsExclusive {queue} {done} {s = s} (find_some i msg rest e front) inv =
      let (held, seq) = inside_held queue done s i testing inv e refl in
      go_on queue done s i reading s.m_queue inv held refl (subst HasFront (sym front) tt, seq)
  Step-IsExclusive {queue} {done} {s = s} (read i msg rest e front) inv =
      let (held, (any, seq)) = inside_held queue done s i reading inv e refl in
      go_on queue done s i (dropping msg) s.m_queue inv held refl
        (subst (StartsWith msg) (sym front) refl, seq)
  Step-IsExclusive {queue} {done} {s = s} (drop i copy msg rest e front) inv =
      let (held, (first, seq)) = inside_held queue done s i (dropping copy) inv e refl in
      let same : msg ≡ copy = subst (StartsWith copy) front first in
      go_on queue done s i (leaving pops (some copy)) rest inv held refl (
        after_call i pops (some copy) done s.m_queue rest seq (
          subst
            (λ q.
              call_at_once pops (record { m_queue = q }) ≡ (some copy, record { m_queue = rest }))
            (sym front) (ap (λ m. (some m, record { m_queue = rest })) same)))
  Step-IsExclusive {queue} {done} {s = s} (unlock i c got e) inv =
      unlock_mutex queue done s i c got inv e

  pub Reach-IsExclusive :
      {queue : List Msg} {done : List (Returned Msg)} {s : System Msg}
      → Reach queue done s
      → IsExclusive queue done s
  Reach-IsExclusive {queue} started = start-IsExclusive queue
  Reach-IsExclusive (later r step) = Step-IsExclusive step (Reach-IsExclusive r)
