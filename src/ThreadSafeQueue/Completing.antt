-- ===== src/ThreadSafeQueue/Completing.antt =====
-- threadsafe-queue.hpp: the calls that the threads are in come to their ends, with no help of other calls.
use things_mqtt_lua.Prelude.{
  ℕ, ◌≡◌, refl, sym, ◌∙◌, true, Option, some, List, [], ◌∷◌, inl, inr, Option-cases, nat_eq, arith,
  length, ◌≤◌,
}
use mathlib.Core.Path.{subst}
use things_mqtt_lua.ThreadSafeQueue.Fifo.{Call}
use things_mqtt_lua.ThreadSafeQueue.Locking.{
  Pc, outside, locking, pushing, testing, reading, dropping, leaving, Returned, System, Reach,
}
use things_mqtt_lua.ThreadSafeQueue.Exclusion.{
  IsExclusive, is_inside, Under, inside_held, Reach-IsExclusive,
}
use things_mqtt_lua.ThreadSafeQueue.Finishing.{
  call_of, Continues, Finishes, continue_on, holder-Finishes, waiting-Finishes,
}

module _ {Msg : Type 0} where
  -- The call of the thread can return, after one other call at most, if no more calls begin.
  abbrev pub CanReturn : System Msg → ℕ → Call Msg → Type 0
  CanReturn s i c =
      (got : Option Msg) × (earlier : List (Returned Msg)) × (t : System Msg) × Continues s
        ((i, c, got) ∷ earlier) t
      × (length earlier ≤ 1)

  -- A thread that waits while another one has the mutex: that one first.
  queueing_returns :
      (s : System Msg) (i k : ℕ) (c c' : Call Msg)
      → s.pc i ≡ locking c
      → ¬ (i ≡ k)
      → Finishes s k c'
      → CanReturn s i c
  queueing_returns s i k c c' e other (got', t, rest', free, others) =
      let (got, u, rest, _, _) = waiting-Finishes t i c (others i other ∙ e) free in
      (got, (k, c', got') ∷ [], u, continue_on rest' rest, omega arith)

  finished-CanReturn : (s : System Msg) (i : ℕ) (c : Call Msg) → Finishes s i c → CanReturn s i c
  finished-CanReturn s i c (got, t, rest, _, _) = (got, [], t, rest, omega arith)

  inside_returns :
      (queue : List Msg) (done : List (Returned Msg)) (s : System Msg) (i : ℕ) (p : Pc Msg)
      (c : Call Msg)
      → IsExclusive queue done s
      → s.pc i ≡ p
      → is_inside p ≡ true
      → call_of p ≡ some c
      → CanReturn s i c
  inside_returns queue done s i p c inv e inside called =
      let (c', called', f) =
        holder-Finishes queue done s i p e (inside_held queue done s i p inv e inside).1 in
      let same : c' ≡ c = ground (arith, called, called') in
      subst (CanReturn s i) same (finished-CanReturn s i c' f)

  locking_returns :
      (queue : List Msg) (done : List (Returned Msg)) (s : System Msg) (i : ℕ) (c : Call Msg)
      → IsExclusive queue done s
      → s.pc i ≡ locking c
      → CanReturn s i c
  locking_returns queue done s i c inv e = elim (Option-cases s.m_mutex) [
    | inl free ↦ finished-CanReturn s i c (waiting-Finishes s i c e free)
    | inr (k, held) ↦
        let under = inv.under k held in
        let (c', _, f) = holder-Finishes queue done s k (s.pc k) refl under in
        queueing_returns s i k c c' e
          (λ same.
            subst (Under queue done s.m_queue i) e
              (subst (λ j. Under queue done s.m_queue j (s.pc j)) (sym same) under))
          f
  ]

  caller_returns :
      (queue : List Msg) (done : List (Returned Msg)) (s : System Msg) (i : ℕ) (p : Pc Msg)
      (c : Call Msg)
      → IsExclusive queue done s
      → s.pc i ≡ p
      → call_of p ≡ some c
      → CanReturn s i c
  caller_returns queue done s i outside c inv e called = cc
  caller_returns queue done s i (locking c') c inv e called =
      let same : c' ≡ c = ground (arith, called) in
      subst (CanReturn s i) same (locking_returns queue done s i c' inv e)
  caller_returns queue done s i (pushing msg) c inv e called =
      inside_returns queue done s i (pushing msg) c inv e refl called
  caller_returns queue done s i testing c inv e called =
      inside_returns queue done s i testing c inv e refl called
  caller_returns queue done s i reading c inv e called =
      inside_returns queue done s i reading c inv e refl called
  caller_returns queue done s i (dropping msg) c inv e called =
      inside_returns queue done s i (dropping msg) c inv e refl called
  caller_returns queue done s i (leaving c' got) c inv e called =
      inside_returns queue done s i (leaving c' got) c inv e refl called

  -- Whatever the order in which the threads run: if a thread is in a call of the queue, then some steps,
  -- none of which begins a call, lead to where that call returns, and at most one other call returns on
  -- the way. So the calls never deadlock.
  pub Reach-CanReturn :
      {queue : List Msg} {done : List (Returned Msg)} {s : System Msg}
      → Reach queue done s
      → (i : ℕ) (c : Call Msg) → call_of (s.pc i) ≡ some c
      → CanReturn s i c
  Reach-CanReturn {queue} {done} {s} r i c called =
      caller_returns queue done s i (s.pc i) c (Reach-IsExclusive r) refl called
