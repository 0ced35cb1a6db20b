-- ===== src/ThreadSafeQueue/Finishing.antt =====
-- threadsafe-queue.hpp: a thread that has the mutex, or finds it free, comes to the end of its call.
use things_mqtt_lua.Prelude.{
  ℕ, ◌≡◌, refl, sym, ap, ◌∙◌, Bool, true, false, Option, none, some, List, [], ◌∷◌, ◌++◌,
  append_assoc, append-nil, ◌⊎◌, inl, inr, nat_eq,
}
use mathlib.Core.Path.{subst}
use things_mqtt_lua.ThreadSafeQueue.Fifo.{Call, pushes, pops}
use things_mqtt_lua.ThreadSafeQueue.Locking.{
  Pc, outside, locking, pushing, testing, reading, dropping, leaving, first_statement, Returned,
  System, at, Step, begin, lock, push, find_empty, find_some, read, drop, unlock,
}
use things_mqtt_lua.ThreadSafeQueue.Exclusion.{
  StartsWith, HasFront, Under, update-same, update-other,
}

module _ {Msg : Type 0} where
  -- The call that a thread is in, if it is in one.
  abbrev pub call_of : Pc Msg → Option (Call Msg)
  call_of outside = none
  call_of (locking c) = some c
  call_of (pushing msg) = some (pushes msg)
  call_of testing = some pops
  call_of reading = some pops
  call_of (dropping msg) = some pops
  call_of (leaving c got) = some c

  abbrev pub begins : {s t : System Msg} {returned : List (Returned Msg)} → Step s returned t → Bool
  begins (begin i c e) = true
  begins (lock i c e free) = false
  begins (push i msg e) = false
  begins (find_empty i e empty) = false
  begins (find_some i msg rest e front) = false
  begins (read i msg rest e front) = false
  begins (drop i copy msg rest e front) = false
  begins (unlock i c got e) = false

  -- Steps in which no call begins, with the calls that return in them, the last one first.
  pub data Continues : System Msg → List (Returned Msg) → System Msg → Type 0 where
    stays : {s : System Msg} → Continues s [] s
    goes :
        {returned later : List (Returned Msg)} {s t u : System Msg} (step : Step s returned t)
        → begins step ≡ false
        → Continues t later u
        → Continues s (later ++ returned) u

  pub continue_on :
      {s t u : System Msg} {first second : List (Returned Msg)}
      → Continues s first t
      → Continues t second u
      → Continues s (second ++ first) u
  continue_on {s} {u} {second} stays k = subst (λ l. Continues s l u) (sym (append-nil second)) k
  continue_on {s} {u} {second} (goes {returned} {later} step under_way rest) k =
      subst (λ l. Continues s l u) (append_assoc second later returned)
        (goes step under_way (continue_on rest k))

  -- The thread that has the mutex returns, gives it back, and the other threads are where they were.
  abbrev pub Finishes : System Msg → ℕ → Call Msg → Type 0
  Finishes s i c =
      (got : Option Msg) × (t : System Msg) × Continues s ((i, c, got) ∷ []) t
      × (t.m_mutex ≡ none)
      × ((j : ℕ) → ¬ (j ≡ i) → t.pc j ≡ s.pc j)

  -- A step of the thread, and then the rest.
  then-Finishes :
      (s s' : System Msg) (i : ℕ) (p : Pc Msg) (c : Call Msg)
      → s'.pc ≡ s.pc
      → (step : Step s [] (at i p s')) → begins step ≡ false
      → Finishes (at i p s') i c
      → Finishes s i c
  then-Finishes s s' i p c same step under_way (got, t, rest, free, others) = (
    got,
    t,
    goes step under_way rest,
    free,
    λ j other. others j other ∙ update-other s'.pc i j p other ∙ ap (λ f. f j) same,
  )

  leaving-Finishes :
      (s : System Msg) (i : ℕ) (c : Call Msg) (got : Option Msg)
      → s.pc i ≡ leaving c got
      → Finishes s i c
  leaving-Finishes s i c got e =
      (got, _, goes (unlock i c got e) refl stays, refl, λ j. update-other s.pc i j outside)

  pushing-Finishes :
      (s : System Msg) (i : ℕ) (msg : Msg) → s.pc i ≡ pushing msg → Finishes s i (pushes msg)
  pushing-Finishes s i msg e =
      then-Finishes s (record s { m_queue = s.m_queue ++ msg ∷ [] }) i (leaving (pushes msg) none)
        (pushes msg) refl (push i msg e) refl
        (leaving-Finishes _ i (pushes msg) none (update-same s.pc i (leaving (pushes msg) none)))

  dropping-Finishes :
      (s : System Msg) (i : ℕ) (copy msg : Msg) (rest : List Msg)
      → s.pc i ≡ dropping copy
      → s.m_queue ≡ msg ∷ rest
      → Finishes s i pops
  dropping-Finishes s i copy msg rest e front =
      then-Finishes s (record s { m_queue = rest }) i (leaving pops (some copy)) pops refl
        (drop i copy msg rest e front) refl
        (leaving-Finishes _ i pops (some copy) (update-same s.pc i (leaving pops (some copy))))

  reading-Finishes :
      (s : System Msg) (i : ℕ) (msg : Msg) (rest : List Msg)
      → s.pc i ≡ reading
      → s.m_queue ≡ msg ∷ rest
      → Finishes s i pops
  reading-Finishes s i msg rest e front =
      then-Finishes s s i (dropping msg) pops refl (read i msg rest e front) refl
        (dropping-Finishes _ i msg msg rest (update-same s.pc i (dropping msg)) front)

  queue_cases : (q : List Msg) → (q ≡ []) ⊎ ((msg : Msg) × (rest : List Msg) × (q ≡ msg ∷ rest))
  queue_cases [] = inl refl
  queue_cases (msg ∷ rest) = inr (msg, rest, refl)

  testing-Finishes : (s : System Msg) (i : ℕ) → s.pc i ≡ testing → Finishes s i pops
  testing-Finishes s i e = elim (queue_cases s.m_queue) [
    | inl empty ↦
        then-Finishes s s i (leaving pops none) pops refl (find_empty i e empty) refl
          (leaving-Finishes _ i pops none (update-same s.pc i (leaving pops none)))
    | inr (msg, rest, front) ↦
        then-Finishes s s i reading pops refl (find_some i msg rest e front) refl
          (reading-Finishes _ i msg rest (update-same s.pc i reading) front)
  ]

  front_of : (q : List Msg) → HasFront q → (msg : Msg) × (rest : List Msg) × (q ≡ msg ∷ rest)
  front_of [] h = absurd h
  front_of (msg ∷ rest) h = (msg, rest, refl)

  has_front : (msg : Msg) (q : List Msg) → StartsWith msg q → HasFront q
  has_front msg [] h = absurd h
  has_front msg (m ∷ rest) h = tt

  pub holder-Finishes :
      (queue : List Msg) (done : List (Returned Msg)) (s : System Msg) (i : ℕ) (p : Pc Msg)
      → s.pc i ≡ p
      → Under queue done s.m_queue i p
      → (c : Call Msg) × (call_of p ≡ some c) × Finishes s i c
  holder-Finishes queue done s i outside e under = absurd under
  holder-Finishes queue done s i (locking c) e under = absurd under
  holder-Finishes queue done s i (pushing msg) e under = (_, refl, pushing-Finishes s i msg e)
  holder-Finishes queue done s i testing e under = (_, refl, testing-Finishes s i e)
  holder-Finishes queue done s i reading e under =
      let (msg, rest, front) = front_of s.m_queue under.0 in
      (_, refl, reading-Finishes s i msg rest e front)
  holder-Finishes queue done s i (dropping copy) e under =
      let (msg, rest, front) = front_of s.m_queue (has_front copy s.m_queue under.0) in
      (_, refl, dropping-Finishes s i copy msg rest e front)
  holder-Finishes queue done s i (leaving c got) e under = (_, refl, leaving-Finishes s i c got e)

  first-Finishes :
      (s : System Msg) (i : ℕ) (c : Call Msg) → s.pc i ≡ first_statement c → Finishes s i c
  first-Finishes s i (pushes msg) e = pushing-Finishes s i msg e
  first-Finishes s i pops e = testing-Finishes s i e

  -- A thread that waits, with the mutex free
  pub waiting-Finishes :
      (s : System Msg) (i : ℕ) (c : Call Msg)
      → s.pc i ≡ locking c
      → s.m_mutex ≡ none
      → Finishes s i c
  waiting-Finishes s i c e free =
      then-Finishes s (record s { m_mutex = some i }) i (first_statement c) c refl (lock i c e free)
        refl (first-Finishes _ i c (update-same s.pc i (first_statement c)))
