-- ===== src/TwoLock/Schedule.antt =====
-- Schedules of calls and steps that run, and reach what they run to.
use amp_project.Base.{
  ℕ, ◌≡◌, refl, sym, ◌∙◌, ap, subst, Option-cases, Bool, true, false, Bool-cases, not, ◌&&◌, Option,
  none, some, List, [], ◌∷◌, ◌++◌, ltb, if◌then◌else◌, inl, inr, arith,
}
use amp_project.Heap.{Node, Alloc}
use amp_project.Sequential.Pools.{IsFresh}
use amp_project.Threads.{Outcome, broken, blocked, moved, Event}
use amp_project.TwoLock.{State, step, Call, call, busy, event}
use amp_project.TwoLock.System.{Reach, invoke, next}

-- One thread makes a call, or takes a step while `malloc` would hand back `m`.
pub data Turn : Type 0 where
  begin : (t : ℕ) (c : Call) → Turn
  go : (t : ℕ) (m : Alloc) → Turn

is_none : Option Node → Bool
is_none none = true
is_none (some a) = false

is_none-eq : (o : Option Node) → is_none o ≡ true → o ≡ none
unfolding is_none
is_none-eq none e = refl
is_none-eq (some a) e = cc e

-- The state after a step of thread `t`, and its events.
abbrev pub after_step : ℕ → State → Outcome State → Option (State × List Event)
after_step t s (moved s') = some (s', event t (s.threads t) (s'.threads t))
after_step t s _ = none

-- The same after a turn; `none` if the turn is not possible there.
unfoldable pub take_turn : (n : ℕ) → Turn → State → Option (State × List Event)
unfolding is_none call step event
take_turn n (begin t c) s =
    if ltb t n && not (busy (s.threads t)) then some (call t c s, []) else none
take_turn n (go t m) s = if is_none (s.world.heap m.addr) then after_step t s (step m t s) else none

abbrev and_then :
    (State → List Event → Option (State × List Event))
    → List Event
    → Option (State × List Event)
    → Option (State × List Event)
and_then k log none = none
and_then k log (some (s, es)) = k s (es ++ log)

-- The state after a schedule, and the events with the latest first.
unfoldable pub play : (n : ℕ) → List Turn → State → List Event → Option (State × List Event)
unfolding take_turn
play n [] s log = some (s, log)
play n (turn ∷ turns) s log = and_then (play n turns) log (take_turn n turn s)

module _ {n : ℕ} {s : State} {log : List Event} (r : Reach n s log) where
  stepped-Reach :
      (t : ℕ) (m : Alloc) (o : Outcome State) {s' : State} {es : List Event}
      → IsFresh m s.world
      → step m t s ≡ o
      → after_step t s o ≡ some (s', es)
      → Reach n s' (es ++ log)
  stepped-Reach t m broken fresh run e = cc e
  stepped-Reach t m blocked fresh run e = cc e
  stepped-Reach t m (moved u) {s'} {es} fresh run e =
      let same : u ≡ s' = cc e in
      let same' : event t (s.threads t) (u.threads t) ≡ es = cc e in
      subst (λ z. Reach n z (es ++ log)) same
        (subst (λ z. Reach n u (z ++ log)) same' (next r t m fresh run))

  take_turn-Reach :
      (turn : Turn) {s' : State} {es : List Event}
      → take_turn n turn s ≡ some (s', es)
      → Reach n s' (es ++ log)
  unfolding take_turn
  take_turn-Reach (begin t c) {s'} {es} e =
      elim (Bool-cases (ltb t n && not (busy (s.threads t)))) [
        | inl ok ↦
            let e' : ◌≡◌ {A = Option (State × List Event)} (some (call t c s, [])) (some (s', es)) =
              rw ok at e in
            let same : call t c s ≡ s' = cc e' in
            let no_event : es ≡ [] = cc e' in
            rw no_event
              (subst (λ z. Reach n z log) same (invoke r t c (ground arith) (ground arith)))
        | inr bad ↦
            let e' : ◌≡◌ {A = Option (State × List Event)} none (some (s', es)) = rw bad at e in
            cc e'
      ]
  take_turn-Reach (go t m) {s'} {es} e = elim (Bool-cases (is_none (s.world.heap m.addr))) [
    | inl ok ↦ stepped-Reach t m (step m t s) (λ _. is_none-eq _ ok) refl (rw ok at e)
    | inr bad ↦
        let e' : ◌≡◌ {A = Option (State × List Event)} none (some (s', es)) = rw bad at e in cc e'
  ]

-- What a schedule runs to is reachable.
pub play-Reach :
    {n : ℕ} (turns : List Turn) {s s' : State} {log log' : List Event}
    → Reach n s log
    → play n turns s log ≡ some (s', log')
    → Reach n s' log'
unfolding play
play-Reach {n} [] {s} {s'} {log} {log'} r e =
    let same : s ≡ s' = cc e in
    let same' : log ≡ log' = cc e in
    subst (λ z. Reach n z log') same (subst (λ z. Reach n s z) same' r)
play-Reach {n} (turn ∷ turns) {s} {s'} {log} {log'} r e = elim (Option-cases (take_turn n turn s)) [
  | inl stuck ↦ cc (e, ap (and_then (play n turns) log) stuck)
  | inr ((u, es), ok) ↦
      play-Reach turns (take_turn-Reach r turn ok) (sym (ap (and_then (play n turns) log) ok) ∙ e)
]
