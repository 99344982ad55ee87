-- ===== src/Peterson/Deadlock.antt =====
-- The two sides do not block each other.
use amp_project.Base.{◌≡◌, ◌⊎◌, inl, inr, refl, true, List, arith}
use amp_project.Peterson.{
  Side, enqueuer, dequeuer, outside, critical, Lock, unlocked, step_enq, step_deq, step, run,
}
use amp_project.Peterson.Exclusion.{waits, Inv, run-Inv, unlocked-Inv}

-- One or two steps of the side alone take it into the critical section.
abbrev pub EntersEnq : Lock → Type 0
EntersEnq l =
    (step enqueuer l).pc_enq ≡ critical ⊎ (step enqueuer (step enqueuer l)).pc_enq ≡ critical

abbrev pub EntersDeq : Lock → Type 0
EntersDeq l =
    (step dequeuer l).pc_deq ≡ critical ⊎ (step dequeuer (step dequeuer l)).pc_deq ≡ critical

enters_free : (l : Lock) → Inv l → waits l.pc_enq ≡ true → l.pc_deq ≡ outside → EntersEnq l
unfolding step step_enq
enters_free l inv w out = ground arith

enters_first :
    (l : Lock)
    → Inv l
    → waits l.pc_enq ≡ true
    → waits l.pc_deq ≡ true
    → l.victim ≡ dequeuer
    → EntersEnq l
unfolding step step_enq
enters_first l inv w w' v = ground arith

enters_second :
    (l : Lock)
    → Inv l
    → waits l.pc_enq ≡ true
    → waits l.pc_deq ≡ true
    → l.victim ≡ enqueuer
    → EntersDeq l
unfolding step step_deq
enters_second l inv w w' v = ground arith

victim-cases : (s : Side) → (s ≡ enqueuer) ⊎ (s ≡ dequeuer)
victim-cases enqueuer = inl refl
victim-cases dequeuer = inr refl

enters_waiting :
    (l : Lock) → Inv l → waits l.pc_enq ≡ true → waits l.pc_deq ≡ true → EntersEnq l ⊎ EntersDeq l
enters_waiting l inv w w' = elim (victim-cases l.victim) [
  | inl v ↦ inr (enters_second l inv w w' v)
  | inr v ↦ inl (enters_first l inv w w' v)
]

-- From every reachable state in which the enqueuing side waits at the test of the loop and the
-- dequeuing side waits there too or is outside, one of the two sides enters the critical section by
-- one or two steps of its own.
pub enters_unless_busy :
    (before : List Side)
    → waits (run before unlocked).pc_enq ≡ true
    → (waits (run before unlocked).pc_deq ≡ true) ⊎ ((run before unlocked).pc_deq ≡ outside)
    → EntersEnq (run before unlocked) ⊎ EntersDeq (run before unlocked)
enters_unless_busy before w (inl w') =
    enters_waiting (run before unlocked) (run-Inv before unlocked unlocked-Inv) w w'
enters_unless_busy before w (inr out) =
    inl (enters_free (run before unlocked) (run-Inv before unlocked unlocked-Inv) w out)
