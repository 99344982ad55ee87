-- ===== src/Peterson/Exclusion.antt =====
-- The two sides are never in the critical section together.
use amp_project.Base.{◌≡◌, ◌≢◌, refl, Bool, true, false, List, [], ◌∷◌, arith}
use amp_project.Peterson.{
  Side, enqueuer, dequeuer, Pc, outside, read_flag, read_victim, critical, Lock, unlocked, step_enq,
  step_deq, step, run,
}

abbrev pub wants : Pc → Bool
wants outside = false
wants _ = true

-- at the test of the loop
abbrev pub waits : Pc → Bool
waits read_flag = true
waits read_victim = true
waits _ = false

-- A flag is up while its side is not outside, and a side that waits for one in the critical section
-- is the victim.
pub record Inv (l : Lock) : Type 0 where
  pub up_enq : l.flag_enq ≡ wants l.pc_enq
  pub up_deq : l.flag_deq ≡ wants l.pc_deq
  pub apart : l.pc_enq ≡ critical → l.pc_deq ≢ critical
  pub victim_deq : l.pc_enq ≡ critical → waits l.pc_deq ≡ true → l.victim ≡ dequeuer
  pub victim_enq : l.pc_deq ≡ critical → waits l.pc_enq ≡ true → l.victim ≡ enqueuer

step_enq-Inv : (p : Pc) (l : Lock) → l.pc_enq ≡ p → Inv l → Inv (step_enq p l)
unfolding step_enq
step_enq-Inv outside l e inv = ground arith
step_enq-Inv _ l e inv = ground arith

step_deq-Inv : (p : Pc) (l : Lock) → l.pc_deq ≡ p → Inv l → Inv (step_deq p l)
unfolding step_deq
step_deq-Inv outside l e inv = ground arith
step_deq-Inv _ l e inv = ground arith

pub step-Inv : (s : Side) (l : Lock) → Inv l → Inv (step s l)
unfolding step
step-Inv enqueuer l inv = step_enq-Inv l.pc_enq l refl inv
step-Inv dequeuer l inv = step_deq-Inv l.pc_deq l refl inv

pub run-Inv : (ss : List Side) (l : Lock) → Inv l → Inv (run ss l)
unfolding run
run-Inv [] l inv = inv
run-Inv (s ∷ ss) l inv = run-Inv ss (step s l) (step-Inv s l inv)

pub unlocked-Inv : Inv unlocked
unlocked-Inv = ground arith

-- Under every schedule: if the enqueuing side is in the critical section, the dequeuing side is not.
pub mutual_exclusion :
    (ss : List Side) → (run ss unlocked).pc_enq ≡ critical → (run ss unlocked).pc_deq ≢ critical
mutual_exclusion ss = (run-Inv ss unlocked unlocked-Inv).apart
