-- ===== src/Peterson/Progress.antt =====
-- How often a side that waits is overtaken.
use amp_project.Base.{◌≡◌, ◌≤◌, refl, true, false, List, [], ◌∷◌, ℕ, ◌+◌, arith, if◌then◌else◌}
use amp_project.Peterson.{
  Side, enqueuer, dequeuer, Pc, read_flag, read_victim, critical, Lock, unlocked, step_enq,
  step_deq, step, run,
}
use amp_project.Peterson.Exclusion.{waits, Inv, step-Inv, run-Inv, unlocked-Inv}

-- 1 for a step of the dequeuing side that enters the critical section
unfoldable pub entry : Pc → Pc → ℕ
entry read_flag critical = 1
entry read_victim critical = 1
entry _ _ = 0

-- The entries of the dequeuing side up to the step with which the enqueuing side stops waiting.
unfoldable pub overtakes : List Side → Lock → ℕ
overtakes [] l = 0
overtakes (s ∷ ss) l =
    let rest = overtakes ss (step s l) in
    if waits l.pc_enq then entry l.pc_deq (step s l).pc_deq + rest else 0

-- The entries that a waiting side still has before it: one as long as the other side is at the test
-- and not the victim.
unfoldable allowed : (victim : Side) (pc_deq : Pc) → ℕ
allowed enqueuer read_flag = 1
allowed enqueuer read_victim = 1
allowed _ _ = 0

step-allowed :
    (s : Side) (l : Lock) (n : ℕ)
    → Inv l
    → waits l.pc_enq ≡ true
    → (waits (step s l).pc_enq ≡ true → n ≤ allowed (step s l).victim (step s l).pc_deq)
    → (waits (step s l).pc_enq ≡ false → n ≡ 0)
    → entry l.pc_deq (step s l).pc_deq + n ≤ allowed l.victim l.pc_deq
unfolding step step_enq step_deq entry allowed
step-allowed enqueuer l n inv w still done = ground arith
step-allowed dequeuer l n inv w still done = ground arith

overtakes_done : (ss : List Side) (l : Lock) → waits l.pc_enq ≡ false → overtakes ss l ≡ 0
unfolding overtakes
overtakes_done [] l done = refl
overtakes_done (s ∷ ss) l done = rw done refl

overtakes-allowed :
    (ss : List Side) (l : Lock)
    → Inv l
    → waits l.pc_enq ≡ true
    → overtakes ss l ≤ allowed l.victim l.pc_deq
unfolding overtakes
overtakes-allowed [] l inv w = omega arith
overtakes-allowed (s ∷ ss) l inv w =
    let now =
      step-allowed s l (overtakes ss (step s l)) inv w
        (λ still. overtakes-allowed ss (step s l) (step-Inv s l inv) still)
        (λ done. overtakes_done ss (step s l) done) in
    rw w now

allowed_one : (s : Side) (p : Pc) → allowed s p ≤ 1
unfolding allowed
allowed_one s p = ground arith

-- From every state that a schedule `before` reaches, if the enqueuing side waits there at the test of
-- the loop, then under every further schedule `ss` the dequeuing side enters the critical section at
-- most once before the enqueuing side stops waiting.
pub bounded_overtaking :
    (before ss : List Side)
    → waits (run before unlocked).pc_enq ≡ true
    → overtakes ss (run before unlocked) ≤ 1
bounded_overtaking before ss w =
    let l = run before unlocked in
    let bound = overtakes-allowed ss l (run-Inv before unlocked unlocked-Inv) w in
    let one = allowed_one l.victim l.pc_deq in omega arith
