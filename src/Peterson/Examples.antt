-- ===== src/Peterson/Examples.antt =====
-- The Peterson lock at concrete schedules.
use amp_project.Base.{◌≡◌, ◌≢◌, ◌≤◌, ◌⊎◌, inl, refl, true, List, [], ◌∷◌}
use amp_project.Peterson.{
  Side, enqueuer, dequeuer, critical, unlocked, step, step_enq, step_deq, run, read_flag,
}
use amp_project.Peterson.Exclusion.{mutual_exclusion, waits}
use amp_project.Peterson.Deadlock.{EntersEnq, EntersDeq, enters_unless_busy}
use amp_project.Peterson.Progress.{overtakes, entry, bounded_overtaking}

-- Both sides want the lock; the enqueuing side set the victim first.
abbrev contended : List Side
contended =
    enqueuer ∷ dequeuer ∷ enqueuer ∷ dequeuer ∷ dequeuer ∷ enqueuer ∷ enqueuer ∷ dequeuer ∷ []

contended-enters : (run contended unlocked).pc_enq ≡ critical
unfolding run step step_enq step_deq
contended-enters = refl

contended-waits : (run contended unlocked).pc_deq ≡ read_flag
unfolding run step step_enq step_deq
contended-waits = refl

mutual_exclusion_example : (run contended unlocked).pc_deq ≢ critical
mutual_exclusion_example = mutual_exclusion contended contended-enters

-- The dequeuing side is let through first, leaves, and comes back.
abbrev given_way : List Side
given_way = dequeuer ∷ dequeuer ∷ enqueuer ∷ enqueuer ∷ []

abbrev comes_back : List Side
comes_back =
    dequeuer ∷ dequeuer ∷ dequeuer ∷ dequeuer ∷ dequeuer ∷ dequeuer ∷ dequeuer ∷ enqueuer ∷ enqueuer
    ∷ []

given_way-waits : waits (run given_way unlocked).pc_enq ≡ true
unfolding run step step_enq step_deq
given_way-waits = refl

-- The bound is reached.
overtakes-once : overtakes comes_back (run given_way unlocked) ≡ 1
unfolding overtakes entry run step step_enq step_deq
overtakes-once = refl

bounded_overtaking_example : overtakes comes_back (run given_way unlocked) ≤ 1
bounded_overtaking_example = bounded_overtaking given_way comes_back given_way-waits

-- Both sides wait, the dequeuing side being the victim.
abbrev both_wait : List Side
both_wait = enqueuer ∷ dequeuer ∷ enqueuer ∷ dequeuer ∷ enqueuer ∷ []

both_wait-enq : waits (run both_wait unlocked).pc_enq ≡ true
unfolding run step step_enq step_deq
both_wait-enq = refl

both_wait-deq : waits (run both_wait unlocked).pc_deq ≡ true
unfolding run step step_enq step_deq
both_wait-deq = refl

enters_unless_busy_example : EntersEnq (run both_wait unlocked) ⊎ EntersDeq (run both_wait unlocked)
enters_unless_busy_example = enters_unless_busy both_wait both_wait-enq (inl both_wait-deq)
