-- ===== src/Peterson.antt =====
-- archive/Ex4_old.c: the Peterson lock between the enqueuing and the dequeuing side, a shared access
-- at a time, all of them sequentially consistent.
pub mod Exclusion
pub mod Progress
pub mod Deadlock
mod Examples
use amp_project.Base.{Bool, true, false, List, [], ◌∷◌}

-- The `flag_id`: 0 for enqueue, 1 for dequeue.
pub data Side : Type 0 where
  enqueuer dequeuer : Side

-- Where a side stands: outside, before the write to `victim`, at the two reads of the loop's test,
-- and between the return of `lock_peterson` and the write of `unlock_peterson`.
pub data Pc : Type 0 where
  outside set_victim read_flag read_victim critical : Pc

-- `peterson_lock_t`, with the places of the two sides
pub record Lock : Type 0 where
  pub flag_enq : Bool
  pub flag_deq : Bool
  pub victim : Side
  pub pc_enq : Pc
  pub pc_deq : Pc

-- As `init_queue` sets it.
abbrev pub unlocked : Lock
unlocked = record {
  flag_enq = false;
  flag_deq = false;
  victim = enqueuer;
  pc_enq = outside;
  pc_deq = outside;
}

-- After the read of the other side's flag, and after that of `victim`.
abbrev pub after_flag : Bool → Pc
after_flag true = read_victim
after_flag false = critical

abbrev pub after_victim : (victim me : Side) → Pc
after_victim enqueuer enqueuer = read_flag
after_victim dequeuer dequeuer = read_flag
after_victim enqueuer dequeuer = critical
after_victim dequeuer enqueuer = critical

-- The next access of the enqueuing side, by its place; outside it calls `lock_peterson(plock, 0)`, in
-- the critical section `unlock_peterson(plock, 0)`.
pub step_enq : Pc → Lock → Lock
step_enq outside l = record l { flag_enq = true; pc_enq = set_victim }
step_enq set_victim l = record l { victim = enqueuer; pc_enq = read_flag }
step_enq read_flag l = record l { pc_enq = after_flag l.flag_deq }
step_enq read_victim l = record l { pc_enq = after_victim l.victim enqueuer }
step_enq critical l = record l { flag_enq = false; pc_enq = outside }

pub step_deq : Pc → Lock → Lock
step_deq outside l = record l { flag_deq = true; pc_deq = set_victim }
step_deq set_victim l = record l { victim = dequeuer; pc_deq = read_flag }
step_deq read_flag l = record l { pc_deq = after_flag l.flag_enq }
step_deq read_victim l = record l { pc_deq = after_victim l.victim dequeuer }
step_deq critical l = record l { flag_deq = false; pc_deq = outside }

pub step : Side → Lock → Lock
unfolding step_enq step_deq
step enqueuer l = step_enq l.pc_enq l
step dequeuer l = step_deq l.pc_deq l

-- The accesses in the order of a schedule.
pub run : List Side → Lock → Lock
unfolding step
run [] l = l
run (s ∷ ss) l = run ss (step s l)
