-- ===== src/LockFree/Places.antt =====
-- The places of a thread in the code of Ex5.c that are in an operation, and how the accesses lead on.
use amp_project.Base.{ℕ, ◌≡◌, refl, Bool, true, false, not, Option, none, some, arith}
use amp_project.Heap.{null}
use amp_project.Sequential.Memory.{
  World, Exec, fault, starved, ok, Cmd, follow, load, set_value, set_next,
}
use amp_project.LockFree.{
  Pc, enq_alloc, enq_tail, enq_next, enq_check, enq_link, enq_swing, enq_help, deq_head, deq_tail,
  deq_next, deq_check, deq_help, deq_load, deq_swing, deq_retire, end_count, end_scan, end_spin,
  end_reclaim, outside, done, busy, Env, access,
}
use amp_project.LockFree.Memory.{upcycle_node, cas_head, cas_tail, cas_next}

-- the places between the two updates of the counter
abbrev pub in_op : Pc → Bool
in_op (enq_alloc k v) = true
in_op (enq_tail k v n) = true
in_op (enq_next k v n l) = true
in_op (enq_check k v n l x) = true
in_op (enq_link k v n l) = true
in_op (enq_swing k n l) = true
in_op (enq_help k v n l x) = true
in_op (deq_head k) = true
in_op (deq_tail k f) = true
in_op (deq_next k f l) = true
in_op (deq_check k f l x) = true
in_op (deq_help k l x) = true
in_op (deq_load k f x) = true
in_op (deq_swing k f x v) = true
in_op (deq_retire k f v) = true
in_op (end_count k r) = true
in_op _ = false

-- the places with a node that is retired and not given back
abbrev pub waits : Pc → Bool
waits (end_scan k r i) = true
waits (end_spin k r i v) = true
waits (end_reclaim k r) = true
waits _ = false

-- the places with no node retired
abbrev pub clear : Pc → Bool
clear (end_count k r) = false
clear p = not (waits p)

-- A run ends in an operation, at a place with no node retired.
abbrev pub Ends : Exec Pc → Type 0
Ends (ok pc w) = (in_op pc ≡ true) × (waits pc ≡ false)
Ends _ = Unit {0}

Ends-bind :
    {A : Type 0} (k : A → Cmd Pc) (r : Exec A)
    → ((a : A) (w : World) → Ends (k a w))
    → Ends (follow k r)
Ends-bind k fault go = tt
Ends-bind k starved go = tt
Ends-bind k (ok a w) go = go a w

abbrev pub Accessed : Pc → Option (Cmd Pc) → Type 0
Accessed pc none = Unit {0}
Accessed pc (some c) = (in_op pc ≡ true) × (clear pc ≡ true) × ((w : World) → Ends (c w))

pub access-Accessed : (e : Env) (t : ℕ) (pc : Pc) → Accessed pc (access e t pc)
unfolding access
access-Accessed e t (enq_alloc k v) = (
  refl,
  refl,
  λ w. Ends-bind _ (upcycle_node e.block t w) λ n w1.
      Ends-bind _ (set_value n v w1) λ _ w2. Ends-bind _ (set_next n null w2) λ _ w3. (refl, refl),
)
access-Accessed e t (enq_tail k v n) = (refl, refl, λ w. (refl, refl))
access-Accessed e t (enq_next k v n last) =
    (refl, refl, λ w. Ends-bind _ (load last w) λ l w1. (refl, refl))
access-Accessed e t (enq_check k v n last next) = (refl, refl, λ w. ground arith)
access-Accessed e t (enq_link k v n last) =
    (refl, refl, λ w. Ends-bind _ (cas_next e.spurious last null n w) λ b w1. ground arith)
access-Accessed e t (enq_swing k n last) =
    (refl, refl, λ w. Ends-bind _ (cas_tail e.spurious last n w) λ b w1. (refl, refl))
access-Accessed e t (enq_help k v n last next) =
    (refl, refl, λ w. Ends-bind _ (cas_tail e.spurious last next w) λ b w1. (refl, refl))
access-Accessed e t (deq_head k) = (refl, refl, λ w. (refl, refl))
access-Accessed e t (deq_tail k first) = (refl, refl, λ w. (refl, refl))
access-Accessed e t (deq_next k first last) =
    (refl, refl, λ w. Ends-bind _ (load first w) λ f w1. (refl, refl))
access-Accessed e t (deq_check k first last next) = (refl, refl, λ w. ground arith)
access-Accessed e t (deq_help k last next) =
    (refl, refl, λ w. Ends-bind _ (cas_tail e.spurious last next w) λ b w1. (refl, refl))
access-Accessed e t (deq_load k first next) =
    (refl, refl, λ w. Ends-bind _ (load next w) λ n w1. (refl, refl))
access-Accessed e t (deq_swing k first next v) =
    (refl, refl, λ w. Ends-bind _ (cas_head e.spurious first next w) λ b w1. ground arith)
access-Accessed e t _ = tt

pub in_op-busy : (pc : Pc) → in_op pc ≡ true → busy pc ≡ true
in_op-busy outside i = cc
in_op-busy (done k r) i = cc
in_op-busy _ i = refl
