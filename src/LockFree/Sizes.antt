-- ===== src/LockFree/Sizes.antt =====
-- No step of Ex5.c changes `Q->num_threads`.
use amp_project.Base.{
  ℕ, ◌≡◌, refl, subst, Bool, true, false, Bool-cases, Option, none, some, Option-cases, List, [],
  ◌∷◌, ◌==◌, ◌&&◌, not, if◌then◌else◌, inl, inr, arith,
}
use amp_project.Heap.{Ptr, null, Value, Node, Alloc}
use amp_project.Sequential
use amp_project.Sequential.Memory.{
  World, Exec, fault, starved, ok, Cmd, follow, ◌>>=◌, fetch, load, set_value, set_next, malloc,
  FreeList, load_free_list, store_free_list, list_at,
}
use amp_project.Threads.{Outcome, broken, blocked, moved, update}
use amp_project.LockFree.{
  Pc, enq_begin, enq_alloc, enq_tail, enq_next, enq_check, enq_link, enq_swing, enq_help, deq_begin,
  deq_head, deq_tail, deq_next, deq_check, deq_help, deq_load, deq_swing, deq_retire, end_count,
  end_scan, end_spin, end_reclaim, State, Env, after, either, access, manage, step_at, step,
}
use amp_project.LockFree.Indices.{at_entry-either, scan-either}
use amp_project.LockFree.Memory.{
  make_node, upcycle_node, recycle_node, reclaim, cas_head, cas_tail, cas_next,
}

abbrev pub Sized : {A : Type 0} → ℕ → Exec A → Type 0
Sized n fault = Unit {0}
Sized n starved = Unit {0}
Sized n (ok a w) = w.queue.num_threads ≡ n

-- A command that leaves the number of threads.
abbrev pub Leaves : {A : Type 0} → Cmd A → Type 0
Leaves c = (w : World) → Sized w.queue.num_threads (c w)

Sized-bind :
    {A B : Type 0} (n : ℕ) (k : A → Cmd B) (r : Exec A)
    → Sized n r
    → ((a : A) → Leaves (k a))
    → Sized n (follow k r)
Sized-bind n k fault e go = tt
Sized-bind n k starved e go = tt
Sized-bind n k (ok a w) e go = subst (λ z. Sized z (k a w)) e (go a w)

bind-Leaves :
    {A B : Type 0} (c : Cmd A) (k : A → Cmd B)
    → Leaves c
    → ((a : A) → Leaves (k a))
    → Leaves (c >>= k)
bind-Leaves c k l go w = Sized-bind _ k (c w) (l w) go

fetch-Leaves : (o : Option Node) → Leaves (fetch o)
fetch-Leaves none w = tt
fetch-Leaves (some n) w = refl

load-Leaves : (p : Ptr) → Leaves (load p)
unfolding load
load-Leaves p w = elim (Bool-cases (p == null)) [
  | inl e ↦ rw e tt
  | inr e ↦ rw e (fetch-Leaves (w.heap p) w)
]

set_value-Leaves : (p : Ptr) (v : Value) → Leaves (set_value p v)
unfolding set_value
set_value-Leaves p v w = Sized-bind _ _ (load p w) (load-Leaves p w) λ n w'. refl

set_next-Leaves : (p q : Ptr) → Leaves (set_next p q)
unfolding set_next
set_next-Leaves p q w = Sized-bind _ _ (load p w) (load-Leaves p w) λ n w'. refl

malloc-Leaves : (m : Alloc) → Leaves (malloc m)
unfolding malloc
malloc-Leaves m w = ground arith

load_free_list-Leaves : (t : ℕ) → Leaves (load_free_list t)
unfolding load_free_list
load_free_list-Leaves t w = elim (Option-cases (list_at w.queue.free_lists t)) [
  | inl e ↦ rw (e, load_free_list) tt
  | inr (l, e) ↦ rw (e, load_free_list) refl
]

store_free_list-Leaves : (t : ℕ) (l : FreeList) → Leaves (store_free_list t l)
unfolding store_free_list
store_free_list-Leaves t l w =
    Sized-bind _ _ (load_free_list t w) (load_free_list-Leaves t w) λ n w'. refl

if-Leaves :
    {A : Type 0} (b : Bool) (c d : Cmd A) → Leaves c → Leaves d → Leaves (if b then c else d)
if-Leaves true c d l m = l
if-Leaves false c d l m = m

upcycle_node-Leaves : (m : Alloc) (t : ℕ) → Leaves (upcycle_node m t)
unfolding upcycle_node make_node amp_project.Sequential.make_node
upcycle_node-Leaves m t = bind-Leaves _ _ (load_free_list-Leaves t) λ l.
    if-Leaves (l.head == null) _ _
      (bind-Leaves _ _ (malloc-Leaves m) λ n.
        bind-Leaves _ _ (set_value-Leaves n 0)
          λ _. bind-Leaves _ _ (set_next-Leaves n null) λ _ w. refl)
      (bind-Leaves _ _ (load-Leaves l.head)
        λ n. bind-Leaves _ _ (store_free_list-Leaves t _) λ _ w. refl)

recycle_node-Leaves : (t : ℕ) (p : Ptr) (c : Option ℕ) → Leaves (recycle_node t p c)
unfolding recycle_node amp_project.Sequential.recycle_node
recycle_node-Leaves t p c = bind-Leaves _ _ (load_free_list-Leaves t) λ l.
    bind-Leaves _ _ (set_next-Leaves p l.head)
      λ _. bind-Leaves _ _ (store_free_list-Leaves t _) λ _ w. refl

reclaim-Leaves : (t : ℕ) (ps : List Ptr) (c : Option ℕ) → Leaves (reclaim t ps c)
unfolding reclaim
reclaim-Leaves t [] c w = refl
reclaim-Leaves t (p ∷ ps) c w =
    bind-Leaves _ _ (recycle_node-Leaves t p c) (λ c'. reclaim-Leaves t ps c') w

cas_head-Leaves : (b : Bool) (p q : Ptr) → Leaves (cas_head b p q)
unfolding cas_head
cas_head-Leaves b p q w = if-Leaves (w.queue.head == p && not b) _ _ (λ w. refl) (λ w. refl) w

cas_tail-Leaves : (b : Bool) (p q : Ptr) → Leaves (cas_tail b p q)
unfolding cas_tail
cas_tail-Leaves b p q w = if-Leaves (w.queue.tail == p && not b) _ _ (λ w. refl) (λ w. refl) w

cas_next-Leaves : (b : Bool) (a p q : Ptr) → Leaves (cas_next b a p q)
unfolding cas_next
cas_next-Leaves b a p q = bind-Leaves _ _ (load-Leaves a) λ n.
    if-Leaves (n.next == p && not b) _ _ (bind-Leaves _ _ (set_next-Leaves a q) λ _ w. refl)
      (λ w. refl)

abbrev AllLeave : Option (Cmd Pc) → Type 0
AllLeave none = Unit {0}
AllLeave (some c) = Leaves c

access-AllLeave : (e : Env) (t : ℕ) (pc : Pc) → AllLeave (access e t pc)
unfolding access
access-AllLeave e t (enq_alloc k v) = bind-Leaves _ _ (upcycle_node-Leaves e.block t) λ n.
    bind-Leaves _ _ (set_value-Leaves n v) λ _. bind-Leaves _ _ (set_next-Leaves n null) λ _ w. refl
access-AllLeave e t (enq_tail k v n) = λ w. refl
access-AllLeave e t (enq_next k v n last) = bind-Leaves _ _ (load-Leaves last) λ l w. refl
access-AllLeave e t (enq_check k v n last next) = λ w. refl
access-AllLeave e t (enq_link k v n last) =
    bind-Leaves _ _ (cas_next-Leaves e.spurious last null n) λ b w. refl
access-AllLeave e t (enq_swing k n last) =
    bind-Leaves _ _ (cas_tail-Leaves e.spurious last n) λ b w. refl
access-AllLeave e t (enq_help k v n last next) =
    bind-Leaves _ _ (cas_tail-Leaves e.spurious last next) λ b w. refl
access-AllLeave e t (deq_head k) = λ w. refl
access-AllLeave e t (deq_tail k first) = λ w. refl
access-AllLeave e t (deq_next k first last) = bind-Leaves _ _ (load-Leaves first) λ f w. refl
access-AllLeave e t (deq_check k first last next) = λ w. refl
access-AllLeave e t (deq_help k last next) =
    bind-Leaves _ _ (cas_tail-Leaves e.spurious last next) λ b w. refl
access-AllLeave e t (deq_load k first next) = bind-Leaves _ _ (load-Leaves next) λ n w. refl
access-AllLeave e t (deq_swing k first next v) =
    bind-Leaves _ _ (cas_head-Leaves e.spurious first next) λ b w. refl
access-AllLeave e t _ = tt

-- The number of threads after a step, if there is one.
abbrev pub Same : ℕ → Outcome State → Type 0
Same n broken = Unit {0}
Same n blocked = Unit {0}
Same n (moved s) = s.world.queue.num_threads ≡ n

after-Same : (n t : ℕ) (s : State) (r : Exec Pc) → Sized n r → Same n (after t s r)
after-Same n t s fault e = tt
after-Same n t s starved e = tt
after-Same n t s (ok pc w) e = e

either-Same :
    (n t : ℕ) (s : State) (o : Option (Cmd Pc)) (managed : Outcome State)
    → s.world.queue.num_threads ≡ n
    → AllLeave o
    → Same n managed
    → Same n (either t s o managed)
either-Same n t s none managed e l m = m
either-Same n t s (some c) managed e l m =
    after-Same n t s (c s.world) (subst (λ z. Sized z (c s.world)) e (l s.world))

manage-Same :
    (e : Env) (t : ℕ) (pc : Pc) (s : State) → Same s.world.queue.num_threads (manage e t pc s)
unfolding manage
manage-Same e t (deq_retire k first v) s = elim (Bool-cases (e.block.addr == null)) [
  | inl nul ↦ rw nul tt
  | inr got ↦ rw got (at_entry-either (Same s.world.queue.num_threads) t s tt λ _. refl)
]
manage-Same e t (end_reclaim k r) s = at_entry-either (Same s.world.queue.num_threads) t s tt λ _.
    after-Same s.world.queue.num_threads t
      (record s { retired = update s.retired t []; retired_count = update s.retired_count t 0 }) _
      (bind-Leaves _ _ (reclaim-Leaves t (s.retired t) k.inserted) (λ c w. refl) s.world)
manage-Same e t (enq_begin k v) s =
    at_entry-either (Same s.world.queue.num_threads) t s tt λ _. refl
manage-Same e t (deq_begin k) s = at_entry-either (Same s.world.queue.num_threads) t s tt λ _. refl
manage-Same e t (end_count k r) s =
    at_entry-either (Same s.world.queue.num_threads) t s tt λ _. refl
manage-Same e t (end_scan k r i) s = scan-either t k r i s (Same s.world.queue.num_threads) tt refl
manage-Same e t (end_spin k r i v) s =
    at_entry-either (Same s.world.queue.num_threads) i s tt λ _. refl
manage-Same e t _ s = tt

-- A step leaves the number of threads.
pub step-Same : (e : Env) (t : ℕ) (s : State) → Same s.world.queue.num_threads (step e t s)
unfolding step step_at
step-Same e t s =
    either-Same s.world.queue.num_threads t s (access e t (s.threads t))
      (manage e t (s.threads t) s) refl (access-AllLeave e t (s.threads t))
      (manage-Same e t (s.threads t) s)
