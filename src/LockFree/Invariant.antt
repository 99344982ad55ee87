-- ===== src/LockFree/Invariant.antt =====
-- What holds of the memory between any two steps of the threads of Ex5.c.
use amp_project.Base.{
  ℕ, ◌<◌, ◌≡◌, ◌≢◌, subst, Bool, true, Bool-cases, ◌||◌, ◌⊎◌, inl, inr, some, List, [], ◌∷◌, arith,
}
use amp_project.Heap.{Ptr, null, Value, node, queued, held_by, Owners}
use amp_project.Heap.Seg.{Cells, has, values, owner_of_mem}
use amp_project.Sequential.Memory.{World}
use amp_project.Sequential.Shape.{Pool}
use amp_project.Sequential.Others.{Held}
use amp_project.Sequential.Contents.{Layout}
use amp_project.LockFree.{
  Pc, enq_tail, enq_next, enq_check, enq_link, enq_swing, enq_help, deq_tail, deq_next, deq_check,
  deq_help, deq_load, deq_swing, deq_retire, end_count, end_scan, end_spin, State, busy,
}
use amp_project.LockFree.Places.{in_op}
use amp_project.LockFree.Grace.{Behind}
use amp_project.LockFree.Nodes.{member, behind, has-behind, chain_of, head-mem}

-- The nodes of the queue, the owners, and for each thread the nodes that left the queue since its
-- operation began.
pub record Ghost : Type 0 where
  pub own : Owners
  pub cells : Cells
  pub gone : ℕ → Ptr → Bool

-- The nodes that thread `u` may have a pointer to.
abbrev pub Seen : Ghost → ℕ → Ptr → Type 0
Seen g u p = (g.gone u p || has p g.cells) ≡ true

-- The nodes that were at the head since the operation of `u` began.
abbrev pub Old : World → Ghost → ℕ → Ptr → Type 0
Old w g u p = (g.gone u p ≡ true) ⊎ (p ≡ w.queue.head)

-- A thread at this place with the retired nodes `rs` holds the node `p` back for thread `u`, whose
-- counter is `c`.
abbrev pub Guard : (u c : ℕ) → Pc → List Ptr → Ptr → Type 0
Guard u c (deq_retire k f v) rs p = f ≡ p
Guard u c (end_count k r) rs p = rs ≡ p ∷ []
Guard u c (end_scan k r i) rs p = (rs ≡ p ∷ []) × Behind u c (end_scan k r i)
Guard u c (end_spin k r i v) rs p = (rs ≡ p ∷ []) × Behind u c (end_spin k r i v)
Guard u c _ rs p = ⊥

-- A node that left the queue since the operation of `u` began.
pub record Departed (s : State) (g : Ghost) (u : ℕ) (p : Ptr) : Type 0 where
  pub by : ℕ
  pub owner : g.own p ≡ held_by by
  pub guard : Guard u (s.ctr u) (s.threads by) (s.retired by) p
  pub ne_null : p ≢ null
  pub value : Value
  pub next : Ptr
  pub holds : s.world.heap p ≡ some (node value next)
  pub more : next ≢ null
  pub seen : Seen g u next

-- The node `l` that `u` may see leads to the node `x`.
pub record Linked (w : World) (g : Ghost) (u : ℕ) (l x : Ptr) : Type 0 where
  pub seen : Seen g u l
  pub value : Value
  pub holds : w.heap l ≡ some (node value x)
  pub more : x ≢ null
  pub onward : Seen g u x

-- The node to insert.
pub record Mine (w : World) (g : Ghost) (u : ℕ) (n : Ptr) (v : Value) : Type 0 where
  pub held : Held w g.own u n
  pub filled : w.heap n ≡ some (node v null)

-- If `f` is at the head, the tail is not there.
abbrev pub Ahead : World → Ptr → Type 0
Ahead w f = f ≡ w.queue.head → w.queue.tail ≢ f

-- What thread `u` relies on at a place.
abbrev pub Place : World → Ghost → ℕ → Pc → Type 0
Place w g u (enq_tail k v n) = Mine w g u n v
Place w g u (enq_next k v n l) = Mine w g u n v × Seen g u l
Place w g u (enq_check k v n l x) = Mine w g u n v × Seen g u l × (x ≢ null → Linked w g u l x)
Place w g u (enq_link k v n l) = Mine w g u n v × Seen g u l
Place w g u (enq_swing k n l) = Linked w g u l n
Place w g u (enq_help k v n l x) = Mine w g u n v × Linked w g u l x
Place w g u (deq_tail k f) = Old w g u f
Place w g u (deq_next k f l) = Old w g u f × (f ≢ l → Ahead w f)
Place w g u (deq_check k f l x) =
    Old w g u f × (f ≢ l → Ahead w f) × (x ≢ null → Linked w g u f x) × (f ≢ l → x ≢ null)
Place w g u (deq_help k l x) = Linked w g u l x
Place w g u (deq_load k f x) = Old w g u f × Ahead w f × Linked w g u f x
Place w g u (deq_swing k f x v) =
    Old w g u f × Ahead w f × Linked w g u f x × ((q : Ptr) × (w.heap x ≡ some (node v q)))
Place w g u (deq_retire k f v) = Held w g.own u f
Place w g u _ = Unit {0}

-- The state of `n` threads whose queue holds the values `xs`, oldest first.
pub record Inv (n : ℕ) (s : State) (xs : List Value) : Type 0 where
  pub ghost : Ghost
  pub end : Ptr
  pub pool : Pool
  pub sentinel : Value
  pub layout : Layout s.world ghost.own ghost.cells end pool
  pub contents : values ghost.cells ≡ sentinel ∷ xs
  pub at_tail : has s.world.queue.tail ghost.cells ≡ true
  pub known : (t : ℕ) → busy (s.threads t) ≡ true → t < n
  pub places : (t : ℕ) → Place s.world ghost t (s.threads t)
  pub retired : (t : ℕ) (p : Ptr) → s.retired t ≡ p ∷ [] → Held s.world ghost.own t p
  pub departed :
      (u : ℕ) (p : Ptr) → in_op (s.threads u) ≡ true → ghost.gone u p ≡ true → Departed s ghost u p

-- A node that thread `u` may see is allocated, and so is its successor.
pub record Visible (w : World) (g : Ghost) (u : ℕ) (p : Ptr) : Type 0 where
  pub ne_null : p ≢ null
  pub value : Value
  pub next : Ptr
  pub holds : w.heap p ≡ some (node value next)
  pub onward : next ≢ null → Seen g u next

-- the thread that took a node off the queue, and holds it back for `u`
pub record Holder (s : State) (g : Ghost) (u : ℕ) (p : Ptr) : Type 0 where
  pub by : ℕ
  pub owner : g.own p ≡ held_by by
  pub guard : Guard u (s.ctr u) (s.threads by) (s.retired by) p

module _ {n : ℕ} {s : State} {xs : List Value} (inv : Inv n s xs) (u : ℕ) where
  pub Seen-cases :
      (p : Ptr) → Seen inv.ghost u p → (inv.ghost.gone u p ≡ true) ⊎ (has p inv.ghost.cells ≡ true)
  Seen-cases p i = elim (Bool-cases (inv.ghost.gone u p)) [
    | inl g ↦ inl g
    | inr q ↦ inr (rw q at i)
  ]

  pub cells-Seen : (p : Ptr) → has p inv.ghost.cells ≡ true → Seen inv.ghost u p
  cells-Seen p i = ground arith

  pub gone-Seen : (p : Ptr) → inv.ghost.gone u p ≡ true → Seen inv.ghost u p
  gone-Seen p i = ground arith

  queued_of_mem : (p : Ptr) → has p inv.ghost.cells ≡ true → inv.ghost.own p ≡ queued
  queued_of_mem p i = owner_of_mem p (chain_of inv.layout) i

  pub Seen-Visible :
      in_op (s.threads u) ≡ true → (p : Ptr) → Seen inv.ghost u p → Visible s.world inv.ghost u p
  Seen-Visible active p i = elim (Seen-cases p i) [
    | inl g ↦
        let d = inv.departed u p active g in
        record {
          ne_null = d.ne_null;
          value = d.value;
          next = d.next;
          holds = d.holds;
          onward = λ _. d.seen;
        }
    | inr q ↦
        let m = member p (chain_of inv.layout) q in
        record {
          ne_null = m.points.ne_null;
          value = m.value;
          next = m.next;
          holds = m.points.holds;
          onward = later m.next m.follows;
        }
  ]
    where
      later :
          (x : Ptr)
          → (x ≡ null) ⊎ (has x (behind inv.ghost.cells) ≡ true)
          → x ≢ null
          → Seen inv.ghost u x
      later x (inl e) ne = absurd (ne e)
      later x (inr j) ne = cells-Seen x (has-behind inv.ghost.cells x j)

  pub Seen-owner :
      in_op (s.threads u) ≡ true
      → (p : Ptr) → Seen inv.ghost u p
      → (inv.ghost.own p ≡ queued) ⊎ Holder s inv.ghost u p
  Seen-owner active p i = elim (Seen-cases p i) [
    | inl g ↦
        let d = inv.departed u p active g in
        inr (record { by = d.by; owner = d.owner; guard = d.guard })
    | inr q ↦ inl (queued_of_mem p q)
  ]

  -- A node at the head is not gone.
  pub gone-ne-head :
      in_op (s.threads u) ≡ true → (p : Ptr) → inv.ghost.gone u p ≡ true → p ≢ s.world.queue.head
  gone-ne-head active p g e =
      let d = inv.departed u p active g in
      let o : inv.ghost.own p ≡ queued = queued_of_mem p (rw e head_mem) in
      absurd (ground (arith, o, d.owner))
    where
      head_mem : has s.world.queue.head inv.ghost.cells ≡ true
      head_mem = head-mem inv.layout

  pub Old-Seen : (p : Ptr) → Old s.world inv.ghost u p → Seen inv.ghost u p
  Old-Seen p (inl g) = gone-Seen p g
  Old-Seen p (inr e) = rw e (cells-Seen s.world.queue.head (head-mem inv.layout))

  -- A node that nobody holds back for `u`, and that is not queued, is out of its sight.
  pub Seen-ne :
      in_op (s.threads u) ≡ true
      → (q : Ptr) → Seen inv.ghost u q
      → (p : Ptr) → inv.ghost.own p ≢ queued
      → ((b : ℕ)
          → inv.ghost.own p ≡ held_by b
          → Guard u (s.ctr u) (s.threads b) (s.retired b) p
          → ⊥)
      → q ≢ p
  Seen-ne active q i p other free e = elim (Seen-owner active q i) [
    | inl o ↦ other (rw (← e) o)
    | inr h ↦
        free h.by (rw (← e) h.owner)
          (subst (Guard u (s.ctr u) (s.threads h.by) (s.retired h.by)) e h.guard)
  ]
