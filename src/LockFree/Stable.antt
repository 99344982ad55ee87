-- ===== src/LockFree/Stable.antt =====
-- What a step leaves to the threads that are in an operation (Ex5.c).
use amp_project.Base.{
  ℕ, ◌≡◌, ◌≢◌, refl, sym, ◌∙◌, ap, true, ◌||◌, inl, inr, some, [], ◌∷◌, arith, ◌==◌, ◌++◌,
  ℕ_discrete,
}
use amp_project.Heap.{Ptr, null, Value, node, queued, held_by, assign}
use amp_project.Heap.Seg.{Cells, has, has-concat}
use amp_project.Sequential.Memory.{World, put}
use amp_project.Sequential.Shape.{write_self, write_ne, assign_ne}
use amp_project.Sequential.Others.{Untouched, Held-Untouched}
use amp_project.LockFree.{
  Pc, outside, enq_tail, enq_next, enq_check, enq_link, enq_swing, enq_help, deq_tail, deq_next,
  deq_check, deq_help, deq_load, deq_swing, deq_retire,
}
use amp_project.LockFree.Places.{in_op}
use amp_project.LockFree.Invariant.{Ghost, Seen, Old, Ahead, Linked, Mine, Place}

-- The nodes that `u` may see stay where they can be read; what they lead to is final, and so is their
-- value; and the tail does not get to the head.
pub record Stable (w : World) (g : Ghost) (w' : World) (g' : Ghost) (u : ℕ) : Type 0 where
  pub seen : (p : Ptr) → Seen g u p → Seen g' u p
  pub linked :
      (p : Ptr) (v : Value) (x : Ptr)
      → Seen g u p
      → w.heap p ≡ some (node v x)
      → x ≢ null
      → w'.heap p ≡ some (node v x)
  pub valued :
      (p : Ptr) (v : Value) (x : Ptr)
      → Seen g u p
      → w.heap p ≡ some (node v x)
      → (x' : Ptr) × (w'.heap p ≡ some (node v x'))
  pub owners : (p : Ptr) → g.gone u p ≡ true → g'.own p ≡ g.own p
  pub old : (f : Ptr) → Old w g u f → Old w' g' u f
  pub ahead : (f : Ptr) → Old w g u f → Ahead w f → Ahead w' f

module _ {w w' : World} {g g' : Ghost} {u : ℕ} where
  Linked-Stable : Stable w g w' g' u → (l x : Ptr) → Linked w g u l x → Linked w' g' u l x
  Linked-Stable k l x i = record {
    seen = k.seen l i.seen;
    value = i.value;
    holds = k.linked l i.value x i.seen i.holds i.more;
    more = i.more;
    onward = k.seen x i.onward;
  }

  module _ {t : ℕ} (spares : Untouched t w w' g.own g'.own) (ne : u ≢ t) where
    Mine-Stable : (n : Ptr) (v : Value) → Mine w g u n v → Mine w' g' u n v
    Mine-Stable n v m = record {
      held = Held-Untouched spares u ne n m.held;
      filled = spares.cell u ne n m.held ∙ m.filled;
    }

    -- What another thread relies on.
    pub Place-Stable :
        (p : Pc) → (in_op p ≡ true → Stable w g w' g' u) → Place w g u p → Place w' g' u p
    Place-Stable (enq_tail c v n) k m = Mine-Stable n v m
    Place-Stable (enq_next c v n l) k (m, i) = (Mine-Stable n v m, (k refl).seen l i)
    Place-Stable (enq_check c v n l x) k (m, i, f) =
        (Mine-Stable n v m, (k refl).seen l i, λ ne. Linked-Stable (k refl) l x (f ne))
    Place-Stable (enq_link c v n l) k (m, i) = (Mine-Stable n v m, (k refl).seen l i)
    Place-Stable (enq_swing c n l) k i = Linked-Stable (k refl) l n i
    Place-Stable (enq_help c v n l x) k (m, i) = (Mine-Stable n v m, Linked-Stable (k refl) l x i)
    Place-Stable (deq_tail c f) k o = (k refl).old f o
    Place-Stable (deq_next c f l) k (o, a) = ((k refl).old f o, λ ne. (k refl).ahead f o (a ne))
    Place-Stable (deq_check c f l x) k (o, a, i, j) = (
      (k refl).old f o,
      (λ ne. (k refl).ahead f o (a ne)),
      (λ ne. Linked-Stable (k refl) f x (i ne)),
      j,
    )
    Place-Stable (deq_help c l x) k i = Linked-Stable (k refl) l x i
    Place-Stable (deq_load c f x) k (o, a, i) =
        ((k refl).old f o, (k refl).ahead f o a, Linked-Stable (k refl) f x i)
    Place-Stable (deq_swing c f x v) k (o, a, i, (q, e)) = (
      (k refl).old f o,
      (k refl).ahead f o a,
      Linked-Stable (k refl) f x i,
      (k refl).valued x v q i.onward e,
    )
    Place-Stable (deq_retire c f v) k h = Held-Untouched spares u ne f h
    Place-Stable outside k h = tt
    Place-Stable _ k h = tt

-- Nothing changes but what no thread in an operation may see.
pub Stable-same :
    {w w' : World} {g g' : Ghost} {u : ℕ}
    → w'.queue.head ≡ w.queue.head
    → w'.queue.tail ≡ w.queue.tail
    → g'.cells ≡ g.cells
    → g'.gone u ≡ g.gone u
    → ((p : Ptr) → Seen g u p → (w'.heap p ≡ w.heap p) × (g'.own p ≡ g.own p))
    → Stable w g w' g' u
Stable-same {w} {w'} {g} {g'} {u} head tail cells gone same = record {
  seen = λ p i. rw (gone, cells) i;
  linked = λ p v x i e ne. (same p i).0 ∙ e;
  valued = λ p v x i e. (x, (same p i).0 ∙ e);
  owners = λ p i. (same p (ground arith)).1;
  old = λ f o. rw (gone, head) o;
  ahead = λ f o a. rw (head, tail) a;
}

-- The tail moves to a node that is not the head.
pub Stable-tail :
    (w : World) (g : Ghost) (u : ℕ) (x : Ptr)
    → x ≢ w.queue.head
    → Stable w g (record w { queue = record (w.queue) { tail = x } }) g u
Stable-tail w g u x ne = record {
  seen = λ p i. i;
  linked = λ p v x i e ne. e;
  valued = λ p v x i e. (x, e);
  owners = λ p i. refl;
  old = λ f o. o;
  ahead = λ f o a e same. ne (same ∙ e);
}

-- The node `p`, which `u` may not see, is linked behind the last node.
pub Stable-link :
    (w : World) (g : Ghost) (u : ℕ) (end p : Ptr) (last v : Value)
    → w.heap end ≡ some (node last null)
    → ((q : Ptr) → Seen g u q → q ≢ p)
    → Stable w g
        (put end (some (node last p)) w)
        (record { own = assign g.own p queued; cells = g.cells ++ (p, v) ∷ []; gone = g.gone })
        u
Stable-link w g u end p last v back unseen = record {
  seen = λ q i. rw (has-concat q g.cells p v) (ground arith);
  linked = λ q a x i e ne. write_ne w.heap end q _ (λ same. ne (cc (ap w.heap same, e, back))) ∙ e;
  valued = λ q a x i e. elim (ℕ_discrete q end) [
    | yes same ↦ (
      p,
      let value : a ≡ last = cc (ap w.heap same, e, back) in
          rw (same, value) (write_self w.heap end _),
    )
    | no other ↦ (x, write_ne w.heap end q _ other ∙ e)
  ];
  owners = λ q i. assign_ne g.own p q queued (unseen q (ground arith));
  old = λ f o. o;
  ahead = λ f o a. a;
}

-- The first node `f` goes to thread `t`, and counts as gone for all.
pub Stable-pop :
    (w : World) (g : Ghost) (u t : ℕ) (f x : Ptr) (cells : Cells)
    → ((q : Ptr) → has q g.cells ≡ ((q == f) || has q cells))
    → ((q : Ptr) → g.gone u q ≡ true → q ≢ f)
    → ((q : Ptr) → g.gone u q ≡ true → q ≢ x)
    → f ≡ w.queue.head
    → x ≢ f
    → Stable w g
        (record w { queue = record (w.queue) { head = x } })
        (record {
          own = assign g.own f (held_by t);
          cells = cells;
          gone = λ u q. g.gone u q || (q == f);
        })
        u
Stable-pop w g u t f x cells split out fresh at ne = record {
  seen = λ q i. ground (arith, split q);
  linked = λ q a y i e ne. e;
  valued = λ q a y i e. (y, e);
  owners = λ q i. assign_ne g.own f q (held_by t) (out q i);
  old = λ q o. elim o [ inl gone ↦ inl (ground arith) | inr here ↦ inl (ground arith) ];
  ahead = λ q o a here. elim o [
    | inl gone ↦ absurd (fresh q gone here)
    | inr old ↦ absurd (ne (sym here ∙ old ∙ sym at))
  ];
}
