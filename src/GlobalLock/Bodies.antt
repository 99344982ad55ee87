-- ===== src/GlobalLock/Bodies.antt =====
-- What Ex2.c does under its lock, at the level of Shape.
use amp_project.Base.{
  ℕ, ◌+◌, ◌%◌, ◌^◌, ◌<◌, ◌≡◌, ◌≢◌, refl, ◌∙◌, ap, true, false, Bool-cases, Option, none, some, List,
  [], ◌∷◌, ◌++◌, ◌==◌, inl, inr, ◌⊎◌, arith, length, dec32, bump,
}
use amp_project.Heap.{
  Ptr, null, Value, Node, node, Heap, Alloc, free_of, held_by, queued, Owners, assign,
}
use amp_project.Heap.Seg.{Cells, first, values, Points, Seg, Seg-head, Seg-apart, Seg-tail}
use amp_project.Sequential
use amp_project.Sequential.Memory.{FreeList, free_list, World, put, list_at}
use amp_project.Sequential.Shape.{
  Pool, repool, Shape, Yields, yields, bind, load-ok, write_self, write_ne, assign_self, assign_ne,
}
use amp_project.Sequential.Others.{Held, Untouched, Untouched-node, Untouched-trans}
use amp_project.Sequential.Frames.{with_list, alloc-Shape, take-Shape, pop-Shape, give_back-Shape}
use amp_project.Sequential.Pools.{
  IsFresh, upcycle_node-take, upcycle_node-empty, malloc-null, malloc-ok, recycle_node-ok,
}
use amp_project.Sequential.Ends.{unlink_node-ok, linked, linked-Shape, link_node-ok}
use amp_project.GlobalLock.{enq_body, deq_body}

-- The memory that thread `t` leaves with other lists, and what it leaves to the others.
pub record Left (t : ℕ) (w : World) (own : Owners) (front : Cells) (last : Value) (w' : World)
    : Type 0 where
  pub own' : Owners
  pub pool' : Pool
  pub shape : Shape w' own' front last pool'
  pub size : w'.queue.num_threads ≡ w.queue.num_threads
  pub untouched : Untouched t w w' own own'

-- As `Left`, with node `p` in the hands of thread `t`.
pub record Acquired (t : ℕ) (p : Ptr) (w : World) (own : Owners) (front : Cells) (last : Value)
    (w' : World) : Type 0 where
  pub left : Left t w own front last w'
  pub held : Held w' left.own' t p
  pub same_tail : w'.queue.tail ≡ w.queue.tail

module _ {w : World} {own : Owners} {front : Cells} {last : Value} {pool : Pool}
    (s : Shape w own front last pool) (t : ℕ) where
  malloc-Acquired :
      (m : Alloc)
      → m.addr ≢ null
      → w.heap m.addr ≡ none
      → Acquired t m.addr w own front last (put m.addr (some m.contents) w)
  malloc-Acquired m ne fresh = record {
    left = record {
      own' = assign own m.addr (held_by t);
      pool' = pool;
      shape = alloc-Shape s t m fresh;
      size = refl;
      untouched =
          Untouched-node m.addr (λ u ne mine. fresh) (λ b ne. assign_ne own m.addr b _ ne)
            (λ b ne. write_ne w.heap m.addr b _ ne);
    };
    held = record {
      ne_null = ne;
      mine = assign_self own m.addr (held_by t);
      content = m.contents;
      holds = write_self w.heap m.addr _;
    };
    same_tail = refl;
  }

  take-Acquired :
      {p : Ptr} {u : Value} {r : Cells} (l : FreeList)
      → Points w.heap own (free_of t) p u (first r null)
      → Seg w.heap own (free_of t) null ((p, u) ∷ r)
      → l.size ≡ (length r + 1) % 2 ^ 32
      → Acquired t p w own front last (with_list w t (free_list (first r null) (dec32 l.size)))
  take-Acquired {p} {u} {r} l pt chain size = record {
    left = record {
      own' = assign own p (held_by t);
      pool' = repool pool t r;
      shape = take-Shape s t p u r l pt (Seg-apart chain) (Seg-tail chain) size;
      size = refl;
      untouched =
          Untouched-node p (λ o ne mine. absurd (cc (mine, pt.owner)))
            (λ b ne. assign_ne own p b _ ne) (λ b ne. refl);
    };
    held = record {
      ne_null = pt.ne_null;
      mine = assign_self own p (held_by t);
      content = node u (first r null);
      holds = pt.holds;
    };
    same_tail = refl;
  }

  -- NULL and no change, or a node that the thread holds
  upcycle_node-Acquired :
      (m : Alloc)
      → t < w.queue.num_threads
      → IsFresh m w
      → Yields
          (λ q w'. ((q ≡ null) × (w' ≡ w)) ⊎ Acquired t q w own front last w')
          (Sequential.upcycle_node m t w)
  upcycle_node-Acquired m lt fresh =
      let (l, at) = s.arrays t lt in
      let f = s.lists t l at in go l at (pool t) f.chain f.head f.size
    where
      go :
          (l : FreeList)
          → list_at w.queue.free_lists t ≡ some l
          → (mine : Cells) → Seg w.heap own (free_of t) null mine
          → l.head ≡ first mine null
          → l.size ≡ length mine % 2 ^ 32
          → Yields
              (λ q w'. ((q ≡ null) × (w' ≡ w)) ⊎ Acquired t q w own front last w')
              (Sequential.upcycle_node m t w)
      go l at [] chain head size =
          rw (upcycle_node-empty w t at m head) (elim (Bool-cases (m.addr == null)) [
            | inl nul ↦ rw (malloc-null w m (ground arith)) (yields (inl (refl, refl)))
            | inr some_p ↦
                let ne : m.addr ≢ null = ground arith in
                rw (malloc-ok w m ne) (yields (inr (malloc-Acquired m ne (fresh ne))))
          ])
      go l at ((p, u) ∷ r) chain head size =
          let pt = Seg-head chain in
          let loaded : w.heap l.head ≡ some (node u (first r null)) = rw head pt.holds in
          rw (upcycle_node-take w t at m (rw head pt.ne_null) loaded, head)
            (yields (inr (take-Acquired l pt chain (size ∙ omega arith))))

  -- The node is linked.
  linked-Left :
      (v : Value) (p : Ptr) (w1 : World) (a : Acquired t p w own front last w1)
      → Left t w own (front ++ (w.queue.tail, last) ∷ []) v (linked w1 p a.held.content last v)
  linked-Left v p w1 a = record {
    own' = assign a.left.own' p queued;
    pool' = a.left.pool';
    shape =
        rw (← a.same_tail) (linked-Shape a.left.shape a.held.mine a.held.ne_null a.held.holds v);
    size = a.left.size;
    untouched = Untouched-trans a.left.untouched behind;
  }
    where
      content : Node
      content = a.held.content

      behind : Untouched t w1 (linked w1 p content last v) a.left.own' (assign a.left.own' p queued)
      behind = record {
        owner = λ u ne b h.
            assign_ne a.left.own' p b queued (λ e. ne (cc (ap a.left.own' e, h.mine, a.held.mine)))
            ∙ h.mine;
        cell = λ u ne b h.
            let not_p : b ≢ p = λ e. ne (cc (ap a.left.own' e, h.mine, a.held.mine)) in
            let not_tail : b ≢ w1.queue.tail =
              λ e. cc (ap a.left.own' e, h.mine, a.left.shape.back.owner) in
            write_ne _ w1.queue.tail b _ not_tail
            ∙ write_ne _ p b _ not_p
            ∙ write_ne w1.heap p b _ not_p;
      }

  -- `enq` under the lock: it fails and changes nothing, or it appends the value.
  pub enq_body-Left :
      (m : Alloc) (v : Value)
      → t < w.queue.num_threads
      → IsFresh m w
      → Yields
          (λ r w'.
            ((r ≡ false) × (w' ≡ w))
            ⊎ ((r ≡ true) × Left t w own (front ++ (w.queue.tail, last) ∷ []) v w'))
          (enq_body m v t w)
  unfolding enq_body amp_project.Sequential.enq
  enq_body-Left m v lt fresh = bind (upcycle_node-Acquired m lt fresh) λ q w1 out. elim out [
    | inl (nul, same) ↦
        let e : (q == null) ≡ true = ground arith in rw e (yields (inl (refl, same)))
    | inr a ↦
        let e : (q == null) ≡ false = ground (arith, a.held.ne_null) in
        rw (e, link_node-ok a.left.shape a.held.mine a.held.ne_null a.held.holds v)
          (yields (inr (refl, linked-Left v q w1 a)))
  ]

-- `deq` under the lock: it finds the sentinel alone, or takes the oldest value, and the thread holds
-- the old sentinel.
pub record Taken (t : ℕ) (w : World) (own : Owners) (front : Cells) (last : Value) (v : Value)
    (p : Ptr) (w' : World) : Type 0 where
  pub dummy : Value
  pub front' : Cells
  pub is : front ≡ (p, dummy) ∷ front'
  pub left : Left t w own front' last w'
  pub held : Held w' left.own' t p
  pub rest : List Value
  pub oldest : values front' ++ last ∷ [] ≡ v ∷ rest

-- The second node of a queue.
second_of :
    {h : Heap} {own : Owners} {tail : Ptr} (last : Value) (r : Cells)
    → Seg h own queued tail r
    → tail ≢ null
    → (first r tail ≢ null) × ((v : Value) × (ys : List Value) × (values r ++ last ∷ [] ≡ v ∷ ys))
second_of last [] c ne = (ne, (last, [], refl))
second_of last ((p, v) ∷ r) c ne = ((Seg-head c).ne_null, (v, values r ++ last ∷ [], refl))

-- The sentinel leaves the queue.
pop-Taken :
    {w : World} {own : Owners} {last v : Value} {pool : Pool} {p : Ptr} {u : Value} {r : Cells}
    {ys : List Value} (t : ℕ)
    → Shape w own ((p, u) ∷ r) last pool
    → values r ++ last ∷ [] ≡ v ∷ ys
    → Taken t w own
        ((p, u) ∷ r)
        last
        v
        w.queue.head
        (record w { queue = record (w.queue) { head = first r w.queue.tail } })
pop-Taken {w} {own} {pool = pool} {p} {u} {r} {ys} t s oldest = record {
  dummy = u;
  front' = r;
  is = rw s.head refl;
  left = record {
    own' = assign own p (held_by t);
    pool' = pool;
    shape = pop-Shape s t;
    size = refl;
    untouched =
        Untouched-node p (λ o ne mine. absurd (cc (mine, at.owner)))
          (λ b ne. assign_ne own p b _ ne) (λ b ne. refl);
  };
  held = record {
    ne_null = rw s.head at.ne_null;
    mine = rw s.head (assign_self own p (held_by t));
    content = node u (first r w.queue.tail);
    holds = rw s.head at.holds;
  };
  rest = ys;
  oldest = oldest;
}
  where
    at : Points w.heap own queued p u (first r w.queue.tail)
    at = Seg-head s.chain

-- The alternatives for `deq` under the lock.
abbrev pub Dequeued : ℕ → World → Owners → Cells → Value → Option (Value × Ptr) → World → Type 0
Dequeued t w own front last none w' = (w' ≡ w) × (front ≡ [])
Dequeued t w own front last (some (v, p)) w' = Taken t w own front last v p w'

pub deq_body-Dequeued :
    {w : World} {own : Owners} {last : Value} {pool : Pool} (t : ℕ) (front : Cells)
    → Shape w own front last pool
    → Yields (Dequeued t w own front last) (deq_body w)
unfolding deq_body
deq_body-Dequeued {w} {own} {last} t [] s =
    let at_head : w.heap w.queue.head ≡ some (node last null) = rw s.head s.back.holds in
    rw (load-ok w (rw s.head s.back.ne_null) at_head) (yields (refl, refl))
deq_body-Dequeued {w} {own} {last} {pool} t ((p, u) ∷ r) s =
    let at = Seg-head s.chain in
    let at_head : w.heap w.queue.head ≡ some (node u (first r w.queue.tail)) = rw s.head at.holds in
    let (ne, (v, ys, oldest)) = second_of last r (Seg-tail s.chain) s.back.ne_null in
    let more : (first r w.queue.tail == null) ≡ false = ground arith in
    rw (load-ok w (rw s.head at.ne_null) at_head, more, unlink_node-ok t s oldest)
      (yields (pop-Taken t s oldest))

-- `recycle_node`, by a thread that holds the node
pub recycle_node-Left :
    {w : World} {own : Owners} {front : Cells} {last : Value} {pool : Pool}
    → Shape w own front last pool
    → (t : ℕ) {p : Ptr} (count : Option ℕ) → Held w own t p
    → t < w.queue.num_threads
    → Yields
        (λ c w'. (c ≡ bump count) × Left t w own front last w')
        (Sequential.recycle_node t p count w)
recycle_node-Left {w} {own} {pool = pool} s t {p} count held lt =
    let (l, at) = s.arrays t lt in
    rw (recycle_node-ok w t at count held.ne_null held.holds) (
      yields (
        refl,
        record {
          own' = assign own p (free_of t);
          pool' = repool pool t ((p, held.content.value) ∷ pool t);
          shape = give_back-Shape s t held.mine held.content.value l held.ne_null at;
          size = refl;
          untouched =
              Untouched-node p (λ u ne mine. absurd (ne (cc (mine, held.mine))))
                (λ b ne. assign_ne own p b _ ne) (λ b ne. write_ne w.heap p b _ ne);
        },
      ))
