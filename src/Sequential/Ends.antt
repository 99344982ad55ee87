-- ===== src/Sequential/Ends.antt =====
-- The two ends of the list of Ex1.c: `enq` links a node behind the tail, `deq` unlinks the sentinel.
use amp_project.Base.{
  ℕ, ◌≡◌, ◌≢◌, refl, true, some, List, [], ◌∷◌, ◌++◌, ◌==◌, if◌then◌else◌, arith, inl, inr,
  Bool-cases,
}
use amp_project.Heap.{Ptr, null, Value, Node, node, Heap, queued, held_by, Owners, assign}
use amp_project.Heap.Seg.{Cells, first, values, Points, Seg, Seg-head, Seg-tail, values-concat}
use amp_project.Sequential.{link_node, unlink_node}
use amp_project.Sequential.Memory.{World, ok, give, put, set_tail}
use amp_project.Sequential.Frames.{write-Shape, link-Shape, pop-Shape}
use amp_project.Sequential.Shape.{
  Pool, Shape, IsQueue, Holding, Yields, yields, write_self, assign_self, load-ok, set_value-ok,
  set_next-ok,
}

-- What `link_node` leaves when `last` is the value of the tail.
abbrev pub linked : World → Ptr → Node → Value → Value → World
linked w p content last v =
    let filled = put p (some (node v null)) (put p (some (node v content.next)) w) in
    record (put w.queue.tail (some (node last p)) filled) { queue = record (w.queue) { tail = p } }

module _ {t : ℕ} {p : Ptr} {w : World} {own : Owners} {front : Cells} {last : Value} {pool : Pool}
    (s : Shape w own front last pool) (mine : own p ≡ held_by t) (ne : p ≢ null) {content : Node}
    (holds : w.heap p ≡ some content) (v : Value) where
  abbrev filled : World
  filled = put p (some (node v null)) (put p (some (node v content.next)) w)

  filled-Shape : Shape filled own front last pool
  filled-Shape = write-Shape (write-Shape s t mine _) t mine _

  -- The node is linked, and the tail moved.
  pub linked-Shape :
      Shape
        (linked w p content last v)
        (assign own p queued)
        (front ++ (w.queue.tail, last) ∷ [])
        v
        pool
  linked-Shape = link-Shape filled-Shape t mine v ne (write_self _ p _)

  pub link_node-ok : link_node p v w ≡ ok true (linked w p content last v)
  unfolding link_node
  link_node-ok = rw (set_value-ok w ne holds v) (
      rw (set_next-ok (put p (some (node v content.next)) w) ne (write_self w.heap p _) null)
        (rw (set_next-ok filled s.back.ne_null filled-Shape.back.holds p) refl))

-- `link_node` appends the value, and its return value says so.
pub link_node-append :
    {t : ℕ} {p : Ptr} {w : World} {pool : Pool} {xs : List Value} (hold : Holding t p w pool xs)
    (v : Value)
    → Yields
        (λ r w'.
          (r ≡ true)
          × (w'.queue.num_threads ≡ w.queue.num_threads)
          × IsQueue w' pool (xs ++ v ∷ []))
        (link_node p v w)
link_node-append {p} {w} hold v = rw (link_node-ok is.shape hold.mine hold.ne_null hold.holds v) (
    yields (
      refl,
      refl,
      record {
        own = assign is.own p queued;
        front = is.front ++ (w.queue.tail, is.last) ∷ [];
        last = v;
        sentinel = is.sentinel;
        contents = rw (values-concat, is.contents);
        shape = linked-Shape is.shape hold.mine hold.ne_null hold.holds v;
      },
    ))
  where
    open hold use {is}

-- The tail is moved only where it is that node already.
set_tail_same :
    (w : World)
    → (if w.queue.tail == w.queue.head then set_tail w.queue.head else give tt) w ≡ ok tt w
set_tail_same w = elim (Bool-cases (w.queue.tail == w.queue.head)) [
  | inl e ↦ rw e (let e' : w.queue.tail ≡ w.queue.head = ground arith in cc e')
  | inr e ↦ rw e refl
]

module _ {w : World} {pool : Pool} {xs : List Value} where
  -- An empty queue is its sentinel alone.
  pub head-next-null :
      (is : IsQueue w pool xs)
      → xs ≡ []
      → (n : Node) × (w.queue.head ≢ null) × (w.heap w.queue.head ≡ some n) × (n.next ≡ null)
  head-next-null is e = go is.front is.shape is.contents
    where
      go :
          (front : Cells)
          → Shape w is.own front is.last pool
          → values front ++ is.last ∷ [] ≡ is.sentinel ∷ xs
          → (n : Node) × (w.queue.head ≢ null) × (w.heap w.queue.head ≡ some n) × (n.next ≡ null)
      go [] s c = (node is.last null, rw s.head s.back.ne_null, rw s.head s.back.holds, refl)
      go ((p, v) ∷ []) s c = cc (e, c)
      go ((p, v) ∷ (q, u) ∷ r) s c = cc (e, c)

-- The successor of the sentinel holds the oldest value.
second :
    {h : Heap} {own : Owners} {tail : Ptr} {last x : Value} {ys : List Value} (r : Cells)
    → Seg h own queued tail r
    → Points h own queued tail last null
    → values r ++ last ∷ [] ≡ x ∷ ys
    → (n : Node) × (first r tail ≢ null) × (h (first r tail) ≡ some n) × (n.value ≡ x)
second [] s b c = (_, b.ne_null, b.holds, cc)
second ((p, v) ∷ r) s b c = (_, (Seg-head s).ne_null, (Seg-head s).holds, cc)

-- What unlinking leaves: thread `t` holds the old sentinel, and no node has changed.
abbrev pub Unlinked : ℕ → World → Pool → Value → List Value → Value × Ptr → World → Type 0
Unlinked t w pool x ys (v, s) w' =
    (v ≡ x)
    × (s ≡ w.queue.head)
    × (w'.heap ≡ w.heap)
    × (w'.queue.num_threads ≡ w.queue.num_threads)
    × Holding t s w' pool ys

module _ {w : World} {own : Owners} {pool : Pool} {p : Ptr} {v x last : Value} {ys : List Value}
    {r : Cells} (t : ℕ) (s : Shape w own ((p, v) ∷ r) last pool)
    (c : values r ++ last ∷ [] ≡ x ∷ ys) where
  abbrev unlinked : World
  unlinked = record w { queue = record (w.queue) { head = first r w.queue.tail } }

  unlinked-Holding : Holding t w.queue.head unlinked pool ys
  unlinked-Holding = record {
    is = record {
      own = assign own p (held_by t);
      front = r;
      last = last;
      sentinel = x;
      contents = c;
      shape = pop-Shape s t;
    };
    ne_null = rw s.head at.ne_null;
    mine = rw s.head (assign_self own p (held_by t));
    content = node v (first r w.queue.tail);
    holds = rw s.head at.holds;
  }
    where
      at : Points w.heap own queued p v (first r w.queue.tail)
      at = Seg-head s.chain

  pub unlink_node-ok : unlink_node w ≡ ok (x, w.queue.head) unlinked
  unfolding unlink_node
  unlink_node-ok =
      let at = Seg-head s.chain in
      let ne_head : w.queue.head ≢ null = rw s.head at.ne_null in
      let head_at : w.heap w.queue.head ≡ some (node v (first r w.queue.tail)) =
        rw s.head at.holds in
      let (n, ne, e, is_x) = second r (Seg-tail s.chain) s.back c in
      rw (load-ok w ne_head head_at)
        (rw (load-ok w ne e) (rw (set_tail_same unlinked) (rw is_x refl)))

  unlink-Shape : Yields (Unlinked t w pool x ys) (unlink_node w)
  unlink-Shape = rw unlink_node-ok (yields (refl, refl, refl, refl, unlinked-Holding))

-- `deq` past its test takes the oldest value, and its thread holds the old sentinel.
pub unlink_node-uncons :
    {w : World} {pool : Pool} {x : Value} {ys : List Value} (t : ℕ)
    → IsQueue w pool (x ∷ ys)
    → Yields (Unlinked t w pool x ys) (unlink_node w)
unlink_node-uncons {w} {pool} {x} {ys} t is = go is.front is.shape is.contents
  where
    go :
        (front : Cells)
        → Shape w is.own front is.last pool
        → values front ++ is.last ∷ [] ≡ is.sentinel ∷ x ∷ ys
        → Yields (Unlinked t w pool x ys) (unlink_node w)
    go [] s c = cc c
    go ((p, v) ∷ r) s c = unlink-Shape t s cc

-- The sentinel of a queue with a value has a successor.
pub head-next-some :
    {w : World} {pool : Pool} {x : Value} {ys : List Value}
    → IsQueue w pool (x ∷ ys)
    → (n : Node) × (w.queue.head ≢ null) × (w.heap w.queue.head ≡ some n) × (n.next ≢ null)
head-next-some {w} {pool} {x} {ys} is = go is.front is.shape is.contents
  where
    go :
        (front : Cells)
        → Shape w is.own front is.last pool
        → values front ++ is.last ∷ [] ≡ is.sentinel ∷ x ∷ ys
        → (n : Node) × (w.queue.head ≢ null) × (w.heap w.queue.head ≡ some n) × (n.next ≢ null)
    go [] s c = cc c
    go ((p, v) ∷ r) s c =
        let at = Seg-head s.chain in
        (
          node v (first r w.queue.tail),
          rw s.head at.ne_null,
          rw s.head at.holds,
          (second {x = x} {ys = ys} r (Seg-tail s.chain) s.back cc).1,
        )
