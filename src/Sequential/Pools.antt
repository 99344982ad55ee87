-- ===== src/Sequential/Pools.antt =====
-- The free lists of Ex1.c: a node leaves one in `upcylce_node` and enters one in `recycle_node`.
use amp_project.Base.{
  ℕ, ◌+◌, ◌%◌, ◌^◌, ◌<◌, ◌≡◌, ◌≢◌, refl, ◌∙◌, ap, Option, none, some, List, [], ◌∷◌, ◌==◌, arith,
  false, dec32, inc32, bump, length,
}
use amp_project.Heap.{Ptr, null, Value, Node, node, Alloc, free_of, held_by, assign}
use amp_project.Heap.Seg.{Cells, ◌∉◌, first, Points, Seg, Seg-head, Seg-apart, Seg-tail}
use amp_project.Sequential.{upcycle_node, recycle_node}
use amp_project.Sequential.Memory.{FreeList, free_list, World, ok, put, malloc, list_at}
use amp_project.Sequential.Frames.{with_list, alloc-Shape, take-Shape, give_back-Shape}
use amp_project.Sequential.Shape.{
  Pool, repool, IsQueue, Holding, Yields, yields, write_self, assign_self, load-ok,
  load_free_list-ok, store_free_list-ok, set_next-ok,
}

pub rest : Cells → Cells
rest [] = []
rest (x ∷ xs) = xs

-- `malloc` gives NULL or the address of a block that is not in use.
abbrev pub IsFresh : Alloc → World → Type 0
IsFresh m w = m.addr ≢ null → w.heap m.addr ≡ none

module _ {w : World} {pool : Pool} {xs : List Value} (is : IsQueue w pool xs) (t : ℕ) where
  open is use {own, shape}

  -- A fresh block, held by thread `t`.
  pub malloc-Holding :
      (m : Alloc)
      → m.addr ≢ null
      → w.heap m.addr ≡ none
      → Holding t m.addr (put m.addr (some m.contents) w) pool xs
  malloc-Holding m ne fresh = record {
    is = record {
      front = is.front;
      last = is.last;
      sentinel = is.sentinel;
      contents = is.contents;
      own = assign own m.addr (held_by t);
      shape = alloc-Shape shape t m fresh;
    };
    ne_null = ne;
    mine = assign_self own m.addr (held_by t);
    content = m.contents;
    holds = write_self w.heap m.addr (some m.contents);
  }

  -- The first node of the free list, taken off it.
  pub reuse-Holding :
      (p : Ptr) (v : Value) (r : Cells) (l : FreeList)
      → list_at w.queue.free_lists t ≡ some l
      → Points w.heap own (free_of t) p v (first r null)
      → p ∉ r
      → Seg w.heap own (free_of t) null r
      → l.size ≡ (length r + 1) % 2 ^ 32
      → Holding t p (with_list w t (free_list (first r null) (dec32 l.size))) (repool pool t r) xs
  reuse-Holding p v r l e pt out s size = record {
    is = record {
      own = assign own p (held_by t);
      front = is.front;
      last = is.last;
      sentinel = is.sentinel;
      contents = is.contents;
      shape = take-Shape shape t p v r l pt out s size;
    };
    ne_null = pt.ne_null;
    mine = assign_self own p (held_by t);
    content = node v (first r null);
    holds = pt.holds;
  }

-- The runs of `upcycle_node` and `recycle_node`, by what the thread's free list holds.
module _ (w : World) (t : ℕ) {l : FreeList} (at : list_at w.queue.free_lists t ≡ some l) where
  pub upcycle_node-take :
      (m : Alloc)
      → l.head ≢ null
      → {n : Node} → w.heap l.head ≡ some n
      → upcycle_node m t w ≡ ok l.head (with_list w t (free_list n.next (dec32 l.size)))
  unfolding upcycle_node
  upcycle_node-take m ne e =
      let some_p : (l.head == null) ≡ false = ground arith in
      rw (load_free_list-ok w t at, some_p, load-ok w ne e, store_free_list-ok w t at)

  pub upcycle_node-empty : (m : Alloc) → l.head ≡ null → upcycle_node m t w ≡ malloc m w
  unfolding upcycle_node
  upcycle_node-empty m head = rw (load_free_list-ok w t at, head)

  pub recycle_node-ok :
      {p : Ptr} {n : Node} (count : Option ℕ)
      → p ≢ null
      → w.heap p ≡ some n
      → recycle_node t p count w
        ≡ ok
            (bump count)
            (with_list (put p (some (node n.value l.head)) w) t (free_list p (inc32 l.size)))
  unfolding recycle_node
  recycle_node-ok {p} {n} count ne e =
      rw (load_free_list-ok w t at, set_next-ok w ne e l.head)
        (rw (store_free_list-ok (put p (some (node n.value l.head)) w) t at))

-- The first node of a free list that is not empty: it leaves the list.
pub upcycle_node-reuse :
    {w : World} {pool : Pool} {xs : List Value} (is : IsQueue w pool xs) (m : Alloc) (t : ℕ)
    → t < w.queue.num_threads
    → {p : Ptr} {v : Value} {r : Cells} → pool t ≡ (p, v) ∷ r
    → Yields
        (λ q w'.
          (q ≡ p)
          × (w'.heap ≡ w.heap)
          × (w'.queue.num_threads ≡ w.queue.num_threads)
          × Holding t p w' (repool pool t r) xs)
        (upcycle_node m t w)
upcycle_node-reuse {w} {pool} {xs} is m t lt {p} {v} {r} e =
    let (l, at) = is.shape.arrays t lt in
    let f = is.shape.lists t l at in
    let chain : Seg w.heap is.own (free_of t) null ((p, v) ∷ r) = rw e at f.chain in
    let pt = Seg-head chain in
    let head : l.head ≡ p = f.head ∙ ap (λ c. first c null) e in
    let loaded : w.heap l.head ≡ some (node v (first r null)) = rw head pt.holds in
    rw (upcycle_node-take w t at m (rw head pt.ne_null) loaded) (
      yields (
        head,
        refl,
        refl,
        reuse-Holding is t p v r l at pt (Seg-apart chain) (Seg-tail chain)
            (f.size ∙ ap (λ c. length c % 2 ^ 32) e ∙ omega arith),
      ))

-- With an empty free list the node is what `malloc` gives.
pub upcycle_node-malloc :
    {w : World} {pool : Pool} {xs : List Value} (is : IsQueue w pool xs) (m : Alloc) (t : ℕ)
    → t < w.queue.num_threads
    → pool t ≡ []
    → upcycle_node m t w ≡ malloc m w
upcycle_node-malloc {w} is m t lt e =
    let (l, at) = is.shape.arrays t lt in
    let f = is.shape.lists t l at in upcycle_node-empty w t at m (f.head ∙ ap (λ c. first c null) e)

module _ (w : World) (m : Alloc) where
  pub malloc-null : m.addr ≡ null → malloc m w ≡ ok null w
  unfolding malloc
  malloc-null e = ground arith

  pub malloc-ok : m.addr ≢ null → malloc m w ≡ ok m.addr (put m.addr (some m.contents) w)
  unfolding malloc
  malloc-ok e = ground arith

-- A held node, wherever its list entry is written, goes to the front of the holder's free list.
recycle-IsQueue :
    {w : World} {pool : Pool} {xs : List Value} (t : ℕ) {p : Ptr} {l : FreeList}
    → (hold : Holding t p w pool xs) → list_at w.queue.free_lists t ≡ some l
    → IsQueue
        (with_list (put p (some (node hold.content.value l.head)) w) t (free_list p (inc32 l.size)))
        (repool pool t ((p, hold.content.value) ∷ pool t))
        xs
recycle-IsQueue {w} {pool} t {p} {l} hold at = record {
  own = assign hold.is.own p (free_of t);
  front = hold.is.front;
  last = hold.is.last;
  sentinel = hold.is.sentinel;
  contents = hold.is.contents;
  shape = give_back-Shape hold.is.shape t hold.mine hold.content.value l hold.ne_null at;
}

-- `recycle_node` puts a held node in front of the thread's free list, and counts it.
pub recycle_node-pool :
    {w : World} {pool : Pool} {xs : List Value} (t : ℕ) {p : Ptr} (count : Option ℕ)
    → (hold : Holding t p w pool xs) → t < w.queue.num_threads
    → Yields
        (λ c w'.
          (c ≡ bump count)
          × (w'.queue.num_threads ≡ w.queue.num_threads)
          × IsQueue w' (repool pool t ((p, hold.content.value) ∷ pool t)) xs)
        (recycle_node t p count w)
recycle_node-pool {w} t {p} count hold lt =
    let (l, at) = hold.is.shape.arrays t lt in
    rw (recycle_node-ok w t at count hold.ne_null hold.holds)
      (yields (refl, refl, recycle-IsQueue t hold at))
