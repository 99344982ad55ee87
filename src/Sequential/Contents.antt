-- ===== src/Sequential/Contents.antt =====
-- The abstract contents of a queue in memory, without its owners and free lists.
use amp_project.Base.{◌≡◌, sym, ◌∙◌, List, [], ◌∷◌, ◌++◌}
use amp_project.Heap.{Ptr, null, Value, Heap, queued, Owners}
use amp_project.Heap.Seg.{Cells, first, values, Seg, Seg-concat, first-concat, values-concat}
use amp_project.Sequential.Memory.{World}
use amp_project.Sequential.Shape.{Pool, Shape}

-- From `head` the `next` pointers lead through distinct nodes to NULL: the sentinel, and then nodes
-- with the values `xs`.
pub record Holds (h : Heap) (head : Ptr) (xs : List Value) : Type 0 where
  pub own : Owners
  pub cells : Cells
  pub sentinel : Value
  pub chain : Seg h own queued null cells
  pub at_head : head ≡ first cells null
  pub contents : values cells ≡ sentinel ∷ xs

unfoldable pub holds_of :
    {w : World} {own : Owners} {front : Cells} {last sentinel : Value} {pool : Pool}
    {xs : List Value}
    → Shape w own front last pool
    → values front ++ last ∷ [] ≡ sentinel ∷ xs
    → Holds w.heap w.queue.head xs
holds_of {w} {own} {front} {last} {sentinel} s contents = record {
  own = own;
  cells = front ++ (w.queue.tail, last) ∷ [];
  sentinel = sentinel;
  chain = Seg-concat s.chain s.back s.apart;
  at_head = s.head ∙ sym (first-concat front _ _ null);
  contents = values-concat front w.queue.tail last ∙ contents;
}

-- the memory with `Q->tail` at the last node, where it is when no `enq` is under way
abbrev pub settled : World → Ptr → World
settled w end = record w { queue = record (w.queue) { tail = end } }

-- The nodes of the queue are `cells`, the last of them at `end`.
pub record Layout (w : World) (own : Owners) (cells : Cells) (end : Ptr) (pool : Pool)
    : Type 0 where
  pub front : Cells
  pub last : Value
  pub shape : Shape (settled w end) own front last pool
  pub all : front ++ (end, last) ∷ [] ≡ cells
