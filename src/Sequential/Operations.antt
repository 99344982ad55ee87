-- ===== src/Sequential/Operations.antt =====
-- `enq` and `deq` of Ex1.c against the abstract queue, on every branch.
use amp_project.Base.{
  ℕ, ◌<◌, ◌≡◌, ◌≢◌, refl, ◌∙◌, true, false, Option, none, some, List, [], ◌∷◌, ◌++◌, ◌==◌, arith,
  bump,
}
use amp_project.Heap.{Ptr, null, Value, Alloc}
use amp_project.Heap.Seg.{Cells}
use amp_project.Sequential.{enq, deq}
use amp_project.Sequential.Memory.{World, ok}
use amp_project.Sequential.Shape.{Pool, repool, IsQueue, Yields, yields, weaken, bind, load-ok}
use amp_project.Sequential.Pools.{
  upcycle_node-reuse, upcycle_node-malloc, malloc-null, malloc-ok, malloc-Holding,
  recycle_node-pool,
}
use amp_project.Sequential.Ends.{
  link_node-append, unlink_node-uncons, head-next-null, head-next-some,
}

module _ {w : World} {pool : Pool} {xs : List Value} (is : IsQueue w pool xs) (m : Alloc)
    (v : Value) (t : ℕ) (lt : t < w.queue.num_threads) where
  -- An enqueue by a thread whose free list is not empty appends the value, takes the first node of
  -- that free list, and asks `malloc` for nothing.
  pub enq-reuse :
      {p : Ptr} {u : Value} {r : Cells}
      → pool t ≡ (p, u) ∷ r
      → Yields
          (λ done w'.
            (done ≡ true)
            × (w'.queue.num_threads ≡ w.queue.num_threads)
            × IsQueue w' (repool pool t r) (xs ++ v ∷ []))
          (enq m v t w)
  unfolding enq
  enq-reuse e = bind (upcycle_node-reuse is m t lt e) λ q w' (at, heap, same, hold).
      let ne : (q == null) ≡ false = rw at (ground (arith, hold.ne_null)) in
      rw ne (
        rw at (
          weaken (link_node-append hold v)
            λ done w'' (appended, same', is'). (appended, same' ∙ same, is')))

  -- With an empty free list the node is a fresh block.
  pub enq-malloc :
      pool t ≡ []
      → m.addr ≢ null
      → w.heap m.addr ≡ none
      → Yields
          (λ done w'.
            (done ≡ true)
            × (w'.queue.num_threads ≡ w.queue.num_threads)
            × IsQueue w' pool (xs ++ v ∷ []))
          (enq m v t w)
  unfolding enq
  enq-malloc e ne fresh =
      let hold = malloc-Holding is t m ne fresh in
      let some_p : (m.addr == null) ≡ false = ground arith in
      rw (upcycle_node-malloc is m t lt e, malloc-ok w m ne, some_p) (link_node-append hold v)

  -- If `malloc` fails, `enq` returns 0 and changes nothing.
  pub enq-no-memory : pool t ≡ [] → m.addr ≡ null → enq m v t w ≡ ok false w
  unfolding enq
  enq-no-memory e nul = rw (upcycle_node-malloc is m t lt e, malloc-null w m nul)

module _ {w : World} {pool : Pool} (count : Option ℕ) (t : ℕ) where
  -- On an empty queue `deq` returns 0 and changes nothing.
  pub deq-empty : IsQueue w pool [] → deq t count w ≡ ok (none, count) w
  unfolding deq
  deq-empty is = let (n, ne, e, nul) = head-next-null is refl in rw (load-ok w ne e, nul)

  -- Else it returns the oldest value, and puts the old sentinel in front of the thread's free list.
  pub deq-uncons :
      {x : Value} {ys : List Value}
      → IsQueue w pool (x ∷ ys)
      → t < w.queue.num_threads
      → Yields
          (λ out w'.
            (out ≡ (some x, bump count))
            × (w'.queue.num_threads ≡ w.queue.num_threads)
            × ((u : Value) × IsQueue w' (repool pool t ((w.queue.head, u) ∷ pool t)) ys))
          (deq t count w)
  unfolding deq
  deq-uncons is lt =
      let (n, ne, e, succ) = head-next-some is in
      let more : (n.next == null) ≡ false = ground arith in
      rw (load-ok w ne e, more)
        (bind (unlink_node-uncons t is) λ (v, s) w' (is_x, is_s, heap, same, hold).
          bind (recycle_node-pool t count hold (rw same lt)) λ c w'' (bumped, same', is').
            yields (rw (is_x, bumped) refl, same' ∙ same, (hold.content.value, rw is_s at is')))
