-- ===== src/Sequential/Destroy.antt =====
-- `destroy_queue` of Ex1.c: every node is freed once, and nothing else is touched.
use amp_project.Base.{
  ℕ, suc, ◌+◌, ◌≤◌, ◌<◌, ◌≡◌, refl, sym, ◌∙◌, ap, true, none, some, List, [], ◌∷◌, ◌++◌, arith,
  length, length-append, dec_lt, Option-cases, inl, inr,
}
use amp_project.Heap.{Ptr, null, Value, queued}
use amp_project.Heap.Seg.{
  Cells, has, ◌∉◌, first-concat, values, Seg, Seg-agree, Seg-concat, not-mem_of_owner, owner_of_mem,
}
use amp_project.Sequential.{destroy_queue}
use amp_project.Sequential.Memory.{World, FreeList, list_at}
use amp_project.Sequential.Shape.{Pool, IsFreeList, IsQueue, Yields, yields, bind}
use amp_project.Sequential.Clearing.{
  Cleared, Drained, destroy_nodes-Cleared, destroy_free_lists-Drained,
}

pub length-values : (xs : Cells) → length (values xs) ≡ length xs
length-values [] = refl
length-values (x ∷ xs) = ap suc (length-values xs)

-- the nodes of the queue, the sentinel first
abbrev pub nodes : {w : World} {pool : Pool} {xs : List Value} → IsQueue w pool xs → Cells
nodes {w} is = is.front ++ (w.queue.tail, is.last) ∷ []

nodes-Seg :
    {w : World} {pool : Pool} {xs : List Value} (is : IsQueue w pool xs)
    → Seg w.heap is.own queued null (nodes is)
nodes-Seg is = Seg-concat is.shape.chain is.shape.back is.shape.apart

length-nodes :
    {w : World} {pool : Pool} {xs : List Value} (is : IsQueue w pool xs)
    → length (nodes is) ≡ length xs + 1
length-nodes {w} is = omega (
  arith,
  length-append is.front ((w.queue.tail, is.last) ∷ []),
  length-append (values is.front) (is.last ∷ []),
  length-values is.front,
  ap length is.contents,
)

-- What `destroy_queue` leaves of a queue and its free lists.
pub record Destroyed (w : World) (own_nodes : Cells) (pool : Pool) (w' : World) : Type 0 where
  pub head : w'.queue.head ≡ null
  pub lists : w'.queue.free_lists ≡ none
  pub threads : w'.queue.num_threads ≡ 0
  pub queue_gone : (a : Ptr) → has a own_nodes ≡ true → w'.heap a ≡ none
  pub pool_gone :
      (t : ℕ) → t < w.queue.num_threads → (a : Ptr) → has a (pool t) ≡ true → w'.heap a ≡ none
  pub kept :
      (a : Ptr)
      → a ∉ own_nodes
      → ((t : ℕ) → t < w.queue.num_threads → a ∉ pool t)
      → w'.heap a ≡ w.heap a

module _ {w : World} {pool : Pool} {xs : List Value} (is : IsQueue w pool xs) where
  no_array : w.queue.free_lists ≡ none → w.queue.num_threads ≡ 0
  unfolding list_at
  no_array e = elim (dec_lt 0 w.queue.num_threads) [
    | yes lt ↦ let (l, at) = is.shape.arrays 0 lt in let at' : none ≡ some l = rw e at at in cc at'
    | no nlt ↦ omega arith
  ]

  module _ {w1 : World} (same : w1.queue ≡ record (w.queue) { head = null })
      (cleared : Cleared (nodes is) w.heap w1.heap) where
    n_same : w1.queue.num_threads ≡ w.queue.num_threads
    n_same = ap (λ q. q.num_threads) same

    -- The free lists outlive the queue's own nodes.
    drain_list :
        (t : ℕ) (l : FreeList)
        → list_at w1.queue.free_lists t ≡ some l
        → IsFreeList w1.heap is.own t l (pool t)
    drain_list t l at =
        let f = is.shape.lists t l (rw same at at) in
        record {
          chain =
              Seg-agree f.chain
                λ a mine. cleared a ∙ rw (not-mem_of_owner a (nodes-Seg is) (ground arith)) refl;
          head = f.head;
          size = f.size;
        }

    Destroyed-of :
        {w2 : World}
        → Drained pool 0 w1.queue.num_threads w1 w2
        → Destroyed w
            (nodes is)
            pool
            (record w2 { queue = record (w2.queue) { free_lists = none; num_threads = 0 } })
    Destroyed-of {w2} d = record {
      head = ap (λ q. q.head) (d.same ∙ same);
      lists = refl;
      threads = refl;
      queue_gone = λ a i.
          let owner = owner_of_mem a (nodes-Seg is) i in
          d.kept a (λ t _ lt.
            let (l, at) = is.shape.arrays t (omega (arith, n_same, lt)) in
            not-mem_of_owner a (is.shape.lists t l at).chain (ground arith))
          ∙ cleared a
          ∙ rw i refl;
      pool_gone = λ t lt. d.gone t (omega arith) (omega (arith, n_same, lt));
      kept = λ a out outs.
          d.kept a (λ t _ lt. outs t (omega (arith, n_same, lt))) ∙ cleared a ∙ rw out refl;
    }

  -- With fuel for the longest list, `destroy_queue` returns: all nodes of the queue and of the free
  -- lists are freed, each once, and nothing else is touched.
  pub destroy_queue-Destroyed :
      (fuel : ℕ)
      → length xs + 2 ≤ fuel
      → ((t : ℕ) → length (pool t) < fuel)
      → Yields (λ _. Destroyed w (nodes is) pool) (destroy_queue fuel w)
  unfolding destroy_queue
  destroy_queue-Destroyed fuel le enough =
      bind
        (destroy_nodes-Cleared fuel w (nodes-Seg is)
          (is.shape.head ∙ sym (first-concat is.front _ _ null)) (omega (arith, length-nodes is)))
        λ _ w1 (same, cleared). elim (Option-cases w.queue.free_lists) [
          | inl e ↦
              let e1 : w1.queue.free_lists ≡ none = ap (λ q. q.free_lists) same ∙ e in
              simp e1 (
                yields (record {
                  head = ap (λ q. q.head) same;
                  lists = e1;
                  threads = ap (λ q. q.num_threads) same ∙ no_array e;
                  queue_gone = λ a i. cleared a ∙ rw i refl;
                  pool_gone = λ t lt. absurd (omega (arith, no_array e));
                  kept = λ a out _. cleared a ∙ rw out refl;
                }))
          | inr (ls, e) ↦
              let e1 : w1.queue.free_lists ≡ some ls = ap (λ q. q.free_lists) same ∙ e in
              simp e1 (
                bind
                  (destroy_free_lists-Drained fuel w1.queue.num_threads 0 {own = is.own}
                    {pool = pool} w1
                    (λ t lt. rw same (is.shape.arrays t (omega (arith, n_same same cleared, lt))))
                    (λ t l _ at. drain_list same cleared t l at) enough)
                  λ _ w2 d. yields (Destroyed-of same cleared d))
        ]
