-- ===== src/LockFree/Destroy.antt =====
-- `destroy_queue` of Ex5.c: every node is freed once, and nothing else is touched.
use amp_project.Base.{
  ℕ, zero, suc, ◌+◌, ◌≤◌, ◌<◌, ◌≡◌, refl, sym, ◌∙◌, ap, subst, true, false, none, some, List, [],
  ◌∷◌, ltb, arith, length, dec_lt, Option-cases, inl, inr,
}
use amp_project.Heap.{Ptr, Value, Owners}
use amp_project.Heap.Seg.{Cells, has, ◌∉◌, Seg-agree, not-mem_of_owner, owner_of_mem}
use amp_project.Sequential.{destroy_free_list}
use amp_project.Sequential.Memory.{World, FreeList, ok, list_at}
use amp_project.Sequential.Shape.{Pool, IsFreeList, Yields, yields, bind, yielded}
use amp_project.Sequential.Clearing.{
  Cleared, Drained, destroy_free_list-Cleared, destroy_free_lists-Drained,
}
use amp_project.Sequential.Destroy.{length-values}
use amp_project.Sequential.Contents.{Holds, Layout}
use amp_project.Threads.{moved, Event, replay}
use amp_project.LockFree.{Pc, outside, done, State, busy, destroy_queue, without_counters}
use amp_project.LockFree.Memory.{destroy_lists, free_retired}
use amp_project.LockFree.Places.{clear}
use amp_project.LockFree.Counters.{Reach, Reach-AllKept}
use amp_project.LockFree.Nodes.{chain_of, head_is, holds_all}
use amp_project.LockFree.System.{Reach-Inv}

-- What `destroy_queue` leaves of the memory with the queue `cells` and the free lists `pool`.
pub record Freed (w : World) (cells : Cells) (pool : Pool) (w' : World) : Type 0 where
  pub lists : w'.queue.free_lists ≡ none
  pub threads : w'.queue.num_threads ≡ 0
  pub queue_gone : (a : Ptr) → has a cells ≡ true → w'.heap a ≡ none
  pub pool_gone :
      (t : ℕ) → t < w.queue.num_threads → (a : Ptr) → has a (pool t) ≡ true → w'.heap a ≡ none
  pub kept :
      (a : Ptr)
      → a ∉ cells
      → ((t : ℕ) → t < w.queue.num_threads → a ∉ pool t)
      → w'.heap a ≡ w.heap a

-- With no node retired the loops over the retired nodes do nothing.
free_retired-none :
    (k i : ℕ) (retired : ℕ → List Ptr) (w : World)
    → ((t : ℕ) → retired t ≡ [])
    → i + k ≤ w.queue.num_threads
    → free_retired k i retired w ≡ ok tt w
unfolding free_retired
free_retired-none zero i retired w empty le = refl
free_retired-none (suc k) i retired w empty le =
    let inside : ltb i w.queue.num_threads ≡ true = ground arith in
    rw (inside, empty i) (free_retired-none k (i + 1) retired w empty (omega arith))

module _ {w : World} {own : Owners} {cells : Cells} {end : Ptr} {pool : Pool}
    (layout : Layout w own cells end pool) (retired : ℕ → List Ptr)
    (empty : (t : ℕ) → retired t ≡ []) where
  no_threads : w.queue.free_lists ≡ none → w.queue.num_threads ≡ 0
  unfolding list_at
  no_threads e = elim (dec_lt 0 w.queue.num_threads) [
    | yes lt ↦
        let (l, at) = layout.shape.arrays 0 lt in let at' : none ≡ some l = rw e at at in cc at'
    | no nlt ↦ omega arith
  ]

  module _ {w1 : World} (same : w1.queue ≡ w.queue) (cleared : Cleared cells w.heap w1.heap) where
    left_list :
        (t : ℕ) (l : FreeList)
        → list_at w1.queue.free_lists t ≡ some l
        → IsFreeList w1.heap own t l (pool t)
    left_list t l at =
        let f = layout.shape.lists t l (rw same at at) in
        record {
          chain =
              Seg-agree f.chain
                λ a mine. cleared a ∙ rw (not-mem_of_owner a (chain_of layout) (ground arith)) refl;
          head = f.head;
          size = f.size;
        }

    Freed-of :
        {w2 : World}
        → Drained pool 0 w.queue.num_threads w1 w2
        → Freed w cells pool
            (record w2 { queue = record (w2.queue) { free_lists = none; num_threads = 0 } })
    Freed-of {w2} d = record {
      lists = refl;
      threads = refl;
      queue_gone = λ a i.
          let owner = owner_of_mem a (chain_of layout) i in
          d.kept a (λ t _ lt.
            let (l, at) = layout.shape.arrays t (omega (arith, lt)) in
            not-mem_of_owner a (layout.shape.lists t l at).chain (ground arith))
          ∙ cleared a
          ∙ rw i refl;
      pool_gone = λ t lt. d.gone t (omega arith) (omega arith);
      kept =
          λ a out outs. d.kept a (λ t _ lt. outs t (omega (arith, lt))) ∙ cleared a ∙ rw out refl;
    }

  pub destroy_lists-Freed :
      (fuel : ℕ)
      → length cells < fuel
      → ((t : ℕ) → length (pool t) < fuel)
      → Yields (λ _. Freed w cells pool) (destroy_lists fuel retired w)
  unfolding destroy_lists
  destroy_lists-Freed fuel le enough =
      bind
        (subst
          (λ p.
            Yields (λ _ w'. (w'.queue ≡ w.queue) × Cleared cells w.heap w'.heap)
              (destroy_free_list fuel p w))
          (sym (head_is layout)) (destroy_free_list-Cleared fuel w (chain_of layout) le))
        λ _ w1 (same, cleared). elim (Option-cases w.queue.free_lists) [
          | inl e ↦
              simp
                (
                  e,
                  free_retired-none w.queue.num_threads 0 retired w1 empty
                      (omega (arith, ap (λ q. q.num_threads) same)),
                )
                (yields (record {
                  lists = ap (λ q. q.free_lists) same ∙ e;
                  threads = refl;
                  queue_gone = λ a i. cleared a ∙ rw i refl;
                  pool_gone = λ t lt. absurd (omega (arith, no_threads e));
                  kept = λ a out _. cleared a ∙ rw out refl;
                }))
          | inr (ls, e) ↦ simp e (
              bind
                {P = λ _ w3.
                  (w2 : World) × Drained pool 0 w.queue.num_threads w1 w2
                  × (w3 ≡ record w2 { queue = record (w2.queue) { free_lists = none } })}
                (bind
                  (destroy_free_lists-Drained fuel w.queue.num_threads 0 {own = own} {pool = pool}
                    w1 (λ t lt. rw same (layout.shape.arrays t (omega (arith, lt))))
                    (λ t l _ at. left_list same cleared t l at) enough)
                  λ _ w2 d. yields (w2, d, refl))
                λ _ w3 (w2, d, is). rw is (
                  simp
                    (free_retired-none w.queue.num_threads 0 retired
                      (record w2 { queue = record (w2.queue) { free_lists = none } }) empty
                      (omega (arith, ap (λ q. q.num_threads) (d.same ∙ same))))
                    (yields (Freed-of same cleared d))))
        ]

idle-clear : (pc : Pc) → busy pc ≡ false → clear pc ≡ true
idle-clear outside e = refl
idle-clear (done k r) e = refl
idle-clear _ e = cc e

empty_of_length : (rs : List Ptr) → length rs ≡ 0 → rs ≡ []
empty_of_length [] e = refl
empty_of_length (p ∷ rs) e = absurd (omega arith)

-- When no thread is in a call, `destroy_queue` with fuel for the longest list returns: it frees the
-- nodes of the queue and of all free lists, each once, and touches no other; no node is retired then.
pub destroy_queue-returns :
    {n : ℕ} {s : State} {log : List Event}
    → Reach n s log
    → ((t : ℕ) → busy (s.threads t) ≡ false)
    → (xs : List Value) × (replay log ≡ some xs)
      × (h : Holds s.world.heap s.world.queue.head xs) × (pool : Pool) × ((t : ℕ) (l : FreeList)
          → list_at s.world.queue.free_lists t ≡ some l
          → IsFreeList s.world.heap h.own t l (pool t))
      × ((t : ℕ) → s.retired t ≡ [])
      × ((fuel : ℕ)
          → length xs + 2 ≤ fuel
          → ((t : ℕ) → length (pool t) < fuel)
          → (s' : State) × (destroy_queue fuel s ≡ moved s') × Freed s.world h.cells pool s'.world)
unfolding destroy_queue
destroy_queue-returns {s} r quiet =
    let (xs, log_is, inv, size) = Reach-Inv r in
    let none_retired : (t : ℕ) → s.retired t ≡ [] = (λ t.
      let kept = Reach-AllKept r t in
      empty_of_length (s.retired t) (kept.none_retired (idle-clear (s.threads t) (quiet t)))) in
    (
      xs,
      log_is,
      holds_all inv.layout inv.contents,
      inv.pool,
      inv.layout.shape.lists,
      none_retired,
      λ fuel le enough.
          let (u, w', run, gone) = yielded (
            destroy_lists-Freed inv.layout s.retired none_retired fuel
              (omega (arith, length-values inv.ghost.cells, ap length inv.contents)) enough) in
          (_, ap (without_counters s.threads) run, gone),
    )
