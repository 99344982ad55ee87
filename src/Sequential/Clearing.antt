-- ===== src/Sequential/Clearing.antt =====
-- The loops of `destroy_queue` of Ex1.c: each frees the nodes of its list, and no other.
use amp_project.Base.{
  ℕ, zero, suc, ◌+◌, ◌≤◌, ◌<◌, ◌≡◌, ◌≢◌, refl, ◌∙◌, true, false, none, some, ◌==◌, if◌then◌else◌,
  arith, length, ℕ_discrete,
}
use amp_project.Heap.{Ptr, null, Heap, Node, node, write, Owner, Owners}
use amp_project.Heap.Seg.{
  Cells, has, ◌∉◌, first, Seg, nil, cons, Seg-frame, Seg-agree, not-mem_of_owner, owner_of_mem,
}
use amp_project.Sequential.{destroy_nodes, destroy_free_list, destroy_free_lists}
use amp_project.Sequential.Memory.{World, FreeList, ok, put, free, list_at}
use amp_project.Sequential.Shape.{
  Pool, IsFreeList, Yields, yields, bind, weaken, load-ok, load_free_list-ok, SameBut-write,
}

-- `g` is `h` without the nodes of `xs`
abbrev pub Cleared : Cells → Heap → Heap → Type 0
Cleared xs h g = (a : Ptr) → g a ≡ (if has a xs then none else h a)

free-ok :
    (w : World) {p : Ptr} {n : Node}
    → p ≢ null
    → w.heap p ≡ some n
    → free p w ≡ ok tt (put p none w)
unfolding free
free-ok w ne e = rw (load-ok w ne e)

write-none : (h : Heap) (p a : Ptr) → write h p none a ≡ (if a == p then none else h a)
unfolding write
write-none h p a = refl

module _ {own : Owners} {o : Owner} where
  -- Enough fuel frees one list, node after node.
  pub destroy_free_list-Cleared :
      (k : ℕ) (w : World) {xs : Cells}
      → Seg w.heap own o null xs
      → length xs < k
      → Yields
          (λ _ w'. (w'.queue ≡ w.queue) × Cleared xs w.heap w'.heap)
          (destroy_free_list k (first xs null) w)
  unfolding destroy_free_list
  destroy_free_list-Cleared zero w s lt = absurd (omega arith)
  destroy_free_list-Cleared (suc k) w nil lt = yields (refl, λ a. refl)
  destroy_free_list-Cleared (suc k) w (cons {p} {v} {xs} e out s) lt =
      let ne : (p == null) ≡ false = ground (arith, e.ne_null) in
      rw (ne, load-ok w e.ne_null e.holds)
        (rw (free-ok w e.ne_null e.holds) (
          weaken
            (destroy_free_list-Cleared k (put p none w)
              (Seg-frame s (SameBut-write w.heap own p none) out) (omega arith))
            λ _ w' (same, cleared). (same, λ a. cleared a ∙ ground (arith, write-none w.heap p a))))

  pub destroy_nodes-Cleared :
      (k : ℕ) (w : World) {xs : Cells}
      → Seg w.heap own o null xs
      → w.queue.head ≡ first xs null
      → length xs < k
      → Yields
          (λ _ w'. (w'.queue ≡ record (w.queue) { head = null }) × Cleared xs w.heap w'.heap)
          (destroy_nodes k w)
  unfolding destroy_nodes
  destroy_nodes-Cleared zero w s head lt = absurd (omega arith)
  destroy_nodes-Cleared (suc k) w nil head lt =
      let is_null : (w.queue.head == null) ≡ true = ground arith in
      rw is_null (yields (λ i. record (w.queue) { head = head i }, λ a. refl))
  destroy_nodes-Cleared (suc k) w (cons {p} {v} {xs} e out s) head lt =
      let ne : w.queue.head ≢ null = rw head e.ne_null in
      let not_null : (w.queue.head == null) ≡ false = ground arith in
      let at : w.heap w.queue.head ≡ some (node v (first xs null)) = rw head e.holds in
      rw (not_null, load-ok w ne at)
        (rw (free-ok w ne at) (
          weaken
            (destroy_nodes-Cleared k
              (record {
                heap = write w.heap w.queue.head none;
                queue = record (w.queue) { head = first xs null };
              })
              {xs = xs} (rw head (Seg-frame s (SameBut-write w.heap own p none) out)) refl
              (omega arith))
            λ _ w' (same, cleared).
              (same, λ a. cleared a ∙ ground (arith, write-none w.heap w.queue.head a, head))))

-- The rounds from `i` on: the nodes of those free lists are gone, and all others are as they were.
pub record Drained (pool : Pool) (i k : ℕ) (w w' : World) : Type 0 where
  pub same : w'.queue ≡ w.queue
  pub gone : (t : ℕ) → i ≤ t → t < i + k → (a : Ptr) → has a (pool t) ≡ true → w'.heap a ≡ none
  pub kept : (a : Ptr) → ((t : ℕ) → i ≤ t → t < i + k → a ∉ pool t) → w'.heap a ≡ w.heap a

-- One list is freed; the lists of later threads are as they were.
module _ {own : Owners} (pool : Pool) {i : ℕ} {w w1 : World} {l : FreeList}
    (f : IsFreeList w.heap own i l (pool i)) (same : w1.queue ≡ w.queue)
    (cleared : Cleared (pool i) w.heap w1.heap) where
  later-IsFreeList :
      (t : ℕ) (k : FreeList)
      → i < t
      → IsFreeList w.heap own t k (pool t)
      → IsFreeList w1.heap own t k (pool t)
  later-IsFreeList t k lt g = record {
    chain =
        Seg-agree g.chain λ a mine. cleared a ∙ rw (not-mem_of_owner a f.chain (ground arith)) refl;
    head = g.head;
    size = g.size;
  }

  -- The remaining rounds, behind this one.
  Drained-cons :
      (k : ℕ) {w' : World}
      → ((t : ℕ) → i < t → t < i + suc k → (l : FreeList) × IsFreeList w.heap own t l (pool t))
      → Drained pool (i + 1) k w1 w'
      → Drained pool i (suc k) w w'
  Drained-cons k {w'} others d = record {
    same = d.same ∙ same;
    gone = gone;
    kept = λ a out.
        d.kept a (λ t le lt. out t (omega arith) (omega arith))
        ∙ cleared a
        ∙ rw (out i (omega arith) (omega arith)) refl;
  }
    where
      gone : (t : ℕ) → i ≤ t → t < i + suc k → (a : Ptr) → has a (pool t) ≡ true → w'.heap a ≡ none
      gone t le lt a in_t = elim (ℕ_discrete i t) [
        | yes e ↦
            let in_i : has a (pool i) ≡ true = rw e in_t in
            let owner = owner_of_mem a f.chain in_i in
            d.kept a (λ u le' lt'.
              let (k', g) = others u (omega arith) (omega arith) in
              not-mem_of_owner a g.chain (ground arith))
            ∙ cleared a
            ∙ rw in_i refl
        | no ne ↦ d.gone t (omega arith) (omega arith) a in_t
      ]

pub destroy_free_lists-Drained :
    (fuel k i : ℕ) {own : Owners} {pool : Pool} (w : World)
    → ((t : ℕ) → t < i + k → (l : FreeList) × (list_at w.queue.free_lists t ≡ some l))
    → ((t : ℕ) (l : FreeList)
        → i ≤ t
        → list_at w.queue.free_lists t ≡ some l
        → IsFreeList w.heap own t l (pool t))
    → ((t : ℕ) → length (pool t) < fuel)
    → Yields (λ _. Drained pool i k w) (destroy_free_lists fuel k i w)
unfolding destroy_free_lists
destroy_free_lists-Drained fuel zero i w arrays lists enough =
    yields (record { same = refl; gone = λ t le lt. absurd (omega arith); kept = λ a out. refl })
destroy_free_lists-Drained fuel (suc k) i {own} {pool} w arrays lists enough =
    let (l, at) = arrays i (omega arith) in
    let f = lists i l (omega arith) at in
    rw (load_free_list-ok w i at) (
      rw f.head (
        bind (destroy_free_list-Cleared fuel w f.chain (enough i)) λ _ w1 (same, cleared).
          weaken
            (destroy_free_lists-Drained fuel k (i + 1) {own = own} {pool = pool} w1
              (λ t lt. rw same (arrays t (omega arith)))
              (λ t l' le e.
                later-IsFreeList pool f same cleared t l' (omega arith)
                  (lists t l' (omega arith) (rw same at e)))
              enough)
            λ _ w' d.
              Drained-cons pool f same cleared k
                (λ t lt lt'.
                  let (l', e) = arrays t (omega arith) in (l', lists t l' (omega arith) e))
                d))
