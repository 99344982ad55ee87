-- ===== src/TwoLock/Dequeue.antt =====
-- The steps of `deq` (Ex4.c) on the memory.
use amp_project.Base.{
  ℕ, ◌<◌, ◌≡◌, ◌≢◌, refl, sym, ◌∙◌, ap, true, false, Bool-cases, Option, none, some, List, [], ◌∷◌,
  ◌++◌, ◌==◌, if◌then◌else◌, inl, inr, ◌⊎◌, arith, ==_refl, bump,
}
use amp_project.Heap.{Ptr, null, Value, Node, node, Alloc, held_by, queued, Owners, assign}
use amp_project.Heap.Seg.{Cells, first, values, Seg-head, Seg-tail, first-concat}
use amp_project.Sequential.Memory.{World, ok, give, set_tail}
use amp_project.Sequential.Shape.{Pool, Shape, yields, load-ok, write_ne, assign_self, assign_ne}
use amp_project.Sequential.Others.{Held, Untouched-node}
use amp_project.Sequential.Frames.{pop-Shape, give_back-Shape}
use amp_project.Sequential.Pools.{recycle_node-ok}
use amp_project.Threads.{replay, take_oldest}
use amp_project.TwoLock.{
  deq_read, deq_load, deq_pop, deq_test, deq_wait, deq_retail, deq_release, deq_recycle, deq_unlock,
  State, access, event, recycle_node,
}
use amp_project.Sequential.Contents.{Layout}
use amp_project.TwoLock.Invariant.{Begins, Inv}
use amp_project.TwoLock.Change.{Change-Inv, Accessed, silent-Advanced, stay-Advanced}

-- What a walk from the head meets: the sentinel alone, or a second node.
pub record HeadOf (w : World) (cells : Cells) (end : Ptr) : Type 0 where
  pub ne_null : w.queue.head ≢ null
  pub content : Node
  pub holds : w.heap w.queue.head ≡ some content
  pub alone_or_more :
      ((content.next ≡ null) × (w.queue.head ≡ end) × (values cells ≡ content.value ∷ []))
      ⊎ ((content.next ≢ null) × ((v : Value) × Begins cells w.queue.head content.next v))

-- The second node is in the heap, with its value.
record Second (w : World) (s n : Ptr) (v : Value) : Type 0 where
  ne_null : n ≢ null
  content : Node
  holds : w.heap n ≡ some content
  value : content.value ≡ v

module _ {w : World} {own : Owners} {cells : Cells} {end : Ptr} {pool : Pool}
    (layout : Layout w own cells end pool) where
  pub head_of : HeadOf w cells end
  head_of = go layout.front layout.shape layout.all
    where
      go :
          (front : Cells)
          → Shape (record w { queue = record (w.queue) { tail = end } }) own front layout.last pool
          → front ++ (end, layout.last) ∷ [] ≡ cells
          → HeadOf w cells end
      go [] sh all = record {
        ne_null = rw sh.head sh.back.ne_null;
        content = node layout.last null;
        holds = rw sh.head sh.back.holds;
        alone_or_more = inl (refl, sh.head, rw (← all) refl);
      }
      go ((p, v) ∷ []) sh all =
          let at = Seg-head sh.chain in
          record {
            ne_null = rw sh.head at.ne_null;
            content = node v end;
            holds = rw sh.head at.holds;
            alone_or_more = inr (
              sh.back.ne_null,
              (layout.last, record { dummy = v; behind = []; is = rw (← all, sh.head) refl }),
            );
          }
      go ((p, v) ∷ (q, u) ∷ r) sh all =
          let at = Seg-head sh.chain in
          record {
            ne_null = rw sh.head at.ne_null;
            content = node v q;
            holds = rw sh.head at.holds;
            alone_or_more = inr (
              (Seg-head (Seg-tail sh.chain)).ne_null,
              (
                u,
                record {
                  dummy = v;
                  behind = r ++ (end, layout.last) ∷ [];
                  is = rw (← all, sh.head) refl;
                },
              ),
            );
          }

  second : (s n : Ptr) (v : Value) → Begins cells s n v → Second w s n v
  second s n v b = go layout.front layout.shape (layout.all ∙ b.is)
    where
      go :
          (front : Cells)
          → Shape (record w { queue = record (w.queue) { tail = end } }) own front layout.last pool
          → front ++ (end, layout.last) ∷ [] ≡ (s, b.dummy) ∷ (n, v) ∷ b.behind
          → Second w s n v
      go [] sh all = cc all
      go ((p, x) ∷ []) sh all =
          let e : end ≡ n = cc all in
          let e' : layout.last ≡ v = cc all in
          record {
            ne_null = rw (← e) sh.back.ne_null;
            content = node layout.last null;
            holds = rw (← e) sh.back.holds;
            value = e';
          }
      go ((p, x) ∷ (q, u) ∷ r) sh all =
          let at = Seg-head (Seg-tail sh.chain) in
          let e : q ≡ n = cc all in
          let e' : u ≡ v = cc all in
          record {
            ne_null = rw (← e) at.ne_null;
            content = node u (first r end);
            holds = rw (← e) at.holds;
            value = e';
          }

-- The queue without its sentinel, which thread `t` holds.
record Popped (w : World) (t : ℕ) (p q : Ptr) (v : Value) (behind : Cells) (own : Owners)
    (end : Ptr) (pool : Pool) : Type 0 where
  layout :
      Layout
        (record w { queue = record (w.queue) { head = q } })
        (assign own p (held_by t))
        ((q, v) ∷ behind)
        end
        pool
  queued_before : own p ≡ queued
  held : Held w (assign own p (held_by t)) t p

popped :
    {w : World} {own : Owners} {cells : Cells} {end : Ptr} {pool : Pool} (t p q : ℕ) (v : Value)
    → Layout w own cells end pool
    → (b : Begins cells p q v) → Popped w t p q v b.behind own end pool
popped {w} {own} {end} {pool} t p q v layout b = go layout.front layout.shape (layout.all ∙ b.is)
  where
    go :
        (front : Cells)
        → Shape (record w { queue = record (w.queue) { tail = end } }) own front layout.last pool
        → front ++ (end, layout.last) ∷ [] ≡ (p, b.dummy) ∷ (q, v) ∷ b.behind
        → Popped w t p q v b.behind own end pool
    go [] sh all = cc all
    go ((a, x) ∷ r) sh all =
        let at = Seg-head sh.chain in
        let e : a ≡ p = cc all in
        let rest : r ++ (end, layout.last) ∷ [] ≡ (q, v) ∷ b.behind = cc all in
        let is_q : first r end ≡ q =
          sym (first-concat r end layout.last null) ∙ ap (λ c. first c null) rest in
        record {
          layout = record {
            front = r;
            last = layout.last;
            shape = rw (← is_q, ← e) (pop-Shape sh t);
            all = rest;
          };
          queued_before = rw (← e) at.owner;
          held = record {
            ne_null = rw (← e) at.ne_null;
            mine = assign_self own p (held_by t);
            content = node x (first r end);
            holds = rw (← e) at.holds;
          };
        }

-- Where the sentinel is the last node, the tail is there already.
pub retail_same :
    {n : ℕ} {s : State} {xs : List Value} (inv : Inv n s xs)
    → s.world.queue.tail ≡ inv.end
    → {h : Node} → s.world.heap s.world.queue.head ≡ some h
    → (if h.next == null then set_tail s.world.queue.head else give tt) s.world ≡ ok tt s.world
retail_same {s} inv tail {h} holds = elim (Bool-cases (h.next == null)) [
  | inl last ↦
      rw last (let same : s.world.queue.tail ≡ s.world.queue.head = at_tail last in cc same)
  | inr more ↦ rw more refl
]
  where
    k : HeadOf s.world inv.cells inv.end
    k = head_of inv.layout

    is_h : k.content ≡ h
    is_h = cc (k.holds, holds)

    at_tail : (h.next == null) ≡ true → s.world.queue.tail ≡ s.world.queue.head
    at_tail last = elim k.alone_or_more [
      | inl (alone, is_end, only) ↦ tail ∙ sym is_end
      | inr (more, b) ↦
          absurd
            (more (ap (λ (c : Node). c.next) is_h ∙ (let e : h.next ≡ null = ground arith in e)))
    ]

module _ {n : ℕ} {s : State} {xs : List Value} (inv : Inv n s xs) (t : ℕ) (m : Alloc) where
  -- `sentinel = Q->head; next = sentinel->next`: with NULL the call takes effect here.
  pub deq_read-Advanced :
      (c : Option ℕ)
      → s.threads t ≡ deq_read c
      → Accessed n s xs t (deq_read c) (access m t (deq_read c))
  unfolding access event replay
  deq_read-Advanced c here =
      let h = head_of inv.layout in
      rw (load-ok s.world h.ne_null h.holds) (elim h.alone_or_more [
        | inl (alone, is_end, only) ↦
            let no_more : (h.content.next == null) ≡ true = ground arith in
            rw no_more (
              let none_left : xs ≡ [] = cc (only, inv.contents) in
              yields (
                stay-Advanced inv t (deq_unlock c none) here refl (λ log e. rw (e, none_left) refl)
                  refl refl tt))
        | inr (more, (v, b)) ↦
            let some_more : (h.content.next == null) ≡ false = ground arith in
            rw some_more (
              yields (
                stay-Advanced inv t (deq_load c s.world.queue.head h.content.next) here refl
                  (λ log e. e) refl refl (v, b)))
      ])

  -- `next->data`
  pub deq_load-Advanced :
      (c : Option ℕ) (p q : Ptr)
      → s.threads t ≡ deq_load c p q
      → Accessed n s xs t (deq_load c p q) (access m t (deq_load c p q))
  unfolding access event
  deq_load-Advanced c p q here =
      let (v, b) : (v : Value) × Begins inv.cells p q v = rw here at (inv.places t) in
      let at_q = second inv.layout p q v b in
      rw (load-ok s.world at_q.ne_null at_q.holds) (
        yields (
          stay-Advanced inv t (deq_pop c p q at_q.content.value) here refl (λ log e. e) refl refl
            (rw at_q.value b)))

  -- `Q->head->next == NULL`, for the new head
  pub deq_test-Advanced :
      (c : Option ℕ) (p : Ptr) (v : Value)
      → s.threads t ≡ deq_test c p v
      → Accessed n s xs t (deq_test c p v) (access m t (deq_test c p v))
  unfolding access event
  deq_test-Advanced c p v here =
      let held : Held s.world inv.own t p = rw here at (inv.places t) in
      let h = head_of inv.layout in
      rw (load-ok s.world h.ne_null h.holds) (elim (Bool-cases (h.content.next == null)) [
        | inl last ↦
            rw last
              (yields (stay-Advanced inv t (deq_wait c p v) here refl (λ log e. e) refl refl held))
        | inr more ↦
            rw more (
              yields
                (stay-Advanced inv t (deq_recycle c p v) here refl (λ log e. e) refl refl held))
      ])

  -- `Q->head = next`: the call takes effect.
  pub deq_pop-Advanced :
      (c : Option ℕ) (p q : Ptr) (v : Value)
      → s.threads t ≡ deq_pop c p q v
      → Accessed n s xs t (deq_pop c p q v) (access m t (deq_pop c p q v))
  unfolding access event replay
  deq_pop-Advanced c p q v here =
      let b : Begins inv.cells p q v = rw here at (inv.places t) in
      let after = popped t p q v inv.layout b in
      let oldest : xs ≡ v ∷ values b.behind = cc (inv.contents, ap values b.is) in
      yields (
        values b.behind,
        (λ log e. rw (e, oldest, take_oldest, ==_refl) refl),
        Change-Inv {inv = inv} here (record {
          own = assign inv.own p (held_by t);
          cells = (q, v) ∷ b.behind;
          end = inv.end;
          pool = inv.pool;
          sentinel = v;
          layout = after.layout;
          contents = refl;
          size = refl;
          place = record {
            ne_null = after.held.ne_null;
            mine = after.held.mine;
            content = after.held.content;
            holds = after.held.holds;
          };
          active = refl;
          same_enq = refl;
          same_deq = refl;
          others_own = λ u ne a h.
              assign_ne inv.own p a _ (λ e. cc (ap inv.own e, h.mine, after.queued_before))
              ∙ h.mine;
          others_heap = λ u ne a h. refl;
          tail = λ _. refl;
          last = λ _. refl;
          grown = λ e. cc;
        }),
      )

  -- The second test, and the store to `Q->tail`, which has that value already.
  pub deq_retail-Advanced :
      (c : Option ℕ) (p : Ptr) (v : Value)
      → s.threads t ≡ deq_retail c p v
      → Accessed n s xs t (deq_retail c p v) (access m t (deq_retail c p v))
  unfolding access event
  deq_retail-Advanced c p v here =
      let (tail, held) : (s.world.queue.tail ≡ inv.end) × Held s.world inv.own t p =
        rw here at (inv.places t) in
      let h = head_of inv.layout in
      rw (load-ok s.world h.ne_null h.holds, retail_same inv tail h.holds)
        (yields
          (stay-Advanced inv t (deq_release c p v) here refl (λ log e. e) refl refl (tail, held)))

  -- `recycle_node`
  pub deq_recycle-Advanced :
      (c : Option ℕ) (p : Ptr) (v : Value)
      → s.threads t ≡ deq_recycle c p v
      → Accessed n s xs t (deq_recycle c p v) (access m t (deq_recycle c p v))
  unfolding access event recycle_node
  deq_recycle-Advanced c p v here =
      let held : Held s.world inv.own t p = rw here at (inv.places t) in
      let lt : t < s.world.queue.num_threads = rw inv.size (inv.known t (rw here refl)) in
      let (l, listed) = inv.layout.shape.arrays t lt in
      rw (recycle_node-ok s.world t listed c held.ne_null held.holds) (
        yields (
          silent-Advanced inv t (deq_unlock (bump c) (some v)) here refl (λ log e. e) refl refl
            (record {
              front = inv.layout.front;
              last = inv.layout.last;
              shape =
                  give_back-Shape inv.layout.shape t held.mine held.content.value l held.ne_null
                    listed;
              all = inv.layout.all;
            })
            refl (λ _. refl)
            (Untouched-node p (λ u ne mine. absurd (ne (cc (mine, held.mine))))
              (λ b ne. assign_ne inv.own p b _ ne) (λ b ne. write_ne s.world.heap p b _ ne))
            tt))
