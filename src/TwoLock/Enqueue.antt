-- ===== src/TwoLock/Enqueue.antt =====
-- The steps of `enq` (Ex4.c) on the memory.
use amp_project.Base.{
  ℕ, ◌+◌, ◌%◌, ◌^◌, ◌<◌, ◌≡◌, ◌≢◌, refl, ◌∙◌, ap, true, false, Bool-cases, none, some, List, [],
  ◌∷◌, ◌++◌, ◌==◌, inl, inr, arith, length, dec32,
}
use amp_project.Heap.{Ptr, null, Value, node, Alloc, free_of, held_by, queued, Owners, assign}
use amp_project.Heap.Seg.{Cells, first, Points, Seg, Seg-head, Seg-apart, Seg-tail, values-concat}
use amp_project.Sequential.Memory.{FreeList, free_list, World, put, list_at}
use amp_project.Sequential.Shape.{
  Pool, yields, set_value-ok, set_next-ok, write_self, write_ne, assign_self, assign_ne,
}
use amp_project.Sequential.Others.{Held, Untouched, Untouched-refl, Untouched-node}
use amp_project.Sequential.Frames.{with_list, alloc-Shape, take-Shape, write-Shape, link-Shape}
use amp_project.Sequential.Pools.{
  IsFresh, upcycle_node-take, upcycle_node-empty, malloc-null, malloc-ok,
}
use amp_project.Threads.{replay}
use amp_project.TwoLock.{
  enq_alloc, enq_fill, enq_link, enq_move, enq_unlock, State, access, event, upcycle_node,
}
use amp_project.Sequential.Contents.{Layout}
use amp_project.TwoLock.Invariant.{Inv}
use amp_project.TwoLock.Change.{Change-Inv, Advanced, Accessed, silent-Advanced, stay-Advanced}

module _ {n : ℕ} {s : State} {xs : List Value} (inv : Inv n s xs) (t : ℕ) where
  module _ (v : Value) (here : s.threads t ≡ enq_alloc v) where
    tail_at_end : s.world.queue.tail ≡ inv.end
    tail_at_end = rw here at (inv.places t)

    refused-Advanced : Advanced n s xs t (enq_alloc v) (enq_unlock false) s.world
    unfolding event
    refused-Advanced =
        stay-Advanced inv t (enq_unlock false) here refl (λ log e. e) refl refl tail_at_end

    got-Advanced :
        {w' : World} {own' : Owners} {pool' : Pool} (p : Ptr)
        → Layout w' own' inv.cells inv.end pool'
        → w'.queue.num_threads ≡ s.world.queue.num_threads
        → w'.queue.tail ≡ s.world.queue.tail
        → Untouched t s.world w' inv.own own'
        → Held w' own' t p
        → Advanced n s xs t (enq_alloc v) (enq_fill v p) w'
    unfolding event
    got-Advanced p layout size tail spares held =
        silent-Advanced inv t (enq_fill v p) here refl (λ log e. e) refl refl layout size
          (λ _. tail) spares (tail ∙ tail_at_end, held)

    -- A block from `malloc`.
    malloc-Advanced :
        (m : Alloc)
        → m.addr ≢ null
        → s.world.heap m.addr ≡ none
        → Advanced n s xs t (enq_alloc v) (enq_fill v m.addr) (put m.addr (some m.contents) s.world)
    malloc-Advanced m ne fresh =
        got-Advanced m.addr
          (record {
            front = inv.layout.front;
            last = inv.layout.last;
            shape = alloc-Shape inv.layout.shape t m fresh;
            all = inv.layout.all;
          })
          refl refl
          (Untouched-node m.addr (λ u ne mine. fresh) (λ b ne. assign_ne inv.own m.addr b _ ne)
            (λ b ne. write_ne s.world.heap m.addr b _ ne))
          (record {
            ne_null = ne;
            mine = assign_self inv.own m.addr (held_by t);
            content = m.contents;
            holds = write_self s.world.heap m.addr _;
          })

    -- The first node of the thread's free list.
    take-Advanced :
        {p : Ptr} {u : Value} {r : Cells} (l : FreeList)
        → Points s.world.heap inv.own (free_of t) p u (first r null)
        → Seg s.world.heap inv.own (free_of t) null ((p, u) ∷ r)
        → l.size ≡ (length r + 1) % 2 ^ 32
        → Advanced n s xs t
            (enq_alloc v)
            (enq_fill v p)
            (with_list s.world t (free_list (first r null) (dec32 l.size)))
    take-Advanced {p} {u} {r} l pt chain size =
        got-Advanced p
          (record {
            front = inv.layout.front;
            last = inv.layout.last;
            shape =
                take-Shape inv.layout.shape t p u r l pt (Seg-apart chain) (Seg-tail chain) size;
            all = inv.layout.all;
          })
          refl refl
          (Untouched-node p (λ o ne mine. absurd (cc (mine, pt.owner)))
            (λ b ne. assign_ne inv.own p b _ ne) (λ b ne. refl))
          (record {
            ne_null = pt.ne_null;
            mine = assign_self inv.own p (held_by t);
            content = node u (first r null);
            holds = pt.holds;
          })

    pub enq_alloc-Advanced :
        (m : Alloc) → IsFresh m s.world → Accessed n s xs t (enq_alloc v) (access m t (enq_alloc v))
    unfolding access upcycle_node
    enq_alloc-Advanced m fresh =
        let lt : t < s.world.queue.num_threads = rw inv.size (inv.known t (rw here refl)) in
        let (l, listed) = inv.layout.shape.arrays t lt in
        let f = inv.layout.shape.lists t l listed in go l listed (inv.pool t) f.chain f.head f.size
      where
        go :
            (l : FreeList)
            → list_at s.world.queue.free_lists t ≡ some l
            → (mine : Cells) → Seg s.world.heap inv.own (free_of t) null mine
            → l.head ≡ first mine null
            → l.size ≡ length mine % 2 ^ 32
            → Accessed n s xs t (enq_alloc v) (access m t (enq_alloc v))
        go l listed [] chain head size =
            rw (upcycle_node-empty s.world t listed m head) (elim (Bool-cases (m.addr == null)) [
              | inl nul ↦ rw (malloc-null s.world m (ground arith)) (yields refused-Advanced)
              | inr some_p ↦
                  let ne : m.addr ≢ null = ground arith in
                  rw (malloc-ok s.world m ne, some_p) (yields (malloc-Advanced m ne (fresh ne)))
            ])
        go l listed ((p, u) ∷ r) chain head size =
            let pt = Seg-head chain in
            let some_p : (p == null) ≡ false = ground (arith, pt.ne_null) in
            let loaded : s.world.heap l.head ≡ some (node u (first r null)) = rw head pt.holds in
            rw (upcycle_node-take s.world t listed m (rw head pt.ne_null) loaded, head, some_p)
              (yields (take-Advanced l pt chain (size ∙ omega arith)))

  -- Both stores to the node.
  pub enq_fill-Advanced :
      (v : Value) (p : Ptr) (m : Alloc)
      → s.threads t ≡ enq_fill v p
      → Accessed n s xs t (enq_fill v p) (access m t (enq_fill v p))
  unfolding access event
  enq_fill-Advanced v p m here =
      let (tail, held) : (s.world.queue.tail ≡ inv.end) × Held s.world inv.own t p =
        rw here at (inv.places t) in
      let once = put p (some (node v held.content.next)) s.world in
      let twice = put p (some (node v null)) once in
      rw (set_value-ok s.world held.ne_null held.holds v) (
        rw (set_next-ok once held.ne_null (write_self s.world.heap p _) null) (
          yields (
            silent-Advanced inv t (enq_link v p) here refl (λ log e. e) refl refl
              (record {
                front = inv.layout.front;
                last = inv.layout.last;
                shape = write-Shape (write-Shape inv.layout.shape t held.mine _) t held.mine _;
                all = inv.layout.all;
              })
              refl (λ _. refl)
              (Untouched-node p (λ u ne mine. absurd (ne (cc (mine, held.mine)))) (λ b ne. refl)
                (λ b ne. write_ne once.heap p b _ ne ∙ write_ne s.world.heap p b _ ne))
              (
                tail,
                record {
                  ne_null = held.ne_null;
                  mine = held.mine;
                  content = node v null;
                  holds = write_self once.heap p _;
                },
                write_self once.heap p _,
              ))))

  -- The queue with the node linked.
  linked-Advanced :
      (v : Value) (p : Ptr)
      → s.threads t ≡ enq_link v p
      → s.world.queue.tail ≡ inv.end
      → Held s.world inv.own t p
      → s.world.heap p ≡ some (node v null)
      → Advanced n s xs t
          (enq_link v p)
          (enq_move p)
          (put s.world.queue.tail (some (node inv.layout.last p)) s.world)
  unfolding event replay
  linked-Advanced v p here tail held filled = (
    xs ++ v ∷ [],
    λ log e. rw e refl,
    Change-Inv {inv = inv} here (record {
      own = assign inv.own p queued;
      cells = inv.cells ++ (p, v) ∷ [];
      end = p;
      pool = inv.pool;
      sentinel = inv.sentinel;
      layout = record {
        front = inv.layout.front ++ (inv.end, inv.layout.last) ∷ [];
        last = v;
        shape = rw tail (link-Shape inv.layout.shape t held.mine v held.ne_null filled);
        all = ap (λ c. c ++ (p, v) ∷ []) inv.layout.all;
      };
      contents = values-concat inv.cells p v ∙ ap (λ c. c ++ v ∷ []) inv.contents;
      size = refl;
      place = refl;
      active = refl;
      same_enq = refl;
      same_deq = refl;
      others_own = spares.owner;
      others_heap = spares.cell;
      tail = λ e. cc;
      last = λ e. cc;
      grown = λ e. ((p, v) ∷ [], refl);
    }),
  )
    where
      spares :
          Untouched t s.world
            (put s.world.queue.tail (some (node inv.layout.last p)) s.world)
            inv.own
            (assign inv.own p queued)
      spares = record {
        owner = λ u ne a h.
            assign_ne inv.own p a queued (λ e. ne (cc (ap inv.own e, h.mine, held.mine))) ∙ h.mine;
        cell = λ u ne a h.
            write_ne s.world.heap s.world.queue.tail a _
              (λ e. cc (ap inv.own (e ∙ tail), h.mine, inv.layout.shape.back.owner));
      }

  -- `Q->tail->next = new_node`: here the call takes effect.
  pub enq_link-Advanced :
      (v : Value) (p : Ptr) (m : Alloc)
      → s.threads t ≡ enq_link v p
      → Accessed n s xs t (enq_link v p) (access m t (enq_link v p))
  unfolding access event
  enq_link-Advanced v p m here =
      let (tail, held, filled) : (s.world.queue.tail ≡ inv.end)
          × Held s.world inv.own t p
          × (s.world.heap p ≡ some (node v null)) =
        rw here at (inv.places t) in
      let back = inv.layout.shape.back in
      let loaded : s.world.heap s.world.queue.tail ≡ some (node inv.layout.last null) =
        rw tail back.holds in
      rw (set_next-ok s.world (rw tail back.ne_null) loaded p)
        (yields (linked-Advanced v p here tail held filled))

  -- `Q->tail = new_node`
  pub enq_move-Advanced :
      (p : Ptr) (m : Alloc)
      → s.threads t ≡ enq_move p
      → Accessed n s xs t (enq_move p) (access m t (enq_move p))
  unfolding access event
  enq_move-Advanced p m here =
      let moved_to : p ≡ inv.end = rw here at (inv.places t) in
      yields (
        silent-Advanced inv t (enq_unlock true) here refl (λ log e. e) refl refl
          (record {
            front = inv.layout.front;
            last = inv.layout.last;
            shape = inv.layout.shape;
            all = inv.layout.all;
          })
          refl (λ e. cc e) (Untouched-refl (λ a. refl)) moved_to)
