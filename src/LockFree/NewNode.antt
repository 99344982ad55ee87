-- ===== src/LockFree/NewNode.antt =====
-- `enq` (Ex5.c) gets its node, and fills it.
use amp_project.Base.{
  ℕ, ◌+◌, ◌%◌, ◌^◌, ◌<◌, ◌≡◌, ◌≢◌, refl, ◌∙◌, ap, true, false, Bool-cases, inl, inr, none, some,
  List, [], ◌∷◌, ◌==◌, arith, length, dec32,
}
use amp_project.Heap.{Ptr, null, Value, Node, node, Alloc, free_of, held_by, Owners, assign}
use amp_project.Heap.Seg.{Cells, first, Points, Seg, Seg-head, Seg-apart, Seg-tail}
use amp_project.Sequential.Memory.{
  FreeList, free_list, World, give, ◌>>=◌, put, set_value, set_next, list_at,
}
use amp_project.Sequential.Shape.{
  Pool, set_value-ok, set_next-ok, write_self, write_ne, assign_self, assign_ne, load-ok,
  load_free_list-ok, store_free_list-ok,
}
use amp_project.Sequential.Frames.{with_list, alloc-Shape, take-Shape, write-Shape}
use amp_project.Sequential.Pools.{IsFresh}
use amp_project.Sequential.Init.{made, make_node-ok, make_node-null}
use amp_project.Sequential.Contents.{Layout}
use amp_project.LockFree.{Counts, enq_alloc, enq_tail, State, Env, access, event}
use amp_project.LockFree.Memory.{upcycle_node, make_node}
use amp_project.LockFree.Places.{in_op}
use amp_project.LockFree.Counters.{AllKept}
use amp_project.LockFree.Invariant.{Seen, Seen-ne, Seen-Visible, Inv}
use amp_project.LockFree.Change.{Advanced, Runs, Accessed, private-Inv}

module _ {n : ℕ} {s : State} {xs : List Value} (inv : Inv n s xs) (all : AllKept s) (t : ℕ)
    (k : Counts) (v : Value) (here : s.threads t ≡ enq_alloc k v) where
  -- The node `p` is in hand, with any contents: the two stores to it.
  fill-Advanced :
      (m : Alloc) (p : Ptr) (c : Node) {w : World} {own : Owners} {pool : Pool}
      → Layout w own inv.ghost.cells inv.end pool
      → w.queue.head ≡ s.world.queue.head
      → w.queue.tail ≡ s.world.queue.tail
      → ((b : Ptr) → b ≢ p → own b ≡ inv.ghost.own b)
      → ((b : Ptr) → b ≢ p → w.heap b ≡ s.world.heap b)
      → p ≢ null
      → own p ≡ held_by t
      → w.heap p ≡ some c
      → ((u : ℕ) (q : Ptr) → in_op (s.threads u) ≡ true → Seen inv.ghost u q → q ≢ p)
      → ((u : ℕ) → u ≢ t → inv.ghost.own p ≡ held_by u → s.world.heap p ≡ none)
      → Runs m
          (Advanced n s xs t (enq_alloc k v))
          ((set_value p v >>= λ _. set_next p null >>= λ _. give (enq_tail k v p)) w)
  unfolding event
  fill-Advanced m p c {w} {own} layout head tail owners cells ne mine holds unseen out =
      let once = put p (some (node v c.next)) w in
      let twice = put p (some (node v null)) once in
      rw (set_value-ok w ne holds v) (
        rw (set_next-ok once ne (write_self w.heap p _) null) (
          xs,
          (λ log e. e),
          private-Inv inv all t here refl refl (enq_tail k v p) p {w' = twice}
              (record {
                front = layout.front;
                last = layout.last;
                shape = write-Shape (write-Shape layout.shape t mine _) t mine _;
                all = layout.all;
              })
              head tail owners
              (λ b ne. write_ne once.heap p b _ ne ∙ write_ne w.heap p b _ ne ∙ cells b ne) unseen
              out (λ u p g. absurd g)
              (record {
                held = record {
                  ne_null = ne;
                  mine = mine;
                  content = node v null;
                  holds = write_self once.heap p _;
                };
                filled = write_self once.heap p _;
              }),
        ))

  -- With the free list empty: `make_node`.
  made-Advanced :
      (m : Alloc)
      → m.addr ≢ null
      → s.world.heap m.addr ≡ none
      → Runs m (Advanced n s xs t (enq_alloc k v)) (
          (set_value m.addr v >>= λ _. set_next m.addr null >>= λ _. give (enq_tail k v m.addr))
            (made m 0 s.world))
  made-Advanced m ne fresh =
      let own = assign inv.ghost.own m.addr (held_by t) in
      let mine : own m.addr ≡ held_by t = assign_self inv.ghost.own m.addr (held_by t) in
      let got = alloc-Shape inv.layout.shape t m fresh in
      fill-Advanced m m.addr (node 0 null) {w = made m 0 s.world}
        (record {
          front = inv.layout.front;
          last = inv.layout.last;
          shape = write-Shape (write-Shape got t mine _) t mine _;
          all = inv.layout.all;
        })
        refl refl (λ b ne. assign_ne inv.ghost.own m.addr b _ ne)
        (λ b ne. write_ne _ m.addr b _ ne ∙ write_ne _ m.addr b _ ne ∙ write_ne _ m.addr b _ ne) ne
        mine (write_self _ m.addr _)
        (λ u q i j e.
          let seen = Seen-Visible inv u i q j in cc (ap s.world.heap e, seen.holds, fresh))
        (λ u ne o. fresh)

  -- The first node of the thread's free list.
  taken-Advanced :
      (m : Alloc) {p : Ptr} {a : Value} {r : Cells} (l : FreeList)
      → Points s.world.heap inv.ghost.own (free_of t) p a (first r null)
      → Seg s.world.heap inv.ghost.own (free_of t) null ((p, a) ∷ r)
      → l.size ≡ (length r + 1) % 2 ^ 32
      → Runs m (Advanced n s xs t (enq_alloc k v)) (
          (set_value p v >>= λ _. set_next p null >>= λ _. give (enq_tail k v p))
            (with_list s.world t (free_list (first r null) (dec32 l.size))))
  taken-Advanced m {p} {a} {r} l pt chain size =
      fill-Advanced m p (node a (first r null))
        (record {
          front = inv.layout.front;
          last = inv.layout.last;
          shape = take-Shape inv.layout.shape t p a r l pt (Seg-apart chain) (Seg-tail chain) size;
          all = inv.layout.all;
        })
        refl refl (λ b ne. assign_ne inv.ghost.own p b _ ne) (λ b ne. refl) pt.ne_null
        (assign_self inv.ghost.own p (held_by t)) pt.holds
        (λ u q i j. Seen-ne inv u i q j p (λ e. cc (e, pt.owner)) (λ b e g. cc (e, pt.owner)))
        (λ u ne o. cc (o, pt.owner))

  pub enq_alloc-Accessed :
      (e : Env)
      → IsFresh e.block s.world
      → t < s.world.queue.num_threads
      → Accessed e.block n s xs t (enq_alloc k v) (access e t (enq_alloc k v))
  unfolding access upcycle_node make_node
  enq_alloc-Accessed e fresh lt =
      let (l, listed) = inv.layout.shape.arrays t lt in
      let f = inv.layout.shape.lists t l listed in go l listed (inv.pool t) f.chain f.head f.size
    where
      go :
          (l : FreeList)
          → list_at s.world.queue.free_lists t ≡ some l
          → (mine : Cells) → Seg s.world.heap inv.ghost.own (free_of t) null mine
          → l.head ≡ first mine null
          → l.size ≡ length mine % 2 ^ 32
          → Accessed e.block n s xs t (enq_alloc k v) (access e t (enq_alloc k v))
      go l listed [] chain head size =
          rw (load_free_list-ok s.world t listed, head)
            (elim (Bool-cases (e.block.addr == null)) [
              | inl nul ↦
                  let is_null : e.block.addr ≡ null = ground arith in
                  rw (make_node-null e.block 0 s.world is_null) is_null
              | inr some_p ↦
                  let ne : e.block.addr ≢ null = ground arith in
                  rw (make_node-ok e.block 0 s.world ne) (made-Advanced e.block ne (fresh ne))
            ])
      go l listed ((p, a) ∷ r) chain head size =
          let pt = Seg-head chain in
          let some_p : (p == null) ≡ false = ground (arith, pt.ne_null) in
          rw (load_free_list-ok s.world t listed, head, some_p)
            (rw (load-ok s.world pt.ne_null pt.holds) (
              rw (store_free_list-ok s.world t listed (free_list (first r null) (dec32 l.size)))
                (taken-Advanced e.block l pt chain (size ∙ omega arith))))
