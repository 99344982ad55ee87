-- ===== src/LockFree/Pop.antt =====
-- The exchange on `Q->head` in `deq` (Ex5.c), where the call takes effect.
use amp_project.Base.{
  ℕ, ◌≡◌, ◌≢◌, refl, sym, ◌∙◌, ap, subst, true, not, ◌&&◌, ◌||◌, Bool-cases, inl, inr, some, List,
  [], ◌∷◌, ◌++◌, ◌==◌, arith, ==_refl,
}
use amp_project.Heap.{Ptr, null, Value, node, queued, held_by, assign, Owners}
use amp_project.Heap.Seg.{Cells, Seg, has, first, values, owner_of_mem, Seg-head}
use amp_project.Sequential.Memory.{World}
use amp_project.Sequential.Shape.{Pool, Shape, assign_self, assign_ne}
use amp_project.Sequential.Others.{Untouched, Untouched-node}
use amp_project.Sequential.Frames.{pop-Shape}
use amp_project.Threads.{replay, take_oldest, update, update_self}
use amp_project.Sequential.Contents.{Layout, settled}
use amp_project.LockFree.{Counts, fail, deq_head, deq_swing, deq_retire, State, Env, access, event}
use amp_project.LockFree.Memory.{cas_head}
use amp_project.LockFree.Places.{in_op}
use amp_project.LockFree.Counters.{AllKept}
use amp_project.LockFree.Nodes.{member, chain_of, head_is, head-mem, successor_of}
use amp_project.LockFree.Invariant.{Ghost, Old, Ahead, Departed, Linked, Inv, gone-ne-head}
use amp_project.LockFree.Stable.{Stable, Stable-pop}
use amp_project.LockFree.Change.{
  Advanced, Accessed, Change-Inv, Departed-keep, still_active, none_here,
}
use amp_project.LockFree.Enqueue.{stay-Advanced}

-- the world with `Q->head` changed
abbrev with_head : World → Ptr → World
with_head w x = record w { queue = record (w.queue) { head = x } }

-- The queue without its first node `f`, which goes to thread `t`.
record Popped (w : World) (own : Owners) (cells : Cells) (end : Ptr) (pool : Pool) (t : ℕ)
    (f x : Ptr) : Type 0 where
  behind : Cells
  dummy : Value
  split : cells ≡ (f, dummy) ∷ behind
  layout : Layout (with_head w x) (assign own f (held_by t)) behind end pool

pop-Layout :
    {w : World} {own : Owners} {cells : Cells} {end : Ptr} {pool : Pool} (t : ℕ) (f x : Ptr)
    (a : Value)
    → Layout w own cells end pool
    → f ≡ w.queue.head
    → w.heap f ≡ some (node a x)
    → x ≢ null
    → Popped w own cells end pool t f x
pop-Layout {w} {own} {cells} {end} {pool} t f x a layout at holds more =
    go layout.front layout.shape layout.all
  where
    go :
        (front : Cells)
        → Shape (settled w end) own front layout.last pool
        → front ++ (end, layout.last) ∷ [] ≡ cells
        → Popped w own cells end pool t f x
    go [] sh same = absurd (more (cc (ap w.heap (at ∙ sh.head), holds, sh.back.holds)))
    go ((p, v) ∷ r) sh same =
        let is_f : f ≡ p = at ∙ sh.head in
        let is_x : x ≡ first r end =
          (let pt = Seg-head sh.chain in cc (ap w.heap is_f, holds, pt.holds)) in
        rw (is_f, is_x)
          (record {
            behind = r ++ (end, layout.last) ∷ [];
            dummy = v;
            split = sym same;
            layout = record { front = r; last = layout.last; shape = pop-Shape sh t; all = refl };
          })

module _ {n : ℕ} {s : State} {xs : List Value} (inv : Inv n s xs) (all : AllKept s) (t : ℕ)
    (k : Counts) (f x : Ptr) (v : Value) (here : s.threads t ≡ deq_swing k f x v)
    (at : f ≡ s.world.queue.head) (ahead : s.world.queue.tail ≢ f)
    (link : Linked s.world inv.ghost t f x) where
  popped : Popped s.world inv.ghost.own inv.ghost.cells inv.end inv.pool t f x
  popped = pop-Layout t f x link.value inv.layout at link.holds link.more

  abbrev popped_ghost : Ghost
  popped_ghost = record {
    own = assign inv.ghost.own f (held_by t);
    cells = popped.behind;
    gone = λ u q. inv.ghost.gone u q || (q == f);
  }

  abbrev popped_state : State
  popped_state = record s {
    world = with_head s.world x;
    threads = update s.threads t (deq_retire k f v);
  }

  first_mem : has f inv.ghost.cells ≡ true
  first_mem = rw at (head-mem inv.layout)

  next_mem : (has x inv.ghost.cells ≡ true) × (x ≢ s.world.queue.head)
  next_mem = successor_of inv.layout f link.value x first_mem link.holds link.more

  queued_first : inv.ghost.own f ≡ queued
  queued_first = owner_of_mem f (chain_of inv.layout) first_mem

  first_ne_null : f ≢ null
  first_ne_null = (member f (chain_of inv.layout) first_mem).points.ne_null

  stable :
      (u : ℕ)
      → in_op (s.threads u) ≡ true
      → Stable s.world inv.ghost (with_head s.world x) popped_ghost u
  stable u active =
      Stable-pop s.world inv.ghost u t f x popped.behind (λ q. ap (has q) popped.split)
        (λ q gone e. gone-ne-head inv u active q gone (e ∙ at))
        (λ q gone e.
          let d = inv.departed u q active gone in
          let o : inv.ghost.own x ≡ queued = owner_of_mem x (chain_of inv.layout) next_mem.0 in
          cc (ap inv.ghost.own e, o, d.owner))
        at (λ e. next_mem.1 (e ∙ at))

  spares :
      Untouched t s.world (with_head s.world x) inv.ghost.own (assign inv.ghost.own f (held_by t))
  spares =
      Untouched-node f (λ u ne o. cc (o, queued_first)) (λ b ne. assign_ne inv.ghost.own f b _ ne)
        (λ b ne. refl)

  popped-Departed :
      (u : ℕ) (q : Ptr)
      → in_op (update s.threads t (deq_retire k f v) u) ≡ true
      → (inv.ghost.gone u q || (q == f)) ≡ true
      → Departed popped_state popped_ghost u q
  popped-Departed u q i gone = elim (Bool-cases (inv.ghost.gone u q)) [
    | inl before ↦
        let was = still_active inv all t here refl refl (deq_retire k f v) u i in
        Departed-keep inv t here (deq_retire k f v) refl (λ u ne. refl) u q refl (stable u was) was
          before (λ g. absurd g)
    | inr now ↦
        let same : q ≡ f = (let e : (q == f) ≡ true = rw now at gone in ground arith) in
        rw same (record {
          by = t;
          owner = assign_self inv.ghost.own f (held_by t);
          guard = rw (update_self s.threads t (deq_retire k f v)) refl;
          ne_null = first_ne_null;
          value = link.value;
          next = x;
          holds = link.holds;
          more = link.more;
          seen = (let i = head-mem popped.layout in ground arith);
        })
  ]

  popped-Advanced :
      (q : Ptr)
      → s.world.heap x ≡ some (node v q)
      → Advanced n s xs t (deq_swing k f x v) (deq_retire k f v) (with_head s.world x)
  unfolding event replay take_oldest
  popped-Advanced q loaded = go popped.behind refl
    where
      go :
          (r : Cells)
          → r ≡ popped.behind
          → Advanced n s xs t (deq_swing k f x v) (deq_retire k f v) (with_head s.world x)
      go [] e = absurd (link.more (head_is popped.layout ∙ ap (λ c. first c null) (sym e)))
      go ((y, b) ∷ r) e =
          let chain =
            subst (Seg s.world.heap popped_ghost.own queued null) (sym e)
              (chain_of popped.layout) in
          let pt = Seg-head chain in
          let is_x : x ≡ y = head_is popped.layout ∙ ap (λ c. first c null) (sym e) in
          let value : b ≡ v = cc (ap s.world.heap is_x, loaded, pt.holds) in
          let held : xs ≡ v ∷ values r =
            cc (ap values popped.split, ap values e, inv.contents, value) in
          (
            values r,
            (λ log was. rw (was, held, ==_refl) refl),
            Change-Inv inv t here (record {
              ghost = popped_ghost;
              end = inv.end;
              pool = inv.pool;
              sentinel = b;
              layout = popped.layout;
              contents = ap values (sym e);
              at_tail =
                  (let i : ((s.world.queue.tail == f) || has s.world.queue.tail popped.behind)
                        ≡ true =
                      ap (has s.world.queue.tail) (sym popped.split) ∙ inv.at_tail in
                    ground arith);
              active = refl;
              threads = refl;
              retired = λ u ne. refl;
              spares = spares;
              stable = λ u ne. stable u;
              place = record {
                ne_null = first_ne_null;
                mine = assign_self inv.ghost.own f (held_by t);
                content = node link.value x;
                holds = link.holds;
              };
              mine = λ p e. absurd (none_here inv all t here refl refl p e);
              departed = popped-Departed;
            }),
          )

module _ {n : ℕ} {s : State} {xs : List Value} (inv : Inv n s xs) (all : AllKept s) (t : ℕ)
    (e : Env) where
  pub deq_swing-Accessed :
      (k : Counts) (f x : Ptr) (v : Value)
      → s.threads t ≡ deq_swing k f x v
      → Accessed e.block n s xs t (deq_swing k f x v) (access e t (deq_swing k f x v))
  unfolding access cas_head event
  deq_swing-Accessed k f x v here =
      let (old, ahead, link, (q, loaded)) : Old s.world inv.ghost t f
          × Ahead s.world f
          × Linked s.world inv.ghost t f x
          × ((q : Ptr) × (s.world.heap x ≡ some (node v q))) =
        rw here at (inv.places t) in
      elim (Bool-cases (s.world.queue.head == f && not e.spurious)) [
        | inl swapped ↦
            let at_head : f ≡ s.world.queue.head = ground arith in
            rw swapped
              (popped-Advanced inv all t k f x v here at_head (ahead at_head) link q loaded)
        | inr left ↦ rw left (
            stay-Advanced inv all t here refl refl (λ u c rs p g. absurd g) (deq_head (fail k)) refl
              tt)
      ]
