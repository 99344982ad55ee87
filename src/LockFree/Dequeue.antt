-- ===== src/LockFree/Dequeue.antt =====
-- The steps of `deq` (Ex5.c) on the memory that only read, and its exchange on `Q->tail`.
use amp_project.Base.{
  ℕ, ◌≡◌, ◌≢◌, refl, sym, ◌∙◌, ap, subst, true, Bool-cases, inl, inr, none, some, List, [], ◌∷◌,
  ◌==◌, if◌then◌else◌, arith,
}
use amp_project.Heap.{Ptr, null, Value, node}
use amp_project.Heap.Seg.{has, values}
use amp_project.Sequential.Shape.{load-ok}
use amp_project.Threads.{Follows, replay}
use amp_project.LockFree.{
  Counts, fail, dequeued, Pc, deq_head, deq_tail, deq_next, deq_check, deq_help, deq_load,
  deq_swing, end_count, State, Env, access, event,
}
use amp_project.LockFree.Places.{in_op}
use amp_project.LockFree.Counters.{AllKept}
use amp_project.LockFree.Nodes.{last_is, head-mem, alone_is}
use amp_project.LockFree.Invariant.{Old, Old-Seen, Ahead, Seen-Visible, Linked, Place, Inv}
use amp_project.LockFree.Change.{Advanced, Accessed, stay-Inv}
use amp_project.LockFree.Enqueue.{stay-Advanced, tail-Runs}

module _ {n : ℕ} {s : State} {xs : List Value} (inv : Inv n s xs) (all : AllKept s) (t : ℕ)
    (e : Env) where
  pub deq_head-Accessed :
      (k : Counts)
      → s.threads t ≡ deq_head k
      → Accessed e.block n s xs t (deq_head k) (access e t (deq_head k))
  unfolding access event
  deq_head-Accessed k here =
      stay-Advanced inv all t here refl refl (λ u c rs p g. absurd g)
        (deq_tail k s.world.queue.head) refl (inr refl)

  pub deq_tail-Accessed :
      (k : Counts) (f : Ptr)
      → s.threads t ≡ deq_tail k f
      → Accessed e.block n s xs t (deq_tail k f) (access e t (deq_tail k f))
  unfolding access event
  deq_tail-Accessed k f here =
      let old : Old s.world inv.ghost t f = rw here at (inv.places t) in
      stay-Advanced inv all t here refl refl (λ u c rs p g. absurd g)
        (deq_next k f s.world.queue.tail) refl (old, (λ ne at same. ne (sym same)))

  -- A node that was at the head and has no successor is the whole queue.
  alone :
      (f : Ptr)
      → in_op (s.threads t) ≡ true
      → Old s.world inv.ghost t f
      → (v : Value) → s.world.heap f ≡ some (node v null)
      → (f ≡ s.world.queue.head) × (f ≡ inv.end)
  alone f active (inl gone) v holds =
      let d = inv.departed t f active gone in absurd (d.more (cc (d.holds, holds)))
  alone f active (inr at) v holds = (at, last_is inv.layout f v (rw at (head-mem inv.layout)) holds)

  deq_next-Place :
      (k : Counts) (f l : Ptr)
      → s.threads t ≡ deq_next k f l
      → (Old s.world inv.ghost t f × (f ≢ l → Ahead s.world f))
      → (a : Value) (x : Ptr) → s.world.heap f ≡ some (node a x)
      → (x ≢ null → Linked s.world inv.ghost t f x)
      → Place s.world inv.ghost t (deq_check k f l x)
  deq_next-Place k f l here (old, ahead) a x holds link = (
    old,
    ahead,
    link,
    (λ ne nul.
        let (at, last) = alone f (rw here refl) old a (rw (← nul) holds) in
        let only = alone_is inv.layout (sym at ∙ last) in
        let i : has s.world.queue.tail ((inv.end, inv.layout.last) ∷ []) ≡ true =
          ap (has s.world.queue.tail) (sym only) ∙ inv.at_tail in
        let tail : s.world.queue.tail ≡ f = ground arith in ahead ne at tail),
  )

  -- What the read of `first->next` reports: with NULL, that the queue is empty.
  deq_next-Follows :
      (k : Counts) (f l : Ptr)
      → s.threads t ≡ deq_next k f l
      → Old s.world inv.ghost t f
      → (a : Value) (x : Ptr) → s.world.heap f ≡ some (node a x)
      → Follows (event t (deq_next k f l) (deq_check k f l x)) xs xs
  unfolding event replay
  deq_next-Follows k f l here old a x holds = elim (Bool-cases (x == null)) [
    | inl nul ↦
        let is_null : x ≡ null = ground arith in
        let (at, last) = alone f (rw here refl) old a (rw (← is_null) holds) in
        let only = alone_is inv.layout (sym at ∙ last) in
        let empty : xs ≡ [] = cc (ap values only, inv.contents) in
        (λ log e. rw (nul, e, empty) refl)
    | inr more ↦ (λ log e. rw more e)
  ]

  pub deq_next-Accessed :
      (k : Counts) (f l : Ptr)
      → s.threads t ≡ deq_next k f l
      → Accessed e.block n s xs t (deq_next k f l) (access e t (deq_next k f l))
  unfolding access
  deq_next-Accessed k f l here =
      let (old, ahead) : Old s.world inv.ghost t f × (f ≢ l → Ahead s.world f) =
        rw here at (inv.places t) in
      let seen = Old-Seen inv t f old in
      let vis = Seen-Visible inv t (rw here refl) f seen in
      let link : vis.next ≢ null → Linked s.world inv.ghost t f vis.next = (λ ne. record {
        seen = seen;
        value = vis.value;
        holds = vis.holds;
        more = ne;
        onward = vis.onward ne;
      }) in
      rw (load-ok s.world vis.ne_null vis.holds) (
        xs,
        deq_next-Follows k f l here old vis.value vis.next vis.holds,
        stay-Inv inv all t here refl refl (deq_check k f l vis.next) (λ u p g. absurd g)
            (deq_next-Place k f l here (old, ahead) vis.value vis.next vis.holds link),
      )

  pub deq_check-Accessed :
      (k : Counts) (f l x : Ptr)
      → s.threads t ≡ deq_check k f l x
      → Accessed e.block n s xs t (deq_check k f l x) (access e t (deq_check k f l x))
  unfolding access event
  deq_check-Accessed k f l x here =
      let (old, ahead, link, more) : Old s.world inv.ghost t f
          × (f ≢ l → Ahead s.world f)
          × (x ≢ null → Linked s.world inv.ghost t f x)
          × (f ≢ l → x ≢ null) =
        rw here at (inv.places t) in
      elim (Bool-cases (f == s.world.queue.head)) [
        | inr left ↦ rw left (go (deq_head k) refl tt)
        | inl same ↦ elim (Bool-cases (f == l)) [
          | inr apart ↦
              let ne : f ≢ l = ground arith in
              rw (same, apart) (go (deq_load k f x) refl (old, ahead ne, link (more ne)))
          | inl lone ↦ elim (Bool-cases (x == null)) [
            | inl nul ↦ rw (same, lone, nul) (go (end_count k (dequeued none)) refl tt)
            | inr some_x ↦
                let at : f ≡ l = ground arith in
                rw (same, lone, some_x)
                  (go (deq_help k l x) refl
                    (subst (λ z. Linked s.world inv.ghost t z x) at (link (ground arith))))
          ]
        ]
      ]
    where
      go :
          (pc' : Pc)
          → event t (deq_check k f l x) pc' ≡ []
          → Place s.world inv.ghost t pc'
          → Advanced n s xs t (deq_check k f l x) pc' s.world
      go = stay-Advanced inv all t here refl refl (λ u c rs p g. absurd g)

  pub deq_help-Accessed :
      (k : Counts) (l x : Ptr)
      → s.threads t ≡ deq_help k l x
      → Accessed e.block n s xs t (deq_help k l x) (access e t (deq_help k l x))
  unfolding access event
  deq_help-Accessed k l x here =
      let link : Linked s.world inv.ghost t l x = rw here at (inv.places t) in
      tail-Runs inv all t here refl refl (λ u c rs p g. absurd g) e.block e.spurious l x link
        (λ b. deq_head (if b then k else fail k)) (λ b. refl) (λ b y. tt)

  pub deq_load-Accessed :
      (k : Counts) (f x : Ptr)
      → s.threads t ≡ deq_load k f x
      → Accessed e.block n s xs t (deq_load k f x) (access e t (deq_load k f x))
  unfolding access event
  deq_load-Accessed k f x here =
      let (old, ahead, link) : Old s.world inv.ghost t f
          × Ahead s.world f
          × Linked s.world inv.ghost t f x =
        rw here at (inv.places t) in
      let vis = Seen-Visible inv t (rw here refl) x link.onward in
      rw (load-ok s.world vis.ne_null vis.holds) (
        stay-Advanced inv all t here refl refl (λ u c rs p g. absurd g) (deq_swing k f x vis.value)
          refl (old, ahead, link, (vis.next, vis.holds)))
