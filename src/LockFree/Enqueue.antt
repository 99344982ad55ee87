-- ===== src/LockFree/Enqueue.antt =====
-- The other steps of `enq` (Ex5.c) on the memory, and the exchange on `Q->tail`.
use amp_project.Base.{
  ℕ, ◌≡◌, ◌≢◌, refl, Bool, true, false, not, ◌&&◌, Bool-cases, inl, inr, List, [], ◌==◌,
  if◌then◌else◌, arith,
}
use amp_project.Heap.{Ptr, null, Value, Alloc}
use amp_project.Sequential.Memory.{World, give, ◌>>=◌}
use amp_project.Sequential.Shape.{load-ok}
use amp_project.Sequential.Others.{Held-same}
use amp_project.LockFree.{
  Counts, fail, enqueued, Pc, enq_tail, enq_next, enq_check, enq_link, enq_swing, enq_help,
  end_count, State, Env, access, event,
}
use amp_project.LockFree.Memory.{cas_tail}
use amp_project.LockFree.Places.{in_op, clear}
use amp_project.LockFree.Counters.{AllKept}
use amp_project.LockFree.Nodes.{successor_of}
use amp_project.LockFree.Invariant.{Seen, cells-Seen, Seen-Visible, Guard, Linked, Mine, Place, Inv}
use amp_project.LockFree.Change.{Advanced, Runs, Accessed, stay-Inv, tail-Inv}

-- the world with `Q->tail` changed
abbrev pub with_tail : World → Ptr → World
with_tail w x = record w { queue = record (w.queue) { tail = x } }

module _ {n : ℕ} {s : State} {xs : List Value} (inv : Inv n s xs) (all : AllKept s) (t : ℕ)
    {pc : Pc} (here : s.threads t ≡ pc) (active : in_op pc ≡ true) (unretired : clear pc ≡ true)
    (holds_none : (u c : ℕ) (rs : List Ptr) (p : Ptr) → Guard u c pc rs p → ⊥) where
  -- A step that only reads.
  pub stay-Advanced :
      (pc' : Pc)
      → event t pc pc' ≡ []
      → Place s.world inv.ghost t pc'
      → Advanced n s xs t pc pc' s.world
  stay-Advanced pc' quiet place = (
    xs,
    (λ log e. rw quiet e),
    stay-Inv inv all t here active unretired pc' (λ u p g. absurd (holds_none _ _ _ _ g)) place,
  )

  -- The exchange on `Q->tail`.
  pub tail-Runs :
      (m : Alloc) (spurious : Bool) (l x : Ptr)
      → Linked s.world inv.ghost t l x
      → (pcs : Bool → Pc) → ((b : Bool) → event t pc (pcs b) ≡ [])
      → ((b : Bool) (y : Ptr) → Place (with_tail s.world y) inv.ghost t (pcs b))
      → Runs m (Advanced n s xs t pc) ((cas_tail spurious l x >>= λ b. give (pcs b)) s.world)
  unfolding cas_tail
  tail-Runs m spurious l x link pcs quiet place =
      elim (Bool-cases (s.world.queue.tail == l && not spurious)) [
        | inl swapped ↦
            let at : s.world.queue.tail ≡ l = ground arith in
            let (i, ne) =
              successor_of inv.layout s.world.queue.tail link.value x inv.at_tail (rw at link.holds)
                link.more in
            rw swapped (
              xs,
              (λ log e. rw (quiet true) e),
              tail-Inv inv all t here active unretired (pcs true) x i ne
                  (λ u p g. absurd (holds_none _ _ _ _ g)) (place true x),
            )
        | inr left ↦
            rw left (stay-Advanced (pcs false) (quiet false) (place false s.world.queue.tail))
      ]

module _ {n : ℕ} {s : State} {xs : List Value} (inv : Inv n s xs) (all : AllKept s) (t : ℕ)
    (e : Env) where
  pub enq_tail-Accessed :
      (k : Counts) (v : Value) (p : Ptr)
      → s.threads t ≡ enq_tail k v p
      → Accessed e.block n s xs t (enq_tail k v p) (access e t (enq_tail k v p))
  unfolding access event
  enq_tail-Accessed k v p here =
      let mine : Mine s.world inv.ghost t p v = rw here at (inv.places t) in
      stay-Advanced inv all t here refl refl (λ u c rs p g. absurd g)
        (enq_next k v p s.world.queue.tail) refl
        (mine, cells-Seen inv t s.world.queue.tail inv.at_tail)

  pub enq_next-Accessed :
      (k : Counts) (v : Value) (p l : Ptr)
      → s.threads t ≡ enq_next k v p l
      → Accessed e.block n s xs t (enq_next k v p l) (access e t (enq_next k v p l))
  unfolding access event
  enq_next-Accessed k v p l here =
      let (mine, seen) : Mine s.world inv.ghost t p v × Seen inv.ghost t l =
        rw here at (inv.places t) in
      let vis = Seen-Visible inv t (rw here refl) l seen in
      rw (load-ok s.world vis.ne_null vis.holds) (
        stay-Advanced inv all t here refl refl (λ u c rs p g. absurd g) (enq_check k v p l vis.next)
          refl
          (
            mine,
            seen,
            (λ ne. record {
              seen = seen;
              value = vis.value;
              holds = vis.holds;
              more = ne;
              onward = vis.onward ne;
            }),
          ))

  pub enq_check-Accessed :
      (k : Counts) (v : Value) (p l x : Ptr)
      → s.threads t ≡ enq_check k v p l x
      → Accessed e.block n s xs t (enq_check k v p l x) (access e t (enq_check k v p l x))
  unfolding access event
  enq_check-Accessed k v p l x here =
      let (mine, seen, link) : Mine s.world inv.ghost t p v
          × Seen inv.ghost t l
          × (x ≢ null → Linked s.world inv.ghost t l x) =
        rw here at (inv.places t) in
      elim (Bool-cases (l == s.world.queue.tail)) [
        | inl same ↦ rw same (elim (Bool-cases (x == null)) [
          | inl nul ↦ rw nul (
              stay-Advanced inv all t here refl refl (λ u c rs p g. absurd g) (enq_link k v p l)
                refl (mine, seen))
          | inr more ↦ rw more (
              stay-Advanced inv all t here refl refl (λ u c rs p g. absurd g) (enq_help k v p l x)
                refl (mine, link (ground arith)))
        ])
        | inr moved ↦ rw moved (
            stay-Advanced inv all t here refl refl (λ u c rs p g. absurd g) (enq_tail k v p) refl
              mine)
      ]

  pub enq_swing-Accessed :
      (k : Counts) (p l : Ptr)
      → s.threads t ≡ enq_swing k p l
      → Accessed e.block n s xs t (enq_swing k p l) (access e t (enq_swing k p l))
  unfolding access event
  enq_swing-Accessed k p l here =
      let link : Linked s.world inv.ghost t l p = rw here at (inv.places t) in
      tail-Runs inv all t here refl refl (λ u c rs p g. absurd g) e.block e.spurious l p link
        (λ b. end_count (if b then k else fail k) (enqueued true)) (λ b. refl) (λ b y. tt)

  pub enq_help-Accessed :
      (k : Counts) (v : Value) (p l x : Ptr)
      → s.threads t ≡ enq_help k v p l x
      → Accessed e.block n s xs t (enq_help k v p l x) (access e t (enq_help k v p l x))
  unfolding access event
  enq_help-Accessed k v p l x here =
      let (mine, link) : Mine s.world inv.ghost t p v × Linked s.world inv.ghost t l x =
        rw here at (inv.places t) in
      tail-Runs inv all t here refl refl (λ u c rs p g. absurd g) e.block e.spurious l x link
        (λ b. enq_tail (if b then k else fail k) v p) (λ b. refl)
        (λ b y. record { held = Held-same mine.held refl refl; filled = mine.filled })
