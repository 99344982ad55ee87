-- ===== src/LockFree/Reclaim.antt =====
-- mm_reclaim_all (Ex5.c): a node goes to the thread's free list when no other thread may see it.
use amp_project.Base.{
  ℕ, ◌<◌, ◌≡◌, ◌≢◌, refl, ap, subst, true, some, List, [], ◌∷◌, arith, length, bump, inc32,
  ℕ_discrete,
}
use amp_project.Heap.{Ptr, Value, node, free_of, assign}
use amp_project.Sequential.Memory.{World, FreeList, free_list, put, list_at}
use amp_project.Sequential.Shape.{repool, write_ne, assign_ne}
use amp_project.Sequential.Others.{Held, Untouched-node}
use amp_project.Sequential.Frames.{with_list, give_back-Shape}
use amp_project.Sequential.Pools.{recycle_node-ok}
use amp_project.Threads.{update, update_self, update_ne}
use amp_project.LockFree.{Counts, Result, end_reclaim, done, State, Env, manage, event}
use amp_project.LockFree.Memory.{reclaim, recycle_node}
use amp_project.LockFree.Indices.{at_entry-lt}
use amp_project.LockFree.Places.{in_op}
use amp_project.LockFree.Counters.{AllKept}
use amp_project.LockFree.Invariant.{Ghost, Seen, Seen-ne, Guard, Inv}
use amp_project.LockFree.Stable.{Stable, Stable-same}
use amp_project.LockFree.Change.{Change-Inv, Departed-keep}
use amp_project.LockFree.Managing.{Stepped}

one_of_length : (rs : List Ptr) → length rs ≡ 1 → (p : Ptr) × (rs ≡ p ∷ [])
one_of_length [] e = absurd (omega arith)
one_of_length (p ∷ []) e = (p, refl)
one_of_length (p ∷ q ∷ rs) e = absurd (omega arith)

module _ {n : ℕ} {s : State} {xs : List Value} (inv : Inv n s xs) (t : ℕ) (k : Counts) (r : Result)
    (here : s.threads t ≡ end_reclaim k r) (p : Ptr) (held : Held s.world inv.ghost.own t p)
    (l : FreeList) (listed : list_at s.world.queue.free_lists t ≡ some l) where
  abbrev reclaimed_world : World
  reclaimed_world =
      with_list (put p (some (node held.content.value l.head)) s.world) t
        (free_list p (inc32 l.size))

  abbrev reclaimed_ghost : Ghost
  reclaimed_ghost = record (inv.ghost) { own = assign inv.ghost.own p (free_of t) }

  abbrev reclaimed_state : State
  reclaimed_state = record s {
    world = reclaimed_world;
    retired = update s.retired t [];
    retired_count = update s.retired_count t 0;
    threads = update s.threads t (done (record k { inserted = bump k.inserted }) r);
  }

  unseen : (u : ℕ) → in_op (s.threads u) ≡ true → (q : Ptr) → Seen inv.ghost u q → q ≢ p
  unseen u active q i =
      Seen-ne inv u active q i p (λ e. cc (e, held.mine))
        λ b owner g.
          let e : b ≡ t = cc (owner, held.mine) in
          let g' : Guard u (s.ctr u) (s.threads t) (s.retired t) p =
            subst (λ b. Guard u (s.ctr u) (s.threads b) (s.retired b) p) e g in
          rw here at g'

  stable :
      (u : ℕ)
      → in_op (s.threads u) ≡ true
      → Stable s.world inv.ghost reclaimed_world reclaimed_ghost u
  stable u active = Stable-same refl refl refl refl λ q i. (
    write_ne s.world.heap p q _ (unseen u active q i),
    assign_ne inv.ghost.own p q _ (unseen u active q i),
  )

  reclaimed-Inv : Inv n reclaimed_state xs
  reclaimed-Inv = Change-Inv inv t here (record {
    ghost = reclaimed_ghost;
    end = inv.end;
    pool = repool inv.pool t ((p, held.content.value) ∷ inv.pool t);
    sentinel = inv.sentinel;
    layout = record {
      front = inv.layout.front;
      last = inv.layout.last;
      shape = give_back-Shape inv.layout.shape t held.mine held.content.value l held.ne_null listed;
      all = inv.layout.all;
    };
    contents = inv.contents;
    at_tail = inv.at_tail;
    active = refl;
    threads = refl;
    retired = λ u ne. update_ne s.retired t u [] ne;
    spares =
        Untouched-node p (λ u ne o. absurd (ne (cc (o, held.mine))))
          (λ b ne. assign_ne inv.ghost.own p b _ ne) (λ b ne. write_ne s.world.heap p b _ ne);
    stable = λ u ne. stable u;
    place = tt;
    mine = λ q e. cc (e, update_self s.retired t []);
    departed = λ u q i gone. elim (ℕ_discrete u t) [
      | yes e ↦
          let no : in_op (update s.threads t (done (record k { inserted = bump k.inserted }) r) t)
              ≡ true =
            subst
              (λ b.
                in_op (update s.threads t (done (record k { inserted = bump k.inserted }) r) b)
                ≡ true)
              e i in
          cc (
            no,
            ap in_op (update_self s.threads t (done (record k { inserted = bump k.inserted }) r)),
          )
      | no ne ↦
          let was : in_op (s.threads u) ≡ true =
            rw (update_ne s.threads t u (done (record k { inserted = bump k.inserted }) r) ne) at
              i in
          Departed-keep inv t here (done (record k { inserted = bump k.inserted }) r)
            {s' = reclaimed_state} refl (λ u ne. update_ne s.retired t u [] ne) u q refl
            (stable u was) was gone (λ g. absurd g)
    ];
  })

module _ {n : ℕ} {s : State} {xs : List Value} (inv : Inv n s xs) (all : AllKept s) (t : ℕ)
    (e : Env) where
  pub reclaim-Stepped :
      (k : Counts) (r : Result)
      → s.threads t ≡ end_reclaim k r
      → t < s.world.queue.num_threads
      → Stepped e.block n s xs t (manage e t (end_reclaim k r) s)
  unfolding manage reclaim recycle_node event
  reclaim-Stepped k r here lt =
      let kept = all t in
      let (p, one) = one_of_length (s.retired t) (kept.waiting (rw here refl)) in
      let held = inv.retired t p one in
      let (l, listed) = inv.layout.shape.arrays t lt in
      rw
        (
          at_entry-lt t s _ lt,
          one,
          recycle_node-ok s.world t listed k.inserted held.ne_null held.holds,
        )
        (xs, (λ log e. rw here e), reclaimed-Inv inv t k r here p held l listed)
