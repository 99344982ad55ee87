-- ===== src/LockFree/Link.antt =====
-- The exchange on `last->next` in `enq` (Ex5.c), where the call takes effect.
use amp_project.Base.{
  ℕ, ◌≡◌, ◌≢◌, refl, ◌∙◌, ap, subst, true, not, ◌&&◌, Bool-cases, inl, inr, some, List, [], ◌∷◌,
  ◌++◌, ◌==◌, arith,
}
use amp_project.Heap.{Ptr, null, Value, node, queued, assign}
use amp_project.Heap.Seg.{has-concat, values-concat}
use amp_project.Sequential.Memory.{World, ok, put, set_next}
use amp_project.Sequential.Shape.{load-ok, set_next-ok, write_self, write_ne, assign_ne}
use amp_project.Sequential.Others.{Untouched}
use amp_project.Sequential.Frames.{link-Shape}
use amp_project.Threads.{replay}
use amp_project.LockFree.{Counts, fail, enq_tail, enq_link, enq_swing, State, Env, access, event}
use amp_project.LockFree.Memory.{cas_next}
use amp_project.LockFree.Places.{in_op}
use amp_project.LockFree.Counters.{AllKept}
use amp_project.LockFree.Nodes.{last_is}
use amp_project.LockFree.Invariant.{
  Ghost, Seen, Seen-cases, Seen-Visible, Seen-ne, Guard, Linked, Mine, Inv,
}
use amp_project.LockFree.Stable.{Stable, Stable-link}
use amp_project.LockFree.Change.{
  Advanced, Accessed, Change-Inv, Departed-keep, still_active, none_here,
}
use amp_project.LockFree.Enqueue.{stay-Advanced}

module _ {n : ℕ} {s : State} {xs : List Value} (inv : Inv n s xs) (all : AllKept s) (t : ℕ)
    (k : Counts) (v : Value) (p l : Ptr) (here : s.threads t ≡ enq_link k v p l)
    (mine : Mine s.world inv.ghost t p v) where
  abbrev linked_ghost : Ghost
  linked_ghost = record {
    own = assign inv.ghost.own p queued;
    cells = inv.ghost.cells ++ (p, v) ∷ [];
    gone = inv.ghost.gone;
  }

  abbrev linked_world : World
  linked_world = put inv.end (some (node inv.layout.last p)) s.world

  unseen : (u : ℕ) → in_op (s.threads u) ≡ true → (q : Ptr) → Seen inv.ghost u q → q ≢ p
  unseen u active q i =
      Seen-ne inv u active q i p (λ e. cc (e, mine.held.mine))
        λ b owner g.
          let e : b ≡ t = cc (owner, mine.held.mine) in
          let g' : Guard u (s.ctr u) (s.threads t) (s.retired t) p =
            subst (λ b. Guard u (s.ctr u) (s.threads b) (s.retired b) p) e g in
          rw here at g'

  stable :
      (u : ℕ) → in_op (s.threads u) ≡ true → Stable s.world inv.ghost linked_world linked_ghost u
  stable u active =
      Stable-link s.world inv.ghost u inv.end p inv.layout.last v inv.layout.shape.back.holds
        (unseen u active)

  spares : Untouched t s.world linked_world inv.ghost.own (assign inv.ghost.own p queued)
  spares = record {
    owner = λ u ne a h.
        assign_ne inv.ghost.own p a queued
          (λ e. ne (cc (ap inv.ghost.own e, h.mine, mine.held.mine)))
        ∙ h.mine;
    cell = λ u ne a h.
        write_ne s.world.heap inv.end a _
          (λ e. cc (ap inv.ghost.own e, h.mine, inv.layout.shape.back.owner));
  }

  exchanged-Advanced :
      (link : Linked linked_world linked_ghost t l p)
      → Advanced n s xs t (enq_link k v p l) (enq_swing k p l) linked_world
  unfolding event replay
  exchanged-Advanced link = (
    xs ++ v ∷ [],
    (λ log e. rw e refl),
    Change-Inv inv t here (record {
      ghost = linked_ghost;
      end = p;
      pool = inv.pool;
      sentinel = inv.sentinel;
      layout = record {
        front = inv.layout.front ++ (inv.end, inv.layout.last) ∷ [];
        last = v;
        shape = link-Shape inv.layout.shape t mine.held.mine v mine.held.ne_null mine.filled;
        all = ap (λ c. c ++ (p, v) ∷ []) inv.layout.all;
      };
      contents = values-concat inv.ghost.cells p v ∙ ap (λ c. c ++ v ∷ []) inv.contents;
      at_tail = rw (has-concat s.world.queue.tail inv.ghost.cells p v, inv.at_tail) refl;
      active = refl;
      threads = refl;
      retired = λ u ne. refl;
      spares = spares;
      stable = λ u ne. stable u;
      place = link;
      mine = λ q e. absurd (none_here inv all t here refl refl q e);
      departed = λ u q i gone.
          let was = still_active inv all t here refl refl (enq_swing k p l) u i in
          Departed-keep inv t here (enq_swing k p l) refl (λ u ne. refl) u q refl (stable u was) was
            gone (λ g. absurd g);
    }),
  )

  pub enq_link-Accessed :
      (e : Env)
      → Seen inv.ghost t l
      → Accessed e.block n s xs t (enq_link k v p l) (access e t (enq_link k v p l))
  unfolding access cas_next event
  enq_link-Accessed e seen =
      let vis = Seen-Visible inv t (rw here refl) l seen in
      rw (load-ok s.world vis.ne_null vis.holds)
        (elim (Bool-cases (vis.next == null && not e.spurious)) [
          | inr left ↦ rw left (
              stay-Advanced inv all t here refl refl (λ u c rs p g. absurd g)
                (enq_tail (fail k) v p) refl mine)
          | inl swapped ↦
              let nul : vis.next ≡ null = ground arith in
              let loaded : s.world.heap l ≡ some (node vis.value null) = rw (← nul) vis.holds in
              let is_last : l ≡ inv.end = at_end vis.value loaded in
              let value : vis.value ≡ inv.layout.last =
                cc (loaded, ap s.world.heap is_last, inv.layout.shape.back.holds) in
              let run : set_next l p s.world ≡ ok tt linked_world =
                set_next-ok s.world vis.ne_null vis.holds p
                ∙ ap (λ q. ok tt (put q (some (node vis.value p)) s.world)) is_last
                ∙ ap (λ a. ok tt (put inv.end (some (node a p)) s.world)) value in
              rw (swapped, run) (exchanged-Advanced (linked_to is_last))
        ])
    where
      linked_to : l ≡ inv.end → Linked linked_world linked_ghost t l p
      linked_to e = record {
        seen = (stable t (rw here refl)).seen l seen;
        value = inv.layout.last;
        holds = rw e (write_self s.world.heap inv.end _);
        more = mine.held.ne_null;
        onward = rw (has-concat p inv.ghost.cells p v) (ground arith);
      }

      at_end : (a : Value) → s.world.heap l ≡ some (node a null) → l ≡ inv.end
      at_end a loaded = elim (Seen-cases inv t l seen) [
        | inl gone ↦
            let d = inv.departed t l (rw here refl) gone in absurd (d.more (cc (d.holds, loaded)))
        | inr i ↦ last_is inv.layout l a i loaded
      ]
