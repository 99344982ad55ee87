-- ===== src/LockFree/Change.antt =====
-- One thread of Ex5.c takes a step, and the invariant holds for all.
use amp_project.Base.{
  ℕ, ◌<◌, ◌≡◌, ◌≢◌, refl, sym, ◌∙◌, ap, subst, true, some, Option, none, List, [], ◌∷◌, arith,
  ℕ_discrete, length,
}
use amp_project.Heap.{Ptr, null, Value, Alloc, held_by, Owners}
use amp_project.Heap.Seg.{has, values}
use amp_project.Sequential.Memory.{World, Exec, fault, starved, ok, Cmd}
use amp_project.Sequential.Shape.{Pool}
use amp_project.Sequential.Others.{Held, Untouched, Untouched-refl, Untouched-node, Held-Untouched}
use amp_project.Threads.{update, update_self, update_ne, update-each, Follows}
use amp_project.Sequential.Contents.{Layout}
use amp_project.LockFree.{Pc, State, busy, event}
use amp_project.LockFree.Places.{in_op, clear, in_op-busy}
use amp_project.LockFree.Counters.{AllKept}
use amp_project.LockFree.Invariant.{Ghost, Seen, Guard, Departed, Place, Inv}
use amp_project.LockFree.Stable.{Stable, Stable-same, Stable-tail, Place-Stable}

-- Thread `t` went from `pc` to `pc'`, leaving the state `s'` and the values `xs'`.
pub record Change {n : ℕ} {s : State} {xs : List Value} (inv : Inv n s xs) (t : ℕ) (pc pc' : Pc)
    (s' : State) (xs' : List Value) : Type 0 where
  pub ghost : Ghost
  pub end : Ptr
  pub pool : Pool
  pub sentinel : Value
  pub layout : Layout s'.world ghost.own ghost.cells end pool
  pub contents : values ghost.cells ≡ sentinel ∷ xs'
  pub at_tail : has s'.world.queue.tail ghost.cells ≡ true
  pub active : busy pc ≡ true
  pub threads : s'.threads ≡ update s.threads t pc'
  pub retired : (u : ℕ) → u ≢ t → s'.retired u ≡ s.retired u
  pub spares : Untouched t s.world s'.world inv.ghost.own ghost.own
  pub stable :
      (u : ℕ) → u ≢ t → in_op (s.threads u) ≡ true → Stable s.world inv.ghost s'.world ghost u
  pub place : Place s'.world ghost t pc'
  pub mine : (p : Ptr) → s'.retired t ≡ p ∷ [] → Held s'.world ghost.own t p
  pub departed :
      (u : ℕ) (p : Ptr)
      → in_op (update s.threads t pc' u) ≡ true
      → ghost.gone u p ≡ true
      → Departed s' ghost u p

module _ {n : ℕ} {s : State} {xs : List Value} (inv : Inv n s xs) (t : ℕ) {pc : Pc}
    (here : s.threads t ≡ pc) where
  pub Change-Inv :
      {pc' : Pc} {s' : State} {xs' : List Value} → Change inv t pc pc' s' xs' → Inv n s' xs'
  Change-Inv {pc'} {s'} c = record {
    ghost = c.ghost;
    end = c.end;
    pool = c.pool;
    sentinel = c.sentinel;
    layout = c.layout;
    contents = c.contents;
    at_tail = c.at_tail;
    known = rw c.threads (
        update-each (λ u p. busy p ≡ true → u < n) s.threads t pc'
          (λ _. inv.known t (rw here c.active)) (λ u ne. inv.known u));
    places = rw c.threads (
        update-each (λ u p. Place s'.world c.ghost u p) s.threads t pc' c.place
          (λ u ne. Place-Stable c.spares ne (s.threads u) (c.stable u ne) (inv.places u)));
    retired = λ u p e. elim (ℕ_discrete t u) [
      | yes same ↦
          subst (λ i. Held s'.world c.ghost.own i p) same (c.mine p (ap s'.retired same ∙ e))
      | no other ↦
          let ne : u ≢ t = λ e. other (sym e) in
          Held-Untouched c.spares u ne p (inv.retired u p (sym (c.retired u ne) ∙ e))
    ];
    departed = λ u p i. c.departed u p (rw (← c.threads) i);
  }

  -- A node that had left the queue is held back as before.
  pub Departed-keep :
      (pc' : Pc) {s' : State} {g' : Ghost}
      → s'.threads ≡ update s.threads t pc'
      → ((u : ℕ) → u ≢ t → s'.retired u ≡ s.retired u)
      → (u : ℕ) (p : Ptr) → s'.ctr u ≡ s.ctr u
      → Stable s.world inv.ghost s'.world g' u
      → in_op (s.threads u) ≡ true
      → inv.ghost.gone u p ≡ true
      → (Guard u (s.ctr u) pc (s.retired t) p → Guard u (s.ctr u) pc' (s'.retired t) p)
      → Departed s' g' u p
  Departed-keep pc' {s'} threads retired u p ctr k active gone guard =
      let d = inv.departed u p active gone in
      record {
        by = d.by;
        owner = k.owners p gone ∙ d.owner;
        guard = rw (ctr, threads) (go d.by d.guard);
        ne_null = d.ne_null;
        value = d.value;
        next = d.next;
        holds = k.linked p d.value d.next (ground (arith, gone)) d.holds d.more;
        more = d.more;
        seen = k.seen d.next d.seen;
      }
    where
      go :
          (b : ℕ)
          → Guard u (s.ctr u) (s.threads b) (s.retired b) p
          → Guard u (s.ctr u) (update s.threads t pc' b) (s'.retired b) p
      go b old = elim (ℕ_discrete b t) [
        | yes same ↦
            let old' : Guard u (s.ctr u) pc (s.retired t) p =
              rw (← here) (subst (λ i. Guard u (s.ctr u) (s.threads i) (s.retired i) p) same old) in
            subst (λ i. Guard u (s.ctr u) (update s.threads t pc' i) (s'.retired i) p) (sym same)
              (rw (update_self s.threads t pc') (guard old'))
        | no other ↦ rw (update_ne s.threads t b pc' other, retired b other) old
      ]

-- the state behind an access of memory
abbrev pub goto : State → World → ℕ → Pc → State
goto s w t pc = record s { world = w; threads = update s.threads t pc }

-- The step goes from `pc` to `pc'`, leaves `w'`, and has the effect that its event says.
abbrev pub Advanced : ℕ → State → List Value → ℕ → Pc → Pc → World → Type 0
Advanced n s xs t pc pc' w' =
    (xs' : List Value) × Follows (event t pc pc') xs xs' × Inv n (goto s w' t pc') xs'

-- A postcondition of a run that has undefined behaviour only if `malloc` gave NULL.
abbrev pub Runs : {A : Type 0} → Alloc → (A → World → Type 0) → Exec A → Type 0
Runs m P fault = m.addr ≡ null
Runs m P starved = ⊥
Runs m P (ok a w) = P a w

-- What a place's step on the memory does, if it has one.
abbrev pub Accessed : Alloc → ℕ → State → List Value → ℕ → Pc → Option (Cmd Pc) → Type 0
Accessed m n s xs t pc none = Unit {0}
Accessed m n s xs t pc (some c) = Runs m (Advanced n s xs t pc) (c s.world)

module _ {n : ℕ} {s : State} {xs : List Value} (inv : Inv n s xs) (all : AllKept s) (t : ℕ)
    {pc : Pc} (here : s.threads t ≡ pc) (active : in_op pc ≡ true)
    (unretired : clear pc ≡ true) where
  pub active_here : in_op (s.threads t) ≡ true
  active_here = rw here active

  pub none_here : (p : Ptr) → s.retired t ≡ p ∷ [] → ⊥
  none_here p e =
      let kept = all t in
      let empty : length (s.retired t) ≡ 0 = kept.none_retired (rw here unretired) in
      let one = ap length e in omega arith

  busy_here : busy pc ≡ true
  busy_here = in_op-busy pc active

  -- A thread that stays in its operation was in it.
  pub still_active :
      (pc' : Pc) (u : ℕ) → in_op (update s.threads t pc' u) ≡ true → in_op (s.threads u) ≡ true
  still_active pc' u i = elim (ℕ_discrete u t) [
    | yes e ↦ subst (λ b. in_op (s.threads b) ≡ true) (sym e) active_here
    | no ne ↦ rw (update_ne s.threads t u pc' ne) at i
  ]

  -- The nodes of the queue are the same.
  pub silent-Inv :
      (pc' : Pc) {w' : World} {own' : Owners} {pool' : Pool}
      → Layout w' own' inv.ghost.cells inv.end pool'
      → has w'.queue.tail inv.ghost.cells ≡ true
      → ((u : ℕ)
          → in_op (s.threads u) ≡ true
          → Stable s.world inv.ghost w' (record (inv.ghost) { own = own' }) u)
      → Untouched t s.world w' inv.ghost.own own'
      → ((u : ℕ) (p : Ptr)
          → Guard u (s.ctr u) pc (s.retired t) p
          → Guard u (s.ctr u) pc' (s.retired t) p)
      → Place w' (record (inv.ghost) { own = own' }) t pc'
      → Inv n (goto s w' t pc') xs
  silent-Inv pc' {w'} {own'} {pool'} layout at_tail stable spares guard place =
      Change-Inv inv t here (record {
        ghost = record (inv.ghost) { own = own' };
        end = inv.end;
        pool = pool';
        sentinel = inv.sentinel;
        layout = layout;
        contents = inv.contents;
        at_tail = at_tail;
        active = busy_here;
        threads = refl;
        retired = λ u ne. refl;
        spares = spares;
        stable = λ u ne. stable u;
        place = place;
        mine = λ p e. absurd (none_here p e);
        departed = λ u p i gone.
            let was = still_active pc' u i in
            Departed-keep inv t here pc' {g' = record (inv.ghost) { own = own' }} refl
              (λ u ne. refl) u p refl (stable u was) was gone (guard u p);
      })

  -- Only the place changes.
  pub stay-Inv :
      (pc' : Pc)
      → ((u : ℕ) (p : Ptr)
          → Guard u (s.ctr u) pc (s.retired t) p
          → Guard u (s.ctr u) pc' (s.retired t) p)
      → Place s.world inv.ghost t pc'
      → Inv n (goto s s.world t pc') xs
  stay-Inv pc' guard place =
      silent-Inv pc' inv.layout inv.at_tail
        (λ u i. Stable-same refl refl refl refl (λ p j. (refl, refl))) (Untouched-refl (λ a. refl))
        guard place

  -- `Q->tail` moves to a node of the queue behind the first.
  pub tail-Inv :
      (pc' : Pc) (x : Ptr)
      → has x inv.ghost.cells ≡ true
      → x ≢ s.world.queue.head
      → ((u : ℕ) (p : Ptr)
          → Guard u (s.ctr u) pc (s.retired t) p
          → Guard u (s.ctr u) pc' (s.retired t) p)
      → Place (record (s.world) { queue = record (s.world.queue) { tail = x } }) inv.ghost t pc'
      → Inv n (goto s (record (s.world) { queue = record (s.world.queue) { tail = x } }) t pc') xs
  tail-Inv pc' x i ne guard place =
      silent-Inv pc'
        (record {
          front = inv.layout.front;
          last = inv.layout.last;
          shape = inv.layout.shape;
          all = inv.layout.all;
        })
        i (λ u j. Stable-tail s.world inv.ghost u x ne) (Untouched-refl (λ a. refl)) guard place

  -- One node changes, which no thread may see.
  pub private-Inv :
      (pc' : Pc) (p : Ptr) {w' : World} {own' : Owners} {pool' : Pool}
      → Layout w' own' inv.ghost.cells inv.end pool'
      → w'.queue.head ≡ s.world.queue.head
      → w'.queue.tail ≡ s.world.queue.tail
      → ((b : Ptr) → b ≢ p → own' b ≡ inv.ghost.own b)
      → ((b : Ptr) → b ≢ p → w'.heap b ≡ s.world.heap b)
      → ((u : ℕ) (q : Ptr) → in_op (s.threads u) ≡ true → Seen inv.ghost u q → q ≢ p)
      → ((u : ℕ) → u ≢ t → inv.ghost.own p ≡ held_by u → s.world.heap p ≡ none)
      → ((u : ℕ) (p : Ptr)
          → Guard u (s.ctr u) pc (s.retired t) p
          → Guard u (s.ctr u) pc' (s.retired t) p)
      → Place w' (record (inv.ghost) { own = own' }) t pc'
      → Inv n (goto s w' t pc') xs
  private-Inv pc' p layout head tail owners cells unseen out guard place =
      silent-Inv pc' layout (rw tail inv.at_tail)
        (λ u i.
          Stable-same head tail refl refl
            (λ q j. (cells q (unseen u q i j), owners q (unseen u q i j))))
        (Untouched-node p out owners cells) guard place
