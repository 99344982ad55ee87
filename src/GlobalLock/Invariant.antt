-- ===== src/GlobalLock/Invariant.antt =====
-- What holds between any two steps of the threads of Ex2.c, and that each step keeps it.
use amp_project.Base.{
  ℕ, ◌<◌, ◌≡◌, ◌≢◌, refl, sym, ◌∙◌, ap, subst, ◌⊎◌, Bool, true, false, Option, none, some, List, [],
  ◌∷◌, ◌++◌, inl, inr, ==_refl,
}
use amp_project.Heap.{Ptr, Value, Alloc, Owners}
use amp_project.Heap.Seg.{Cells, values, values-concat}
use amp_project.Sequential.Memory.{World, Exec, give, follow}
use amp_project.Sequential.Shape.{Pool, Shape, Yields, yields}
use amp_project.Sequential.Others.{Held, Untouched, Held-Untouched}
use amp_project.Sequential.Pools.{IsFresh}
use amp_project.Threads.{
  Follows, Safe, set_lock-Safe, unset_lock-Safe, OmpLock, unlocked, locked_by, Outcome, moved,
  set_lock, unset_lock, Guarded, Guarded-keep, Guarded-take, Guarded-drop, update, update_self,
  update-each, replay, take_oldest,
}
use amp_project.GlobalLock.{
  Pc, enq_start, enq_locked, enq_unlock, enq_done, deq_start, deq_locked, deq_unlock, deq_recycle,
  deq_done, State, after, access, sync, step_at, step, busy, event, recycle_node,
}
use amp_project.GlobalLock.Bodies.{
  Left, Dequeued, enq_body-Left, deq_body-Dequeued, recycle_node-Left,
}

-- the places between setting and unsetting the lock
abbrev pub inside : Pc → Bool
inside (enq_locked v) = true
inside (enq_unlock r) = true
inside (deq_locked c) = true
inside (deq_unlock c r) = true
inside _ = false

-- What thread `t` relies on: the sentinel that it took off the queue is its own.
abbrev pub Place : World → Owners → ℕ → Pc → Type 0
Place w own t (deq_unlock c (some (v, p))) = Held w own t p
Place w own t (deq_recycle c v p) = Held w own t p
Place w own t _ = Unit {0}

pub record Inv (n : ℕ) (s : State) (xs : List Value) : Type 0 where
  pub own : Owners
  pub front : Cells
  pub last : Value
  pub pool : Pool
  pub sentinel : Value
  pub shape : Shape s.world own front last pool
  pub contents : values front ++ last ∷ [] ≡ sentinel ∷ xs
  pub size : s.world.queue.num_threads ≡ n
  pub known : (t : ℕ) → busy (s.threads t) ≡ true → t < n
  pub places : (t : ℕ) → Place s.world own t (s.threads t)
  pub guard : Guarded inside s.lock s.threads

Place-Untouched :
    {w w' : World} {own own' : Owners} {t : ℕ} (u : ℕ) (p : Pc)
    → Untouched t w w' own own'
    → u ≢ t
    → Place w own u p
    → Place w' own' u p
Place-Untouched u (deq_unlock c none) k ne h = tt
Place-Untouched u (deq_unlock c (some (v, p))) k ne h = Held-Untouched k u ne p h
Place-Untouched u (deq_recycle c v p) k ne h = Held-Untouched k u ne p h
Place-Untouched u _ k ne h = tt

-- A step of thread `t` is never undefined behaviour, and has the effect that its event says.
abbrev pub Stepped : ℕ → State → List Value → ℕ → Outcome State → Type 0
Stepped n s xs t =
    Safe λ s'.
      (xs' : List Value) × Follows (event t (s.threads t) (s'.threads t)) xs xs' × Inv n s' xs'

module _ {n : ℕ} {s : State} {xs : List Value} (inv : Inv n s xs) (t : ℕ) {pc : Pc}
    (here : s.threads t ≡ pc) (active : busy pc ≡ true) where
  known_next : (pc' : Pc) (u : ℕ) → busy (update s.threads t pc' u) ≡ true → u < n
  known_next pc' =
      update-each (λ u p. busy p ≡ true → u < n) s.threads t pc' (λ _. inv.known t (rw here active))
        (λ u ne. inv.known u)

  -- A step on the memory.
  Left-Stepped :
      {front' : Cells} {last' : Value} {w' : World} (pc' : Pc) (xs' : List Value)
      → (left : Left t s.world inv.own front' last' w') → Follows (event t pc pc') xs xs'
      → (sentinel' : Value) → values front' ++ last' ∷ [] ≡ sentinel' ∷ xs'
      → inside pc' ≡ inside pc
      → Place w' left.own' t pc'
      → Stepped n s xs t (moved (record s { world = w'; threads = update s.threads t pc' }))
  Left-Stepped {front'} {last'} {w'} pc' xs' left follows sentinel' contents same place = (
    xs',
    rw (here, update_self) follows,
    record {
      own = left.own';
      front = front';
      last = last';
      pool = left.pool';
      sentinel = sentinel';
      shape = left.shape;
      contents = contents;
      size = left.size ∙ inv.size;
      known = known_next pc';
      places =
          update-each (λ u p. Place w' left.own' u p) s.threads t pc' place
            (λ u ne. Place-Untouched u (s.threads u) left.untouched ne (inv.places u));
      guard = Guarded-keep inv.guard t pc' (same ∙ ap inside (sym here));
    },
  )

  -- A step that leaves the memory as it was.
  same-Stepped :
      (l : OmpLock) (pc' : Pc)
      → Follows (event t pc pc') xs xs
      → Guarded inside l (update s.threads t pc')
      → Place s.world inv.own t pc'
      → Stepped n s xs t
          (moved (record { world = s.world; lock = l; threads = update s.threads t pc' }))
  same-Stepped l pc' follows guard place = (
    xs,
    rw (here, update_self) follows,
    record {
      own = inv.own;
      front = inv.front;
      last = inv.last;
      pool = inv.pool;
      sentinel = inv.sentinel;
      shape = inv.shape;
      contents = inv.contents;
      size = inv.size;
      known = known_next pc';
      places =
          update-each (λ u p. Place s.world inv.own u p) s.threads t pc' place
            (λ u ne. inv.places u);
      guard = guard;
    },
  )

  -- `omp_set_lock`
  set-Stepped :
      (pc' : Pc)
      → event t pc pc' ≡ []
      → inside pc ≡ false
      → inside pc' ≡ true
      → Place s.world inv.own t pc'
      → Stepped n s xs t
          (set_lock t s.lock λ l. record s { lock = l; threads = update s.threads t pc' })
  set-Stepped pc' quiet out in_it place =
      set_lock-Safe _ t s.lock (λ l. record s { lock = l; threads = update s.threads t pc' })
        inv.guard.usable (λ e. cc (inv.guard.within t e, ap inside here, out))
        (λ free.
          same-Stepped (locked_by t) pc' (λ log e. rw quiet e)
            (Guarded-take inv.guard t pc' free in_it) place)

  -- `omp_unset_lock`
  unset-Stepped :
      (pc' : Pc)
      → event t pc pc' ≡ []
      → inside pc ≡ true
      → inside pc' ≡ false
      → Place s.world inv.own t pc'
      → Stepped n s xs t
          (unset_lock t s.lock λ l. record s { lock = l; threads = update s.threads t pc' })
  unset-Stepped pc' quiet in_it out place =
      let mine = inv.guard.holder t (ap inside here ∙ in_it) in
      unset_lock-Safe _ t s.lock (λ l. record s { lock = l; threads = update s.threads t pc' }) mine
        (same-Stepped unlocked pc' (λ log e. rw quiet e) (Guarded-drop inv.guard t pc' mine out)
          place)

-- The step of thread `t` behind a run that yields its place.
after-Stepped :
    (n : ℕ) (s : State) (xs : List Value) (t : ℕ) {A : Type 0} {Q : A → World → Type 0} {r : Exec A}
    (k : A → Pc)
    → Yields Q r
    → ((a : A) (w : World)
        → Q a w
        → Stepped n s xs t (moved (record s { world = w; threads = update s.threads t (k a) })))
    → Stepped n s xs t (after t s (follow (λ a. give (k a)) r))
after-Stepped n s xs t k (yields q) go = go _ _ q

module _ {n : ℕ} {s : State} {xs : List Value} (inv : Inv n s xs) (t : ℕ) (m : Alloc)
    (fresh : IsFresh m s.world) where
  below : {pc : Pc} → s.threads t ≡ pc → busy pc ≡ true → t < s.world.queue.num_threads
  below here active = rw inv.size (inv.known t (rw here active))

  keep :
      {pc : Pc}
      → s.threads t ≡ pc
      → (pc' : Pc) → inside pc' ≡ inside pc
      → Guarded inside s.lock (update s.threads t pc')
  keep here pc' e = Guarded-keep inv.guard t pc' (e ∙ ap inside (sym here))

  enq_locked-Stepped :
      (v : Value)
      → s.threads t ≡ enq_locked v
      → (r : Bool) (w : World)
      → ((r ≡ false) × (w ≡ s.world))
        ⊎ ((r ≡ true)
            × Left t s.world inv.own (inv.front ++ (s.world.queue.tail, inv.last) ∷ []) v w)
      → Stepped n s xs t
          (moved (record s { world = w; threads = update s.threads t (enq_unlock r) }))
  unfolding event replay
  enq_locked-Stepped v here false w (inl (e, same)) =
      subst
        (λ z.
          Stepped n s xs t
            (moved (record s { world = z; threads = update s.threads t (enq_unlock false) })))
        (sym same)
        (same-Stepped inv t here refl s.lock (enq_unlock false) (λ log e. e)
          (keep here (enq_unlock false) refl) tt)
  enq_locked-Stepped v here true w (inl (e, same)) = cc e
  enq_locked-Stepped v here false w (inr (e, left)) = cc e
  enq_locked-Stepped v here true w (inr (e, left)) =
      Left-Stepped inv t here refl (enq_unlock true) (xs ++ v ∷ []) left (λ log e. rw e refl)
        inv.sentinel (rw (values-concat, inv.contents)) refl tt

  deq_locked-Stepped :
      (c : Option ℕ)
      → s.threads t ≡ deq_locked c
      → (out : Option (Value × Ptr)) (w : World)
      → Dequeued t s.world inv.own inv.front inv.last out w
      → Stepped n s xs t
          (moved (record s { world = w; threads = update s.threads t (deq_unlock c out) }))
  unfolding event replay
  deq_locked-Stepped c here none w (same, only) =
      let none_left : xs ≡ [] = cc (inv.contents, ap values only) in
      subst
        (λ z.
          Stepped n s xs t
            (moved (record s { world = z; threads = update s.threads t (deq_unlock c none) })))
        (sym same)
        (same-Stepped inv t here refl s.lock (deq_unlock c none) (λ log e. rw (e, none_left) refl)
          (keep here (deq_unlock c none) refl) tt)
  deq_locked-Stepped c here (some (v, p)) w taken =
      let oldest : xs ≡ v ∷ taken.rest =
        cc (inv.contents, ap (λ f. values f ++ inv.last ∷ []) taken.is, taken.oldest) in
      Left-Stepped inv t here refl (deq_unlock c (some (v, p))) taken.rest taken.left
        (λ log e. rw (e, oldest, take_oldest, ==_refl) refl) v taken.oldest refl taken.held

  step_at-Stepped : (pc : Pc) → s.threads t ≡ pc → Stepped n s xs t (step_at m t pc s)
  unfolding step_at access sync event recycle_node replay take_oldest
  step_at-Stepped (enq_start v) here = set-Stepped inv t here refl (enq_locked v) refl refl refl tt
  step_at-Stepped (enq_unlock r) here = unset-Stepped inv t here refl (enq_done r) refl refl refl tt
  step_at-Stepped (deq_start c) here = set-Stepped inv t here refl (deq_locked c) refl refl refl tt
  step_at-Stepped (deq_unlock c none) here =
      unset-Stepped inv t here refl (deq_done c none) refl refl refl tt
  step_at-Stepped (deq_unlock c (some (v, p))) here =
      unset-Stepped inv t here refl (deq_recycle c v p) refl refl refl (rw here at (inv.places t))
  step_at-Stepped (enq_locked v) here =
      after-Stepped n s xs t enq_unlock (enq_body-Left inv.shape t m v (below here refl) fresh)
        (enq_locked-Stepped v here)
  step_at-Stepped (deq_locked c) here =
      after-Stepped n s xs t (deq_unlock c) (deq_body-Dequeued t inv.front inv.shape)
        (deq_locked-Stepped c here)
  step_at-Stepped (deq_recycle c v p) here =
      after-Stepped n s xs t (λ c'. deq_done c' (some v))
        (recycle_node-Left inv.shape t c (rw here at (inv.places t)) (below here refl))
        λ c' w (e, left).
          Left-Stepped inv t here refl (deq_done c' (some v)) xs left (λ log e. e) inv.sentinel
            inv.contents refl tt
  step_at-Stepped _ here = tt

  pub step-Stepped : Stepped n s xs t (step m t s)
  unfolding step
  step-Stepped = step_at-Stepped (s.threads t) refl
