-- ===== src/TwoLock/Locking.antt =====
-- The steps of Ex4.c on its two locks.
use amp_project.Base.{ℕ, ◌<◌, ◌≡◌, refl, sym, ◌∙◌, ap, true, false, List, []}
use amp_project.Heap.{Value}
use amp_project.Sequential.Memory.{Exec}
use amp_project.Sequential.Shape.{Yields, yields}
use amp_project.Sequential.Others.{Held}
use amp_project.Threads.{
  Follows, Safe, set_lock-Safe, unset_lock-Safe, OmpLock, unlocked, locked_by, Outcome, moved,
  set_lock, unset_lock, Guarded, Guarded-keep, Guarded-take, Guarded-drop, update, update-each,
  update_self,
}
use amp_project.TwoLock.{
  Pc, enq_start, enq_alloc, enq_unlock, enq_done, deq_start, deq_read, deq_wait, deq_retail,
  deq_release, deq_recycle, deq_unlock, deq_done, State, busy, event, sync, after,
}
use amp_project.TwoLock.Invariant.{in_enq, in_deq, Place, Inv}
use amp_project.TwoLock.Change.{Advanced}

-- A step of thread `t` is never undefined behaviour, and has the effect that its event says.
abbrev pub Stepped : ℕ → State → List Value → ℕ → Outcome State → Type 0
Stepped n s xs t =
    Safe λ s'.
      (xs' : List Value) × Follows (event t (s.threads t) (s'.threads t)) xs xs' × Inv n s' xs'

module _ (n : ℕ) (s : State) (xs : List Value) (t : ℕ) where
  pub after-Stepped :
      {pc : Pc} {r : Exec Pc}
      → s.threads t ≡ pc
      → Yields (Advanced n s xs t pc) r
      → Stepped n s xs t (after t s r)
  after-Stepped here (yields (xs', f, inv)) = (xs', rw (here, update_self) f, inv)

module _ {n : ℕ} {s : State} {xs : List Value} (inv : Inv n s xs) (t : ℕ) {pc : Pc}
    (here : s.threads t ≡ pc) where
  -- the state after a step on a lock
  abbrev relocked : OmpLock → OmpLock → Pc → State
  relocked l k pc' = record s { enq_lock = l; deq_lock = k; threads = update s.threads t pc' }

  relocked-Stepped :
      (l k : OmpLock) (pc' : Pc)
      → busy pc ≡ true
      → event t pc pc' ≡ []
      → Guarded in_enq l (update s.threads t pc')
      → Guarded in_deq k (update s.threads t pc')
      → (l ≡ unlocked → s.world.queue.tail ≡ inv.end)
      → Place s.world inv.own inv.cells inv.end t pc'
      → Stepped n s xs t (moved (relocked l k pc'))
  relocked-Stepped l k pc' active quiet enq deq at_end place = (
    xs,
    λ log e. rw (here, update_self, quiet) e,
    record {
      own = inv.own;
      cells = inv.cells;
      end = inv.end;
      pool = inv.pool;
      sentinel = inv.sentinel;
      layout = inv.layout;
      contents = inv.contents;
      size = inv.size;
      known = known;
      places = places;
      enq_guard = enq;
      deq_guard = deq;
      at_end = at_end;
    },
  )
    where
      known : (u : ℕ) → busy (update s.threads t pc' u) ≡ true → u < n
      known =
          update-each (λ u p. busy p ≡ true → u < n) s.threads t pc'
            (λ _. inv.known t (rw here active)) (λ u ne. inv.known u)

      places : (u : ℕ) → Place s.world inv.own inv.cells inv.end u (update s.threads t pc' u)
      places =
          update-each (λ u p. Place s.world inv.own inv.cells inv.end u p) s.threads t pc' place
            (λ u ne. inv.places u)

  keep_deq :
      (pc' : Pc) → in_deq pc' ≡ in_deq pc → Guarded in_deq s.deq_lock (update s.threads t pc')
  keep_deq pc' e = Guarded-keep inv.deq_guard t pc' (e ∙ ap in_deq (sym here))

  keep_enq :
      (pc' : Pc) → in_enq pc' ≡ in_enq pc → Guarded in_enq s.enq_lock (update s.threads t pc')
  keep_enq pc' e = Guarded-keep inv.enq_guard t pc' (e ∙ ap in_enq (sym here))

  -- `omp_set_lock(&Q->enq_lock)`
  set_enq-Stepped :
      (pc' : Pc)
      → busy pc ≡ true
      → event t pc pc' ≡ []
      → in_enq pc ≡ false
      → in_enq pc' ≡ true
      → in_deq pc' ≡ in_deq pc
      → (s.world.queue.tail ≡ inv.end → Place s.world inv.own inv.cells inv.end t pc')
      → Stepped n s xs t (set_lock t s.enq_lock λ l. relocked l s.deq_lock pc')
  set_enq-Stepped pc' active quiet out in_it same place =
      set_lock-Safe _ t s.enq_lock (λ l. relocked l s.deq_lock pc') inv.enq_guard.usable
        (λ e. cc (inv.enq_guard.within t e, ap in_enq here, out))
        (λ free.
          relocked-Stepped (locked_by t) s.deq_lock pc' active quiet
            (Guarded-take inv.enq_guard t pc' free in_it) (keep_deq pc' same) (λ e. cc e)
            (place (inv.at_end free)))

  -- `omp_unset_lock(&Q->enq_lock)`
  unset_enq-Stepped :
      (pc' : Pc)
      → busy pc ≡ true
      → event t pc pc' ≡ []
      → in_enq pc ≡ true
      → in_enq pc' ≡ false
      → in_deq pc' ≡ in_deq pc
      → s.world.queue.tail ≡ inv.end
      → Place s.world inv.own inv.cells inv.end t pc'
      → Stepped n s xs t (unset_lock t s.enq_lock λ l. relocked l s.deq_lock pc')
  unset_enq-Stepped pc' active quiet in_it out same tail place =
      let mine = inv.enq_guard.holder t (ap in_enq here ∙ in_it) in
      unset_lock-Safe _ t s.enq_lock (λ l. relocked l s.deq_lock pc') mine
        (relocked-Stepped unlocked s.deq_lock pc' active quiet
          (Guarded-drop inv.enq_guard t pc' mine out) (keep_deq pc' same) (λ e. tail) place)

  -- `omp_set_lock(&Q->deq_lock)`
  set_deq-Stepped :
      (pc' : Pc)
      → busy pc ≡ true
      → event t pc pc' ≡ []
      → in_deq pc ≡ false
      → in_deq pc' ≡ true
      → in_enq pc' ≡ in_enq pc
      → Place s.world inv.own inv.cells inv.end t pc'
      → Stepped n s xs t (set_lock t s.deq_lock λ l. relocked s.enq_lock l pc')
  set_deq-Stepped pc' active quiet out in_it same place =
      set_lock-Safe _ t s.deq_lock (λ l. relocked s.enq_lock l pc') inv.deq_guard.usable
        (λ e. cc (inv.deq_guard.within t e, ap in_deq here, out))
        (λ free.
          relocked-Stepped s.enq_lock (locked_by t) pc' active quiet (keep_enq pc' same)
            (Guarded-take inv.deq_guard t pc' free in_it) inv.at_end place)

  -- `omp_unset_lock(&Q->deq_lock)`
  unset_deq-Stepped :
      (pc' : Pc)
      → busy pc ≡ true
      → event t pc pc' ≡ []
      → in_deq pc ≡ true
      → in_deq pc' ≡ false
      → in_enq pc' ≡ in_enq pc
      → Place s.world inv.own inv.cells inv.end t pc'
      → Stepped n s xs t (unset_lock t s.deq_lock λ l. relocked s.enq_lock l pc')
  unset_deq-Stepped pc' active quiet in_it out same place =
      let mine = inv.deq_guard.holder t (ap in_deq here ∙ in_it) in
      unset_lock-Safe _ t s.deq_lock (λ l. relocked s.enq_lock l pc') mine
        (relocked-Stepped s.enq_lock unlocked pc' active quiet (keep_enq pc' same)
          (Guarded-drop inv.deq_guard t pc' mine out) inv.at_end place)

module _ {n : ℕ} {s : State} {xs : List Value} (inv : Inv n s xs) (t : ℕ) where
  -- Every step on a lock.
  pub sync-Stepped : (pc : Pc) → s.threads t ≡ pc → Stepped n s xs t (sync t pc s)
  unfolding sync event
  sync-Stepped (enq_start v) here =
      set_enq-Stepped inv t here (enq_alloc v) refl refl refl refl refl (λ e. e)
  sync-Stepped (enq_unlock r) here =
      unset_enq-Stepped inv t here (enq_done r) refl refl refl refl refl (rw here at (inv.places t))
        tt
  sync-Stepped (deq_start c) here =
      set_deq-Stepped inv t here (deq_read c) refl refl refl refl refl tt
  sync-Stepped (deq_wait c p v) here =
      set_enq-Stepped inv t here (deq_retail c p v) refl refl refl refl refl
        (λ e. (e, rw here at (inv.places t)))
  sync-Stepped (deq_release c p v) here =
      let (tail, held) : (s.world.queue.tail ≡ inv.end) × Held s.world inv.own t p =
        rw here at (inv.places t) in
      unset_enq-Stepped inv t here (deq_recycle c p v) refl refl refl refl refl tail held
  sync-Stepped (deq_unlock c r) here =
      unset_deq-Stepped inv t here (deq_done c r) refl refl refl refl refl tt
  sync-Stepped _ here = tt
