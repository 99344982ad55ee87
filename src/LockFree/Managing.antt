-- ===== src/LockFree/Managing.antt =====
-- The steps of the memory management of Ex5.c but the last, which gives nodes back.
use amp_project.Base.{
  ℕ, ◌+◌, ◌≤◌, ◌<◌, ◌≡◌, ◌≢◌, refl, sym, ◌∙◌, ap, subst, Bool, true, false, Bool-cases, inl, inr,
  some, List, [], ◌∷◌, ◌==◌, if◌then◌else◌, arith, ℕ_discrete, length,
}
use amp_project.Heap.{Ptr, null, Value, Alloc}
use amp_project.Sequential.Memory.{World}
use amp_project.Sequential.Others.{Held, Untouched-refl}
use amp_project.Threads.{Outcome, broken, blocked, moved, Follows, update, update_self, update_ne}
use amp_project.LockFree.{
  Counts, Result, dequeued, Pc, outside, enq_begin, enq_alloc, deq_begin, deq_head, deq_retire,
  end_count, end_scan, end_spin, end_reclaim, done, State, Env, is_odd, count_up, end_test, goto,
  access, manage, step_at, busy, event,
}
use amp_project.LockFree.Indices.{at_entry-lt, scanned, scan-le}
use amp_project.LockFree.Places.{in_op, in_op-busy}
use amp_project.LockFree.Counters.{AllKept}
use amp_project.LockFree.Grace.{Behind, After, waiting-step}
use amp_project.LockFree.Invariant.{Ghost, Guard, Departed, Place, Inv}
use amp_project.LockFree.Stable.{Stable, Stable-same}
use amp_project.LockFree.Change.{Change-Inv, Departed-keep}

-- A step is undefined behaviour only if `malloc` gave NULL, and has the effect that its event says.
abbrev pub Stepped : Alloc → ℕ → State → List Value → ℕ → Outcome State → Type 0
Stepped m n s xs t broken = m.addr ≡ null
Stepped m n s xs t blocked = Unit {0}
Stepped m n s xs t (moved s') =
    (xs' : List Value) × Follows (event t (s.threads t) (s'.threads t)) xs xs' × Inv n s' xs'

Behind-Guard :
    (u c : ℕ) (rs : List Ptr) (p : Ptr) (pc : Pc) → Behind u c pc → rs ≡ p ∷ [] → Guard u c pc rs p
Behind-Guard u c rs p (end_scan k r i) b one = (one, b)
Behind-Guard u c rs p (end_spin k r i v) b one = (one, b)
Behind-Guard u c rs p outside b one = absurd b
Behind-Guard u c rs p _ b one = absurd b

module _ {n : ℕ} {s : State} {xs : List Value} (inv : Inv n s xs) (t : ℕ) {pc : Pc}
    (here : s.threads t ≡ pc) where
  abbrev managed : (ℕ → ℕ) → (ℕ → List Ptr) → (ℕ → ℕ) → Pc → State
  managed ctr rs counts pc' = record s {
    ctr = ctr;
    retired = rs;
    retired_count = counts;
    threads = update s.threads t pc';
  }

  -- The memory stays as it is.
  managed-Stepped :
      (m : Alloc) (pc' : Pc) (ctr : ℕ → ℕ) (rs : ℕ → List Ptr) (counts : ℕ → ℕ)
      (gone : ℕ → Ptr → Bool)
      → busy pc ≡ true
      → event t pc pc' ≡ []
      → ((u : ℕ) → u ≢ t → ctr u ≡ s.ctr u)
      → ((u : ℕ) → u ≢ t → rs u ≡ s.retired u)
      → ((u : ℕ) → u ≢ t → gone u ≡ inv.ghost.gone u)
      → Place s.world (record (inv.ghost) { gone = gone }) t pc'
      → ((p : Ptr) → rs t ≡ p ∷ [] → Held s.world inv.ghost.own t p)
      → ((u : ℕ) (p : Ptr)
          → u ≢ t
          → in_op (s.threads u) ≡ true
          → Guard u (s.ctr u) pc (s.retired t) p
          → Guard u (s.ctr u) pc' (rs t) p)
      → ((p : Ptr)
          → in_op pc' ≡ true
          → gone t p ≡ true
          → Departed (managed ctr rs counts pc') (record (inv.ghost) { gone = gone }) t p)
      → Stepped m n s xs t (moved (managed ctr rs counts pc'))
  managed-Stepped m pc' ctr rs counts gone active quiet same_ctr same_rs same_gone place mine guard
        own =
      (
        xs,
        (λ log e. rw (here, update_self s.threads t pc', quiet) e),
        Change-Inv inv t here (record {
          ghost = record (inv.ghost) { gone = gone };
          end = inv.end;
          pool = inv.pool;
          sentinel = inv.sentinel;
          layout = inv.layout;
          contents = inv.contents;
          at_tail = inv.at_tail;
          active = active;
          threads = refl;
          retired = same_rs;
          spares = Untouched-refl (λ a. refl);
          stable = λ u ne i. stable u ne;
          place = place;
          mine = mine;
          departed = departed;
        }),
      )
    where
      stable :
          (u : ℕ) → u ≢ t → Stable s.world inv.ghost s.world (record (inv.ghost) { gone = gone }) u
      stable u ne = Stable-same refl refl refl (same_gone u ne) (λ p i. (refl, refl))

      departed :
          (u : ℕ) (p : Ptr)
          → in_op (update s.threads t pc' u) ≡ true
          → gone u p ≡ true
          → Departed (managed ctr rs counts pc') (record (inv.ghost) { gone = gone }) u p
      departed u p i g = elim (ℕ_discrete u t) [
        | yes e ↦
            subst
              (λ b. Departed (managed ctr rs counts pc') (record (inv.ghost) { gone = gone }) b p)
              (sym e)
              (own p
                (subst (λ b. in_op b ≡ true)
                  (ap (update s.threads t pc') e ∙ update_self s.threads t pc') i)
                (subst (λ b. gone b p ≡ true) e g))
        | no ne ↦
            let was : in_op (s.threads u) ≡ true = rw (update_ne s.threads t u pc' ne) at i in
            let before : inv.ghost.gone u p ≡ true = rw (← same_gone u ne) g in
            Departed-keep inv t here pc' {s' = managed ctr rs counts pc'}
              {g' = record (inv.ghost) { gone = gone }} refl same_rs u p (same_ctr u ne)
              (stable u ne) was before (guard u p ne was)
      ]

idle-Place : (w : World) (g : Ghost) (u : ℕ) (pc : Pc) → in_op pc ≡ false → Place w g u pc
idle-Place w g u outside e = tt
idle-Place w g u (enq_begin k v) e = tt
idle-Place w g u (deq_begin k) e = tt
idle-Place w g u (end_scan k r i) e = tt
idle-Place w g u (end_spin k r i v) e = tt
idle-Place w g u (end_reclaim k r) e = tt
idle-Place w g u (done k r) e = tt
idle-Place w g u _ e = cc e

module _ {n : ℕ} {s : State} {xs : List Value} (inv : Inv n s xs) (all : AllKept s) (t : ℕ)
    (e : Env) where
  -- A thread in a call has its entry in each array.
  own_entry :
      s.world.queue.num_threads ≡ n
      → {pc : Pc} → s.threads t ≡ pc
      → busy pc ≡ true
      → t < s.world.queue.num_threads
  own_entry size here active = rw size (inv.known t (rw here active))

  -- mm_op_begin: no node is gone for the new operation.
  begin-Stepped :
      (pc pc' : Pc)
      → s.threads t ≡ pc
      → busy pc ≡ true
      → event t pc pc' ≡ []
      → ((u c : ℕ) (rs : List Ptr) (p : Ptr) → Guard u c pc rs p → ⊥)
      → Place s.world (record (inv.ghost) { gone = update inv.ghost.gone t (λ _. false) }) t pc'
      → Stepped e.block n s xs t
          (moved (record s { ctr = count_up t s.ctr; threads = update s.threads t pc' }))
  begin-Stepped pc pc' here active quiet free place =
      managed-Stepped inv t here e.block pc' (count_up t s.ctr) s.retired s.retired_count
        (update inv.ghost.gone t (λ _. false)) active quiet (λ u ne. update_ne s.ctr t u _ ne)
        (λ u ne. refl) (λ u ne. update_ne inv.ghost.gone t u _ ne) place (inv.retired t)
        (λ u p ne i g. absurd (free u _ _ p g))
        (λ p i g. absurd (let no = ap (λ f. f p) (update_self inv.ghost.gone t (λ _. false)) in cc))

  -- A step within mm_wait_until_unreserved.
  wait-Stepped :
      (pc pc' : Pc)
      → s.threads t ≡ pc
      → busy pc ≡ true
      → event t pc pc' ≡ []
      → in_op pc' ≡ false
      → ((u : ℕ) (p : Ptr)
          → u ≢ t
          → in_op (s.threads u) ≡ true
          → Guard u (s.ctr u) pc (s.retired t) p
          → Guard u (s.ctr u) pc' (s.retired t) p)
      → Stepped e.block n s xs t (moved (record s { threads = update s.threads t pc' }))
  wait-Stepped pc pc' here active quiet idle guard =
      managed-Stepped inv t here e.block pc' s.ctr s.retired s.retired_count inv.ghost.gone active
        quiet (λ u ne. refl) (λ u ne. refl) (λ u ne. refl) (idle-Place s.world inv.ghost t pc' idle)
        (inv.retired t) guard (λ p i g. cc (i, idle))

  module _ (size : s.world.queue.num_threads ≡ n) where
    -- A thread in an operation is one that the wait stops at.
    still_waiting :
        (pc pc' : Pc)
        → step_at e t pc s ≡ moved (record s { threads = update s.threads t pc' })
        → (u : ℕ) → u ≢ t
        → in_op (s.threads u) ≡ true
        → Behind u (s.ctr u) pc
        → Behind u (s.ctr u) pc'
    still_waiting pc pc' moves u ne i b =
        let odd : is_odd (s.ctr u) ≡ true = (all u).parity ∙ i in
        let lt : u < s.world.queue.num_threads =
          rw size (inv.known u (in_op-busy (s.threads u) i)) in
        let after =
          subst (After u (s.ctr u) t (s.retired t)) moves
            (waiting-step e t u (s.ctr u) s ne odd refl lt pc b) in
        subst (Behind u (s.ctr u)) (update_self s.threads t pc') after.0

    pub scan-Stepped :
        (k : Counts) (r : Result) (i : ℕ)
        → s.threads t ≡ end_scan k r i
        → i ≤ s.world.queue.num_threads
        → Stepped e.block n s xs t (manage e t (end_scan k r i) s)
    unfolding manage step_at access event
    scan-Stepped k r i here le =
        let pc' = scanned t s.world.queue.num_threads s.ctr k r i in
        let is = scan-le t k r i s le in
        rw is (
          wait-Stepped (end_scan k r i) pc' here refl refl (ground arith) (λ u p ne j (one, b).
            Behind-Guard u (s.ctr u) (s.retired t) p pc'
              (still_waiting (end_scan k r i) pc' is u ne j b) one))

    pub spin-Stepped :
        (k : Counts) (r : Result) (i c : ℕ)
        → s.threads t ≡ end_spin k r i c
        → i < s.world.queue.num_threads
        → Stepped e.block n s xs t (manage e t (end_spin k r i c) s)
    unfolding manage step_at access event
    spin-Stepped k r i c here lt =
        let pc' : Pc = if s.ctr i == c then end_spin k r i c else end_scan k r (i + 1) in
        let is = at_entry-lt i s (goto t pc' s) lt in
        rw is (
          wait-Stepped (end_spin k r i c) pc' here refl refl (ground arith) (λ u p ne j (one, b).
            Behind-Guard u (s.ctr u) (s.retired t) p pc'
              (still_waiting (end_spin k r i c) pc' is u ne j b) one))

  pub begin_enq-Stepped :
      (k : Counts) (v : Value)
      → s.threads t ≡ enq_begin k v
      → s.world.queue.num_threads ≡ n
      → Stepped e.block n s xs t (manage e t (enq_begin k v) s)
  unfolding manage event
  begin_enq-Stepped k v here size =
      rw (at_entry-lt t s _ (own_entry size here refl))
        (begin-Stepped (enq_begin k v) (enq_alloc k v) here refl refl (λ u c rs p g. absurd g) tt)

  pub begin_deq-Stepped :
      (k : Counts)
      → s.threads t ≡ deq_begin k
      → s.world.queue.num_threads ≡ n
      → Stepped e.block n s xs t (manage e t (deq_begin k) s)
  unfolding manage event
  begin_deq-Stepped k here size =
      rw (at_entry-lt t s _ (own_entry size here refl))
        (begin-Stepped (deq_begin k) (deq_head k) here refl refl (λ u c rs p g. absurd g) tt)

  -- mm_retire
  pub retire-Stepped :
      (k : Counts) (f : Ptr) (v : Value)
      → s.threads t ≡ deq_retire k f v
      → s.world.queue.num_threads ≡ n
      → Stepped e.block n s xs t (manage e t (deq_retire k f v) s)
  unfolding manage event
  retire-Stepped k f v here size = elim (Bool-cases (e.block.addr == null)) [
    | inl nul ↦ let is_null : e.block.addr ≡ null = ground arith in rw nul is_null
    | inr got ↦
        let held : Held s.world inv.ghost.own t f = rw here at (inv.places t) in
        rw (got, at_entry-lt t s _ (own_entry size here refl))
          (managed-Stepped inv t here e.block pc' s.ctr (update s.retired t (f ∷ s.retired t))
            (update s.retired_count t (s.retired_count t + 1)) inv.ghost.gone refl refl
            (λ u ne. refl) same_rs (λ u ne. refl) tt
            (λ p one. subst (Held s.world inv.ghost.own t) (cc (retired, one)) held)
            (λ u p ne i g. retired ∙ ap (λ z. z ∷ []) g)
            (λ p i g.
              Departed-keep inv t here pc' refl same_rs t p refl
                (Stable-same refl refl refl refl (λ q j. (refl, refl))) (rw here refl) g
                (λ g. retired ∙ ap (λ z. z ∷ []) g)))
  ]
    where
      pc' : Pc
      pc' = end_count k (dequeued (some v))

      same_rs : (u : ℕ) → u ≢ t → update s.retired t (f ∷ s.retired t) u ≡ s.retired u
      same_rs u ne = update_ne s.retired t u _ ne

      empty : (rs : List Ptr) → length rs ≡ 0 → rs ≡ []
      empty [] e = refl
      empty (p ∷ rs) e = absurd (omega arith)

      retired : update s.retired t (f ∷ s.retired t) t ≡ f ∷ []
      retired =
          let kept = all t in
          update_self s.retired t (f ∷ s.retired t)
          ∙ ap (λ z. f ∷ z) (empty (s.retired t) (kept.none_retired (rw here refl)))

  -- mm_op_end, the counter
  pub count-Stepped :
      (k : Counts) (r : Result)
      → s.threads t ≡ end_count k r
      → s.world.queue.num_threads ≡ n
      → Stepped e.block n s xs t (manage e t (end_count k r) s)
  unfolding manage event
  count-Stepped k r here size = rw (at_entry-lt t s _ (own_entry size here refl)) (
      managed-Stepped inv t here e.block (end_test (s.retired_count t) k r) (count_up t s.ctr)
        s.retired s.retired_count inv.ghost.gone refl refl (λ u ne. update_ne s.ctr t u _ ne)
        (λ u ne. refl) (λ u ne. refl)
        (idle-Place s.world inv.ghost t (end_test (s.retired_count t) k r) idle) (inv.retired t)
        (λ u p ne i one.
          let kept = all t in
          let some_retired : (s.retired_count t == 0) ≡ false =
            (let c = kept.counted in let l = ap length one in ground arith) in
          rw some_retired (one, omega arith))
        (λ p i g. cc (i, idle)))
    where
      idle : in_op (end_test (s.retired_count t) k r) ≡ false
      idle = ground arith
