-- ===== src/LockFree/Ranges.antt =====
-- The loop variable of mm_wait_until_unreserved (Ex5.c) stays in the range of the arrays.
use amp_project.Base.{
  ℕ, ◌≤◌, ◌<◌, ◌≡◌, refl, sym, subst, false, Bool-cases, inl, inr, Option, none, some, [], ◌==◌,
  ◌||◌, not, arith,
}
use amp_project.Heap.{null}
use amp_project.Sequential.Memory.{Exec, fault, starved, ok, Cmd, follow, give}
use amp_project.Threads.{Outcome, update, update-each}
use amp_project.LockFree.{
  Counts, Result, Pc, outside, enq_begin, deq_begin, deq_retire, end_count, end_scan, end_spin,
  end_reclaim, done, State, Env, is_odd, end_test, after, either, access, manage, step_at, step,
  Call, enqueue, dequeue, entry, call,
}
use amp_project.LockFree.Places.{waits, Ends, Accessed, access-Accessed}
use amp_project.LockFree.Indices.{at_entry-either, scanned, scan-either}
use amp_project.LockFree.Counters.{Possibly}

-- A round begins at an index up to `n`, and waits at one below.
abbrev pub InRange : (n : ℕ) → Pc → Type 0
InRange n (end_scan k r i) = i ≤ n
InRange n (end_spin k r i v) = i < n
InRange n _ = Unit {0}

abbrev pub AllInRange : (n : ℕ) → State → Type 0
AllInRange n s = (t : ℕ) → InRange n (s.threads t)

not_waiting : (n : ℕ) (pc : Pc) → waits pc ≡ false → InRange n pc
not_waiting n (end_scan k r i) w = cc w
not_waiting n (end_spin k r i v) w = cc w
not_waiting n outside w = tt
not_waiting n _ w = tt

module _ (n t : ℕ) (s : State) (all : AllInRange n s) where
  placed-AllInRange : (pc : Pc) → InRange n pc → (u : ℕ) → InRange n (update s.threads t pc u)
  placed-AllInRange pc new = update-each (λ u p. InRange n p) s.threads t pc new λ u ne. all u

  after-AllInRange :
      (s1 : State) (r : Exec Pc)
      → s1.threads ≡ s.threads
      → Ends r
      → Possibly (AllInRange n) (after t s1 r)
  after-AllInRange s1 fault e f = tt
  after-AllInRange s1 starved e f = tt
  after-AllInRange s1 (ok pc w) e (i, w') =
      subst (λ f. (u : ℕ) → InRange n (update f t pc u)) (sym e)
        (placed-AllInRange pc (not_waiting n pc w'))

  either-AllInRange :
      (pc : Pc) (o : Option (Cmd Pc)) (managed : Outcome State)
      → Accessed pc o
      → Possibly (AllInRange n) managed
      → Possibly (AllInRange n) (either t s o managed)
  either-AllInRange pc none managed a m = m
  either-AllInRange pc (some c) managed (i, cl, ends) m =
      after-AllInRange s (c s.world) refl (ends s.world)

  scanned-InRange : (k : Counts) (r : Result) (i : ℕ) → i ≤ n → InRange n (scanned t n s.ctr k r i)
  scanned-InRange k r i le = elim (Bool-cases (i == n)) [
    | inl last ↦ rw last tt
    | inr more ↦ rw more (elim (Bool-cases (i == t || not (is_odd (s.ctr i)))) [
      | inl pass ↦ rw pass (ground arith)
      | inr stop ↦ rw stop (ground arith)
    ])
  ]

  reclaimed-AllInRange :
      (k : Counts) (r : Result) (s1 : State) (c : Exec (Option ℕ))
      → s1.threads ≡ s.threads
      → Possibly
          (AllInRange n)
          (after t s1 (follow (λ c. give (done (record k { inserted = c }) r)) c))
  reclaimed-AllInRange k r s1 fault e = tt
  reclaimed-AllInRange k r s1 starved e = tt
  reclaimed-AllInRange k r s1 (ok c w) e =
      subst (λ f. (u : ℕ) → InRange n (update f t (done (record k { inserted = c }) r) u)) (sym e)
        (placed-AllInRange (done (record k { inserted = c }) r) tt)

  module _ (size : s.world.queue.num_threads ≡ n) (e : Env) where
    manage-AllInRange : (pc : Pc) → s.threads t ≡ pc → Possibly (AllInRange n) (manage e t pc s)
    unfolding manage
    manage-AllInRange (enq_begin k v) here =
        at_entry-either (Possibly (AllInRange n)) t s tt λ _. placed-AllInRange _ tt
    manage-AllInRange (deq_begin k) here =
        at_entry-either (Possibly (AllInRange n)) t s tt λ _. placed-AllInRange _ tt
    manage-AllInRange (deq_retire k f v) here = elim (Bool-cases (e.block.addr == null)) [
      | inl nul ↦ rw nul tt
      | inr got ↦
          rw got (at_entry-either (Possibly (AllInRange n)) t s tt λ _. placed-AllInRange _ tt)
    ]
    manage-AllInRange (end_count k r) here =
        at_entry-either (Possibly (AllInRange n)) t s tt
          λ _. placed-AllInRange _ (counted (s.retired_count t) k r)
      where
        counted : (c : ℕ) (k : Counts) (r : Result) → InRange n (end_test c k r)
        counted c k r = ground arith
    manage-AllInRange (end_scan k r i) here =
        let le : i ≤ n = subst (InRange n) here (all t) in
        scan-either t k r i s (Possibly (AllInRange n)) tt (
          placed-AllInRange _ (
            subst (λ m. InRange n (scanned t m s.ctr k r i)) (sym size) (scanned-InRange k r i le)))
    manage-AllInRange (end_spin k r i v) here =
        let lt : i < n = subst (InRange n) here (all t) in
        at_entry-either (Possibly (AllInRange n)) i s tt λ _.
          placed-AllInRange _ (elim (Bool-cases (s.ctr i == v)) [
            | inl same ↦ rw same lt
            | inr left ↦ rw left (omega arith)
          ])
    manage-AllInRange (end_reclaim k r) here = at_entry-either (Possibly (AllInRange n)) t s tt λ _.
        reclaimed-AllInRange k r
          (record s { retired = update s.retired t []; retired_count = update s.retired_count t 0 })
          _ refl
    manage-AllInRange _ here = tt

    pub step-AllInRange : Possibly (AllInRange n) (step e t s)
    unfolding step step_at
    step-AllInRange =
        either-AllInRange (s.threads t) (access e t (s.threads t)) (manage e t (s.threads t) s)
          (access-Accessed e t (s.threads t)) (manage-AllInRange (s.threads t) refl)

  pub call-AllInRange : (c : Call) → AllInRange n (call t c s)
  unfolding call entry
  call-AllInRange (enqueue k v) = placed-AllInRange _ tt
  call-AllInRange (dequeue k) = placed-AllInRange _ tt
