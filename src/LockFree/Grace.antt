-- ===== src/LockFree/Grace.antt =====
-- The wait of mm_op_end (Ex5.c): no node is given back while a thread stays in its operation.
use amp_project.Base.{
  ℕ, ◌≤◌, ◌<◌, ◌≡◌, ◌≢◌, refl, sym, ◌∙◌, ap, subst, true, false, Bool-cases, Option, none, some,
  List, [], ◌∷◌, ◌==◌, ◌||◌, not, ◌⊎◌, inl, inr, arith, ℕ_discrete,
}
use amp_project.Heap.{Ptr, null}
use amp_project.Sequential.Memory.{Exec, fault, starved, ok, Cmd}
use amp_project.Threads.{Outcome, broken, blocked, moved, update, update_self, update_ne}
use amp_project.LockFree.{
  Counts, Result, Pc, outside, enq_begin, deq_begin, deq_retire, end_count, end_scan, end_spin,
  end_reclaim, State, Env, is_odd, after, either, access, manage, step_at, step, Call, entry, busy,
  call,
}
use amp_project.LockFree.Indices.{at_entry-either, scanned, scan-either}
use amp_project.LockFree.Sizes.{Same, step-Same}

-- A step of thread `t` changes no other thread's place and no other thread's retired nodes.
abbrev Only : State → ℕ → Outcome State → Type 0
Only s t broken = Unit {0}
Only s t blocked = Unit {0}
Only s t (moved s') =
    ((pc : Pc) × (s'.threads ≡ update s.threads t pc))
    × ((u : ℕ) → u ≢ t → s'.retired u ≡ s.retired u)

after-Only :
    (s s1 : State) (t : ℕ) (r : Exec Pc)
    → s1.threads ≡ s.threads
    → ((u : ℕ) → u ≢ t → s1.retired u ≡ s.retired u)
    → Only s t (after t s1 r)
after-Only s s1 t fault e f = tt
after-Only s s1 t starved e f = tt
after-Only s s1 t (ok pc w) e f = ((pc, ap (λ g. update g t pc) e), f)

manage-Only : (e : Env) (t : ℕ) (pc : Pc) (s : State) → Only s t (manage e t pc s)
unfolding manage
manage-Only e t (deq_retire k first v) s = elim (Bool-cases (e.block.addr == null)) [
  | inl nul ↦ rw nul tt
  | inr got ↦ rw got (
      at_entry-either (Only s t) t s tt
        λ _. ((_, refl), (λ u ne. update_ne s.retired t u (first ∷ s.retired t) ne)))
]
manage-Only e t (end_reclaim k r) s = at_entry-either (Only s t) t s tt λ _.
    after-Only s
      (record s { retired = update s.retired t []; retired_count = update s.retired_count t 0 }) t _
      refl (λ u ne. update_ne s.retired t u [] ne)
manage-Only e t (enq_begin k v) s =
    at_entry-either (Only s t) t s tt λ _. ((_, refl), (λ u ne. refl))
manage-Only e t (deq_begin k) s = at_entry-either (Only s t) t s tt λ _. ((_, refl), (λ u ne. refl))
manage-Only e t (end_count k r) s =
    at_entry-either (Only s t) t s tt λ _. ((_, refl), (λ u ne. refl))
manage-Only e t (end_scan k r i) s = scan-either t k r i s (Only s t) tt ((_, refl), (λ u ne. refl))
manage-Only e t (end_spin k r i v) s =
    at_entry-either (Only s t) i s tt λ _. ((_, refl), (λ u ne. refl))
manage-Only e t _ s = tt

either-Only :
    (s : State) (t : ℕ) (o : Option (Cmd Pc)) (managed : Outcome State)
    → Only s t managed
    → Only s t (either t s o managed)
either-Only s t none managed m = m
either-Only s t (some c) managed m = after-Only s s t (c s.world) refl (λ u ne. refl)

step-Only : (e : Env) (t : ℕ) (s : State) → Only s t (step e t s)
unfolding step step_at
step-Only e t s =
    either-Only s t (access e t (s.threads t)) (manage e t (s.threads t) s)
      (manage-Only e t (s.threads t) s)

-- A thread in the loops of mm_wait_until_unreserved that has not passed thread `u`, and that, if it
-- waits for `u`, read the counter `c`
abbrev pub Behind : (u c : ℕ) → Pc → Type 0
Behind u c (end_scan k r i) = i ≤ u
Behind u c (end_spin k r i v) = (i < u) ⊎ ((i ≡ u) × (v ≡ c))
Behind u c _ = ⊥

-- Sequences of calls and steps of any threads in which the counter of thread `u` is `c` all the time.
pub data Stays (u c : ℕ) (s : State) : State → Type 0 where
  here : s.ctr u ≡ c → Stays u c s s
  invoked :
      {s1 : State}
      → Stays u c s s1
      → (t : ℕ) (a : Call) → busy (s1.threads t) ≡ false
      → Stays u c s (call t a s1)
  stepped :
      {s1 s2 : State}
      → Stays u c s s1
      → (t : ℕ) (e : Env) → step e t s1 ≡ moved s2
      → s2.ctr u ≡ c
      → Stays u c s s2

-- What holds of the waiting thread `t`, with its retired nodes `ps`.
abbrev pub Waiting : (u c t : ℕ) → List Ptr → State → Type 0
Waiting u c t ps s = Behind u c (s.threads t) × (s.retired t ≡ ps)

abbrev pub After : (u c t : ℕ) → List Ptr → Outcome State → Type 0
After u c t ps (moved s) = Waiting u c t ps s
After u c t ps _ = Unit {0}

-- A step of the thread that waits.
module _ (e : Env) (t u c : ℕ) (s : State) (ne : u ≢ t) (odd : is_odd c ≡ true)
    (there : s.ctr u ≡ c) (lt : u < s.world.queue.num_threads) where
  scan_before :
      (k : Counts) (r : Result) (i : ℕ)
      → i < u
      → Behind u c (scanned t s.world.queue.num_threads s.ctr k r i)
  scan_before k r i less =
      let inside : (i == s.world.queue.num_threads) ≡ false = ground arith in
      rw inside (elim (Bool-cases (i == t || not (is_odd (s.ctr i)))) [
        | inl pass ↦ rw pass (omega arith)
        | inr stop ↦ rw stop (inl less)
      ])

  scan_at : (k : Counts) (r : Result) → Behind u c (scanned t s.world.queue.num_threads s.ctr k r u)
  scan_at k r =
      let inside : (u == s.world.queue.num_threads) ≡ false = ground arith in
      let other : (u == t) ≡ false = ground arith in
      let is_odd_u : is_odd (s.ctr u) ≡ true = ap is_odd there ∙ odd in
      rw (inside, other, is_odd_u) (inr (refl, there))

  pub waiting-step : (pc : Pc) → Behind u c pc → After u c t (s.retired t) (step_at e t pc s)
  unfolding step_at access manage
  waiting-step (end_scan k r i) b = scan-either t k r i s (After u c t (s.retired t)) tt (
    rw (update_self s.threads t (scanned t s.world.queue.num_threads s.ctr k r i))
        (elim (ℕ_discrete i u) [
          | yes e ↦
              subst (λ j. Behind u c (scanned t s.world.queue.num_threads s.ctr k r j)) (sym e)
                (scan_at k r)
          | no other ↦ scan_before k r i (omega arith)
        ]),
    refl,
  )
  waiting-step (end_spin k r i v) (inl less) =
      at_entry-either (After u c t (s.retired t)) i s tt λ _. (
        rw (update_self s.threads t) (elim (Bool-cases (s.ctr i == v)) [
          | inl same ↦ rw same (inl less)
          | inr left ↦ rw left (omega arith)
        ]),
        refl,
      )
  waiting-step (end_spin k r i v) (inr (same_u, read)) =
      let same : (s.ctr i == v) ≡ true =
        (let e : s.ctr i ≡ v = ap s.ctr same_u ∙ there ∙ sym read in ground arith) in
      at_entry-either (After u c t (s.retired t)) i s tt
        λ _. (rw (update_self s.threads t, same) (inr (same_u, read)), refl)
  waiting-step outside b = absurd b
  waiting-step _ b = absurd b

Behind-busy : (u c : ℕ) (pc : Pc) → Behind u c pc → busy pc ≡ true
Behind-busy u c (end_scan k r i) b = refl
Behind-busy u c (end_spin k r i v) b = refl
Behind-busy u c _ b = absurd b

-- One step of any thread, seen from the waiting thread `t`.
module _ {u c t : ℕ} {ps : List Ptr} (s s' : State) (ne : u ≢ t) (odd : is_odd c ≡ true)
    (there : s.ctr u ≡ c) (lt : u < s.world.queue.num_threads) (b : Behind u c (s.threads t))
    (ret : s.retired t ≡ ps) where
  called-Waiting : (v : ℕ) (a : Call) → busy (s.threads v) ≡ false → Waiting u c t ps (call v a s)
  unfolding call
  called-Waiting v a idle = elim (ℕ_discrete v t) [
    | yes same ↦
        let working : busy (s.threads t) ≡ true = Behind-busy u c (s.threads t) b in
        absurd (
          let e : busy (s.threads t) ≡ false = subst (λ i. busy (s.threads i) ≡ false) same idle in
          cc)
    | no other ↦ (rw (update_ne s.threads v t (entry a) (λ e. other (sym e))) b, ret)
  ]

  stepped-Waiting : (v : ℕ) (e : Env) → step e v s ≡ moved s' → Waiting u c t ps s'
  unfolding step
  stepped-Waiting v e moves = elim (ℕ_discrete v t) [
    | yes same ↦
        let own : step e t s ≡ moved s' = subst (λ i. step e i s ≡ moved s') same moves in
        let (b', kept) =
          subst (After u c t (s.retired t)) own
            (waiting-step e t u c s ne odd there lt (s.threads t) b) in
        (b', kept ∙ ret)
    | no other ↦
        let ((pc, placed), kept) = subst (Only s v) moves (step-Only e v s) in
        let here : s'.threads t ≡ s.threads t =
          ap (λ f. f t) placed ∙ update_ne s.threads v t pc (λ e. other (sym e)) in
        (subst (Behind u c) (sym here) b, kept t (λ e. other (sym e)) ∙ ret)
  ]

-- While thread `t` waits and thread `u` stays in the operation that it was in when the wait began, `t`
-- does not get past `u`: it is still in the loops of mm_wait_until_unreserved, before `u` or waiting
-- for it, and its retired nodes are the same, none of them given back.
pub grace_period :
    {u c t : ℕ} {s s' : State} {k : Counts} {r : Result}
    → Stays u c s s'
    → u ≢ t
    → u < s.world.queue.num_threads
    → is_odd c ≡ true
    → s.threads t ≡ end_scan k r 0
    → Behind u c (s'.threads t) × (s'.retired t ≡ s.retired t)
unfolding call
grace_period {u} {c} {t} {s} {s'} path ne lt odd began = let (ctr, size, w) = held path in w
  where
    begin : Behind u c (s.threads t)
    begin = rw began (omega arith)

    held :
        {s1 : State}
        → Stays u c s s1
        → (s1.ctr u ≡ c)
          × (s1.world.queue.num_threads ≡ s.world.queue.num_threads)
          × Waiting u c t (s.retired t) s1
    held (here e) = (e, refl, (begin, refl))
    held (invoked {s1} p v a idle) =
        let (ctr, size, (b, ret)) = held p in
        (ctr, size, called-Waiting s1 s1 ne odd ctr (omega arith) b ret v a idle)
    held (stepped {s1} {s2} p v e moves stays) =
        let (ctr, size, (b, ret)) = held p in
        (
          stays,
          subst (Same s1.world.queue.num_threads) moves (step-Same e v s1) ∙ size,
          stepped-Waiting s1 s2 ne odd ctr (omega arith) b ret v e moves,
        )
