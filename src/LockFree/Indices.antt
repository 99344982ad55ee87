-- ===== src/LockFree/Indices.antt =====
-- The indices into `Q->ctr`, `Q->retired` and `Q->retired_count` of Ex5.c.
use amp_project.Base.{
  ℕ, ◌+◌, ◌≤◌, ◌<◌, ◌≡◌, refl, true, Bool-cases, inl, inr, ◌==◌, ◌||◌, not, ltb, if◌then◌else◌,
  arith,
}
use amp_project.Threads.{Outcome, broken}
use amp_project.LockFree.{
  Counts, Result, Pc, end_scan, end_spin, end_reclaim, State, is_odd, goto, at_entry, scan,
}

-- Where a round of the wait leads, for an index in range.
abbrev pub scanned : (tid n : ℕ) → (ℕ → ℕ) → Counts → Result → ℕ → Pc
scanned tid n ctr k r i =
    if i == n
    then end_reclaim k r
    else (if i == tid || not (is_odd (ctr i)) then end_scan k r (i + 1) else end_spin k r i (ctr i))

-- An access in range does what it does.
pub at_entry-lt :
    (i : ℕ) (s : State) (o : Outcome State) → i < s.world.queue.num_threads → at_entry i s o ≡ o
at_entry-lt i s o lt = ground arith

-- What holds of undefined behaviour and of the access in range holds of an access.
pub at_entry-either :
    (P : Outcome State → Type 0) (i : ℕ) (s : State) {o : Outcome State}
    → P broken
    → (i < s.world.queue.num_threads → P o)
    → P (at_entry i s o)
at_entry-either P i s out inside = elim (Bool-cases (ltb i s.world.queue.num_threads)) [
  | inl lt ↦ rw lt (inside (ground arith))
  | inr ge ↦ rw ge out
]

module _ (t : ℕ) (k : Counts) (r : Result) (i : ℕ) (s : State) where
  abbrev round : Outcome State
  round = goto t (scanned t s.world.queue.num_threads s.ctr k r i) s

  pub scan-le : i ≤ s.world.queue.num_threads → scan t k r i s ≡ round
  unfolding scan
  scan-le le = elim (Bool-cases (i == s.world.queue.num_threads)) [
    | inl last ↦ rw last refl
    | inr more ↦ rw more (elim (Bool-cases (i == t)) [
      | inl own ↦ rw own refl
      | inr other ↦
          let inside : ltb i s.world.queue.num_threads ≡ true = ground arith in
          rw (other, inside)
            (elim (Bool-cases (is_odd (s.ctr i))) [
              | inl odd ↦ rw odd refl
              | inr even ↦ rw even refl
            ])
    ])
  ]

  -- A round is undefined behaviour, or as in range.
  pub scan-either : (P : Outcome State → Type 0) → P broken → P round → P (scan t k r i s)
  unfolding scan
  scan-either P out inside = elim (Bool-cases (i == s.world.queue.num_threads)) [
    | inl last ↦ rw last (rw last at inside)
    | inr more ↦
        let inside' = rw more at inside in
        rw more (elim (Bool-cases (i == t)) [
          | inl own ↦ rw own (rw own at inside')
          | inr other ↦ rw other (
              at_entry-either P i s out (λ lt. elim (Bool-cases (is_odd (s.ctr i))) [
                | inl odd ↦ rw odd (rw (other, odd) at inside')
                | inr even ↦ rw even (rw (other, even) at inside')
              ]))
        ])
  ]
