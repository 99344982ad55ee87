-- ===== src/Lending/Alone.antt =====
-- One thread alone on the library.
use amp_project.Base.{
  ℕ, ◌+◌, ◌*◌, ◌<◌, ◌≤◌, ◌≡◌, List, [], ◌∷◌, ltb, arith, length, Bool-cases, inl, inr,
}
use amp_project.Lending.{Library, Reader, turn, random_bench1}
use amp_project.Lending.Turn.{turn-Turned, turn-failed, chosen}

-- Every copy of the two books is in the library or with the reader, who has not failed a turn.
pub record IsAlone (copies : ℕ) (l : Library) (r : Reader) : Type 0 where
  pub art : l.art_of_multiprocessor_programming + r.herlihy_shavit_luchangco_spear ≡ copies
  pub c : l.the_c_programming_language + r.kernigham_ritchie ≡ copies
  pub held :
      r.counters.successful_lends ≡ r.i + r.herlihy_shavit_luchangco_spear + r.kernigham_ritchie
  pub no_failure : r.counters.failed_turns ≡ 0

turn-IsAlone :
    {copies : ℕ} (choice : ℕ) {l : Library} {r : Reader}
    → 0 < copies
    → IsAlone copies l r
    → IsAlone copies (turn choice l r).0 (turn choice l r).1
turn-IsAlone choice {l} {r} some_copy a =
    let t = turn-Turned choice l r in
    let some_chosen : 0 < chosen choice l r = ground (arith, a.art, a.c) in
    let same = (turn-failed choice l r).1 some_chosen in
    omega (arith, a.art, a.c, a.held, a.no_failure, t.art_kept, t.c_kept, t.balance, same)

-- Alone, the loop ends: no turn fails, and with `copies` of each book `2 * times + 2 * copies` turns
-- are enough for `times` returns.
pub random_bench1-ends :
    {copies : ℕ} (times : ℕ) (choices : List ℕ) {l : Library} {r : Reader}
    → 0 < copies
    → IsAlone copies l r
    → 2 * times + 2 * copies ≤ length choices + r.counters.successful_lends + r.i
    → r.i ≤ times
    → let (l', r') = random_bench1 times choices l r in IsAlone copies l' r' × (r'.i ≡ times)
unfolding random_bench1
random_bench1-ends times [] some_copy a enough le = (a, omega (arith, a.art, a.c, a.held))
random_bench1-ends times (c ∷ cs) {l} {r} some_copy a enough le =
    elim (Bool-cases (ltb r.i times)) [
      | inl more ↦
          let t = turn-Turned c l r in
          let a' = turn-IsAlone c some_copy a in
          rw more (
            random_bench1-ends times cs some_copy a'
              (omega (arith, t.counted, a.no_failure, a'.no_failure))
              (ground (arith, t.small_step)))
      | inr done ↦ rw done (a, ground arith)
    ]
