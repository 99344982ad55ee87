-- ===== src/Lending/Examples.antt =====
-- library.c at concrete inputs: tests, and the theorems at inputs that meet their hypotheses.
use amp_project.Base.{◌≡◌, refl, none, [], ◌∷◌, arith, replicate}
use amp_project.Lending.{turn, random_bench1, stocked, new_reader, reduce_counters, reported}
use amp_project.Lending.Turn.{Turned, turn-Turned}
use amp_project.Lending.Alone.{IsAlone, random_bench1-ends}
use amp_project.Lending.System.{
  Room, take_turn, Reach, start, next, Inv, Reach-Inv, Progress, no_deadlock,
}

-- One reader, one return: twenty turns empty the shelf, the next one gives a copy back.
one_return : (random_bench1 1 (replicate 42 0) stocked new_reader).1.counters.successful_lends ≡ 20
unfolding random_bench1
one_return = refl

start-IsAlone : IsAlone 20 stocked new_reader
start-IsAlone = omega arith

random_bench1-ends_example :
    IsAlone 20
      (random_bench1 1 (replicate 42 0) stocked new_reader).0
      (random_bench1 1 (replicate 42 0) stocked new_reader).1
    × ((random_bench1 1 (replicate 42 0) stocked new_reader).1.i ≡ 1)
random_bench1-ends_example =
    random_bench1-ends 1 (replicate 42 0) (omega arith) start-IsAlone (omega arith) (omega arith)

abbrev after_turn : Room
after_turn = record {
  library = (turn 0 stocked new_reader).0;
  readers = (turn 0 stocked new_reader).1 ∷ new_reader ∷ [];
}

after_turn-Reach : Reach 2 1 after_turn
after_turn-Reach = next start (take_turn 0 0 refl (omega arith))

turn-Turned_example :
    Turned stocked new_reader (turn 7 stocked new_reader).0 (turn 7 stocked new_reader).1
turn-Turned_example = turn-Turned 7 stocked new_reader

Reach-Inv_example : Inv 1 after_turn
Reach-Inv_example = Reach-Inv after_turn-Reach

no_deadlock_example : Progress 1 after_turn
no_deadlock_example = no_deadlock after_turn-Reach 1 refl (omega arith)

-- With one thread the totals are undefined already.
reported_undefined : reported (new_reader.counters ∷ []) ≡ (none, none)
unfolding reduce_counters
reported_undefined = refl
