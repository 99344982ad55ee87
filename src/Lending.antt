-- ===== src/Lending.antt =====
-- project_skeleton/src/library.c: threads lend two books from a shared library. A count of books is
-- an `int` that never falls below 0, here a number.
pub mod Totals
pub mod Turn
pub mod Alone
pub mod System
mod Examples
use amp_project.Base.{
  ℕ, zero, suc, ◌+◌, ◌-◌, ◌^◌, Bool, true, false, List, [], ◌∷◌, ltb, if◌then◌else◌, Option, none,
  some,
}

-- `struct counters`
pub record Counters : Type 0 where
  pub failed_turns : ℕ
  pub successful_lends : ℕ

-- `struct one_thread_library`
pub record Library : Type 0 where
  pub art_of_multiprocessor_programming : ℕ
  pub the_c_programming_language : ℕ

pub lend_herlihyshavit_luchangco_spear : Library → Library × Bool
lend_herlihyshavit_luchangco_spear l =
    if ltb 0 l.art_of_multiprocessor_programming
    then (
      record l { art_of_multiprocessor_programming = l.art_of_multiprocessor_programming - 1 },
      true,
    )
    else (l, false)

pub return_herlihyshavit_luchangco_spear : Library → Library
return_herlihyshavit_luchangco_spear l = record l {
  art_of_multiprocessor_programming = l.art_of_multiprocessor_programming + 1;
}

pub lend_kernigham_ritchie : Library → Library × Bool
lend_kernigham_ritchie l =
    if ltb 0 l.the_c_programming_language
    then (record l { the_c_programming_language = l.the_c_programming_language - 1 }, true)
    else (l, false)

pub return_kernigham_ritchie : Library → Library
return_kernigham_ritchie l = record l {
  the_c_programming_language = l.the_c_programming_language + 1;
}

-- The locals of `random_bench1`: what the thread has lent, its counters, and its loop variable.
pub record Reader : Type 0 where
  pub herlihy_shavit_luchangco_spear : ℕ
  pub kernigham_ritchie : ℕ
  pub counters : Counters
  pub i : ℕ

abbrev pub lent : Counters → Counters
lent c = record c { successful_lends = c.successful_lends + 1 }

abbrev pub failed : Counters → Counters
failed c = record c { failed_turns = c.failed_turns + 1 }

-- The two branches of the critical section; each first tries to lend.
pub turn_herlihy : Library → Reader → Library × Reader
unfolding lend_herlihyshavit_luchangco_spear return_herlihyshavit_luchangco_spear
turn_herlihy l r =
    let (l', lending) = lend_herlihyshavit_luchangco_spear l in
    if lending
    then (
      l',
      record r {
        herlihy_shavit_luchangco_spear = r.herlihy_shavit_luchangco_spear + 1;
        counters = lent r.counters;
      },
    )
    else if ltb 0 r.herlihy_shavit_luchangco_spear
    then (
      return_herlihyshavit_luchangco_spear l',
      record r {
        herlihy_shavit_luchangco_spear = r.herlihy_shavit_luchangco_spear - 1;
        i = r.i + 1;
      },
    )
    else (l', record r { counters = failed r.counters })

pub turn_kernigham : Library → Reader → Library × Reader
unfolding lend_kernigham_ritchie return_kernigham_ritchie
turn_kernigham l r =
    let (l', lending) = lend_kernigham_ritchie l in
    if lending
    then (l', record r { kernigham_ritchie = r.kernigham_ritchie + 1; counters = lent r.counters })
    else if ltb 0 r.kernigham_ritchie
    then (
      return_kernigham_ritchie l',
      record r { kernigham_ritchie = r.kernigham_ritchie - 1; i = r.i + 1 },
    )
    else (l', record r { counters = failed r.counters })

-- One pass through the critical section, with the number that `random_r` drew.
pub turn : (choice : ℕ) → Library → Reader → Library × Reader
unfolding turn_herlihy turn_kernigham
turn choice l r = if ltb (2 ^ 30) choice then turn_herlihy l r else turn_kernigham l r

abbrev pub new_reader : Reader
new_reader = record {
  herlihy_shavit_luchangco_spear = 0;
  kernigham_ritchie = 0;
  counters = record { failed_turns = 0; successful_lends = 0 };
  i = 0;
}

-- `random_bench1` alone on the library: the loop, with the numbers that it draws, one for each turn.
pub random_bench1 : (times : ℕ) → (choices : List ℕ) → Library → Reader → Library × Reader
unfolding turn
random_bench1 times [] l r = (l, r)
random_bench1 times (c ∷ cs) l r =
    let (l', r') = turn c l r in
    let rest = random_bench1 times cs l' r' in if ltb r.i times then rest else (l, r)

abbrev pub stocked : Library
stocked = record { art_of_multiprocessor_programming = 20; the_c_programming_language = 20 }

-- `+=` on an `int`, where `none` is a value that was never written, or the result of a signed
-- overflow; C leaves the sum undefined then.
abbrev add_to : Option ℕ → ℕ → Option ℕ
add_to none c = none
add_to (some r) c = if ltb (r + c) (2 ^ 31) then some (r + c) else none

-- The reduction in `small_bench`, on `successful_lends` and `failed_turns` of `result`.
pub reduce_counters : Option ℕ → Option ℕ → List Counters → Option ℕ × Option ℕ
reduce_counters lends turns [] = (lends, turns)
reduce_counters lends turns (c ∷ cs) =
    reduce_counters (add_to lends c.successful_lends) (add_to turns c.failed_turns) cs

-- `small_bench` never writes to `result` before.
abbrev pub reported : List Counters → Option ℕ × Option ℕ
unfolding reduce_counters
reported = reduce_counters none none
