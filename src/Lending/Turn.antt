-- ===== src/Lending/Turn.antt =====
-- What one turn does to the library and the reader.
use amp_project.Base.{ℕ, ◌+◌, ◌^◌, ◌<◌, ◌≤◌, ◌≡◌, ltb, if◌then◌else◌, arith}
use amp_project.Lending.{Library, Reader, turn}

-- A turn moves at most one book, in either direction, and counts it: books are neither made nor
-- lost, and every lend is either still held or was followed by a return.
pub record Turned (l : Library) (r : Reader) (l' : Library) (r' : Reader) : Type 0 where
  pub art_kept :
      l'.art_of_multiprocessor_programming + r'.herlihy_shavit_luchangco_spear
      ≡ l.art_of_multiprocessor_programming + r.herlihy_shavit_luchangco_spear
  pub c_kept :
      l'.the_c_programming_language + r'.kernigham_ritchie
      ≡ l.the_c_programming_language + r.kernigham_ritchie
  pub balance :
      r'.counters.successful_lends + r.i + r.herlihy_shavit_luchangco_spear + r.kernigham_ritchie
      ≡ r.counters.successful_lends + r'.i + r'.herlihy_shavit_luchangco_spear
        + r'.kernigham_ritchie
  pub counted :
      r'.counters.successful_lends + r'.counters.failed_turns + r'.i
      ≡ r.counters.successful_lends + r.counters.failed_turns + r.i + 1
  pub small_step : (r.i ≤ r'.i) × (r'.i ≤ r.i + 1)

pub turn-Turned :
    (choice : ℕ) (l : Library) (r : Reader) → Turned l r (turn choice l r).0 (turn choice l r).1
unfolding turn
turn-Turned choice l r = ground arith

-- the copies of the chosen book, in the library and with the reader
abbrev pub chosen : ℕ → Library → Reader → ℕ
chosen choice l r =
    if ltb (2 ^ 30) choice
    then l.art_of_multiprocessor_programming + r.herlihy_shavit_luchangco_spear
    else l.the_c_programming_language + r.kernigham_ritchie

-- A turn fails exactly when neither the library nor the reader has a copy of the chosen book.
pub turn-failed :
    (choice : ℕ) (l : Library) (r : Reader)
    → ((turn choice l r).1.counters.failed_turns ≡ r.counters.failed_turns → 0 < chosen choice l r)
      × (0 < chosen choice l r
          → (turn choice l r).1.counters.failed_turns ≡ r.counters.failed_turns)
unfolding turn
turn-failed choice l r = (λ h. ground arith, λ h. ground arith)
